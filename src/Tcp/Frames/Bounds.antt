-- ===== src/Tcp/Frames/Bounds.antt =====
-- How large the receive buffer gets.
use ai_solo_coder_task_a.Bytes.{le_value, word_at}
use ai_solo_coder_task_a.Outcome.{Outcome, faulted, returned, thrown, ◌>>=◌}
use ai_solo_coder_task_a.Prelude.{
  All, List, [], arith, drop, if◌then◌else◌, inl, inr, length, ltb, refl, suc, sym, take, zero, ℕ,
  ◌++◌, ◌+◌, ◌<◌, ◌^◌, ◌∙◌, ◌∷◌, ◌≡◌, ◌≤◌,
}
use ai_solo_coder_task_a.Tcp.Frames.{max_frame_buf_size, parse_frames, try_parse_frames}
use ai_solo_coder_task_a.Tcp.Frames.Chunks.{parse_frames-append}
use ai_solo_coder_task_a.Tcp.Frames.Pending.{
  IsByte, IsPending, parse_frames-IsPending, parse_frames_complete, parse_frames_pending,
  front_cases, take_frame-eq-returned,
}

All-drop {ℓ κ} : {A : Type ℓ} (P : A → Type κ) (n : ℕ) (xs : List A) → All P xs → All P (drop n xs)
All-drop P zero xs h = h
All-drop P (suc n) [] h = tt
All-drop P (suc n) (x ∷ xs) h = All-drop P n xs h.1

pub All-append {ℓ κ} :
    {A : Type ℓ} (P : A → Type κ) (xs ys : List A) → All P xs → All P ys → All P (xs ++ ys)
All-append P [] ys hx hy = hy
All-append P (x ∷ xs) ys hx hy = (hx.0, All-append P xs ys hx.1 hy)

word_of_bytes_lt : (xs : List ℕ) → All IsByte xs → le_value (take 2 xs) < 2 ^ 16
word_of_bytes_lt [] h = omega arith
word_of_bytes_lt (b0 ∷ []) h = omega (arith, h.0)
word_of_bytes_lt (b0 ∷ b1 ∷ xs) h = omega (arith, h.0, h.1.0)

word_at_lt : (bytes : List ℕ) (offset : ℕ) → All IsByte bytes → word_at bytes offset < 2 ^ 16
word_at_lt bytes offset h = word_of_bytes_lt (drop offset bytes) (All-drop IsByte offset bytes h)

module _ {Event : Type 0} (handle : List ℕ → Outcome (List Event)) where
  -- The loop only erases at the front.
  parse_frames_bytes :
      (fuel : ℕ) (buf rest : List ℕ) (events : List Event)
      → All IsByte buf
      → parse_frames handle fuel buf ≡ returned (events, rest)
      → All IsByte rest
  parse_frames_bytes zero buf rest events h e =
      let same : buf ≡ rest = unfold parse_frames in ground arith in rw (← same) h
  parse_frames_bytes (suc fuel) buf rest events h e = elim (front_cases buf) [
    | inl p ↦
        let same : buf ≡ rest = ground (arith, parse_frames_pending handle (suc fuel) buf p) in
        rw (← same) h
    | inr c ↦
        let n : ℕ = 16 + word_at buf 12 in
        let (first, later, hf, hr, ev) =
          take_frame-eq-returned handle (parse_frames handle fuel) buf rest n events
            (sym (parse_frames_complete handle fuel buf c) ∙ e) in
        parse_frames_bytes fuel (drop n buf) rest later (All-drop IsByte n buf h) hr
  ]

  parse_frames_lt :
      (buf rest : List ℕ) (events : List Event)
      → All IsByte buf
      → parse_frames handle (length buf) buf ≡ returned (events, rest)
      → length rest < 65551
  parse_frames_lt buf rest events h e = omega (
    arith,
    parse_frames-IsPending handle (length buf) buf rest events (omega arith) e,
    word_at_lt rest 12 (parse_frames_bytes (length buf) buf rest events h e),
  )

  -- The reset of an overlong buffer is dead code: a frame is at most 65551 bytes, so the loop never
  -- leaves more than 4 MiB.
  pub try_parse_frames-parse_frames :
      (buf : List ℕ)
      → All IsByte buf
      → try_parse_frames handle buf ≡ parse_frames handle (length buf) buf
  unfolding try_parse_frames
  try_parse_frames-parse_frames buf h =
      go (parse_frames handle (length buf) buf) λ events rest e. parse_frames_lt buf rest events h e
    where
      go :
          (r : Outcome (List Event × List ℕ))
          → ((events : List Event) (rest : List ℕ)
              → r ≡ returned (events, rest)
              → length rest < 65551)
          → (r >>= λ done.
              returned (done.0, if ltb max_frame_buf_size (length done.1) then [] else done.1))
            ≡ r
      go (returned (events, rest)) bound = let few = bound events rest refl in ground arith
      go (thrown x) bound = refl
      go faulted bound = refl

  -- What the loop leaves of a buffer of bytes is the beginning of a frame that is not complete, at most
  -- 65550 bytes, and is itself made of bytes.
  pub try_parse_frames_rest :
      (buf rest : List ℕ) (events : List Event)
      → All IsByte buf
      → try_parse_frames handle buf ≡ returned (events, rest)
      → IsPending rest × (length rest ≤ 65550) × All IsByte rest
  try_parse_frames_rest buf rest events h e =
      let r = sym (try_parse_frames-parse_frames buf h) ∙ e in
      (
        parse_frames-IsPending handle (length buf) buf rest events (omega arith) r,
        omega (arith, parse_frames_lt buf rest events h r),
        parse_frames_bytes (length buf) buf rest events h r,
      )

  -- Where the stream is cut does not matter: parsing what has arrived, and then the rest of it together
  -- with `more`, gives the events and the buffer of parsing everything at once.
  pub try_parse_frames-append :
      (buf more rest : List ℕ) (events : List Event)
      → All IsByte buf
      → All IsByte more
      → try_parse_frames handle buf ≡ returned (events, rest)
      → try_parse_frames handle (buf ++ more) ≡ (
          try_parse_frames handle (rest ++ more) >>= λ later. returned (events ++ later.0, later.1))
  try_parse_frames-append buf more rest events hb hm e =
      let kept = try_parse_frames_rest buf rest events hb e in
      rw
        (
          try_parse_frames-parse_frames (buf ++ more) (All-append IsByte buf more hb hm),
          try_parse_frames-parse_frames (rest ++ more) (All-append IsByte rest more kept.2 hm),
        )
        (parse_frames-append handle (length buf) buf more rest events _ _ (omega arith)
          (omega arith) (omega arith) (sym (try_parse_frames-parse_frames buf hb) ∙ e))
