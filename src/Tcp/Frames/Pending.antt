-- ===== src/Tcp/Frames/Pending.antt =====
-- What the frame loop leaves in the buffer.
use ai_solo_coder_task_a.Bytes.{word_at, word_at-get_elem?}
use ai_solo_coder_task_a.Outcome.{Outcome, faulted, returned, thrown, ◌>>=◌}
use ai_solo_coder_task_a.Prelude.{
  Bool-cases, List, [], arith, dec_lt, drop, false, get_elem?_exists, inl, inr, length, length-drop,
  ltb, refl, suc, sym, take, zero, ℕ, ◌++◌, ◌+◌, ◌<◌, ◌∙◌, ◌≡◌, ◌≤◌, ◌⊎◌,
}
use ai_solo_coder_task_a.Tcp.Frames.{frame_payload_len, parse_frames, take_frame}

-- No complete frame is at the front.
abbrev pub IsPending : List ℕ → Type 0
IsPending buf = (length buf < 16) ⊎ (length buf < 16 + word_at buf 12)

abbrev pub IsByte : ℕ → Type 0
IsByte b = b < 256

pub frame_payload_len_lem :
    (buf : List ℕ) → 16 ≤ length buf → frame_payload_len buf ≡ returned (word_at buf 12)
unfolding frame_payload_len
frame_payload_len_lem buf h =
    let (b0, e0) = get_elem?_exists buf 12 (omega arith) in
    let (b1, e1) = get_elem?_exists buf 13 (omega arith) in
    ground (arith, word_at-get_elem? buf 12 b0 b1 e0 e1)

not_ltb : (a b : ℕ) → b ≤ a → ltb a b ≡ false
not_ltb a b h = ground arith

-- A complete frame is at the front.
abbrev pub IsComplete : List ℕ → Type 0
IsComplete buf = (16 ≤ length buf) × (16 + word_at buf 12 ≤ length buf)

pub front_cases : (buf : List ℕ) → IsPending buf ⊎ IsComplete buf
front_cases buf = elim (dec_lt (length buf) 16) [
  | yes few ↦ inl (inl few)
  | no many ↦ elim (dec_lt (length buf) (16 + word_at buf 12)) [
    | yes part ↦ inl (inr part)
    | no whole ↦ inr (omega arith, omega arith)
  ]
]

module _ {Event : Type 0} (handle : List ℕ → Outcome (List Event)) where
  pub parse_frames_pending :
      (fuel : ℕ) (buf : List ℕ) → IsPending buf → parse_frames handle fuel buf ≡ returned ([], buf)
  unfolding parse_frames
  parse_frames_pending zero buf h = refl
  parse_frames_pending (suc fuel) buf h = elim (Bool-cases (ltb (length buf) 16)) [
    | inl few ↦ rw few
    | inr many ↦ rw (many, frame_payload_len_lem buf (ground arith)) (ground arith)
  ]

  pub parse_frames_complete :
      (fuel : ℕ) (buf : List ℕ)
      → IsComplete buf
      → parse_frames handle (suc fuel) buf
        ≡ take_frame handle (λ b. parse_frames handle fuel b) buf (16 + word_at buf 12)
  unfolding parse_frames
  parse_frames_complete fuel buf (h, k) =
      rw (not_ltb (length buf) 16 h, frame_payload_len_lem buf h)
        (rw (not_ltb (length buf) (16 + word_at buf 12) k))

  -- A round that takes a frame returns in three steps.
  pub take_frame-eq-returned :
      (rest_of : List ℕ → Outcome (List Event × List ℕ)) (buf rest : List ℕ) (total : ℕ)
      (events : List Event)
      → take_frame handle rest_of buf total ≡ returned (events, rest)
      → (first : List Event) × (later : List Event) × (handle (take total buf) ≡ returned first)
        × (rest_of (drop total buf) ≡ returned (later, rest))
        × (events ≡ first ++ later)
  take_frame-eq-returned rest_of buf rest total events =
      go (handle (take total buf)) (rest_of (drop total buf))
    where
      go :
          (h : Outcome (List Event)) (r : Outcome (List Event × List ℕ))
          → ◌>>=◌ {B = List Event × List ℕ} h
              (λ first. r >>= λ later. returned (first ++ later.0, later.1))
            ≡ returned (events, rest)
          → (first : List Event) × (later : List Event) × (h ≡ returned first)
            × (r ≡ returned (later, rest))
            × (events ≡ first ++ later)
      go (returned first) (returned (later, end)) e =
          (first, later, refl, ground arith, ground arith)
      go (returned first) (thrown x) e = cc
      go (returned first) faulted e = cc
      go (thrown x) r e = cc
      go faulted r e = cc

  pub parse_frames-IsPending :
      (fuel : ℕ) (buf rest : List ℕ) (events : List Event)
      → length buf ≤ fuel
      → parse_frames handle fuel buf ≡ returned (events, rest)
      → IsPending rest
  parse_frames-IsPending zero buf rest events h e = inl (unfold parse_frames in ground arith)
  parse_frames-IsPending (suc fuel) buf rest events h e = elim (front_cases buf) [
    | inl p ↦ ground (arith, parse_frames_pending (suc fuel) buf p)
    | inr c ↦
        let (first, later, hf, hr, _) =
          take_frame-eq-returned (parse_frames handle fuel) buf rest _ events
            (sym (parse_frames_complete fuel buf c) ∙ e) in
        parse_frames-IsPending fuel (drop (16 + word_at buf 12) buf) rest later
          (omega (arith, length-drop (16 + word_at buf 12) buf, c.0)) hr
  ]
