-- ===== src/Tcp/Frames/Chunks.antt =====
-- The frame loop on a stream that arrives in pieces.
use ai_solo_coder_task_a.Bytes.{word_at}
use ai_solo_coder_task_a.Outcome.{Outcome, faulted, returned, thrown, ◌>>=◌}
use ai_solo_coder_task_a.Prelude.{
  List, [], append_assoc, arith, drop, drop-append_le, inl, inr, length, length-append, length-drop,
  refl, suc, sym, take-append_le, zero, ℕ, ◌++◌, ◌+◌, ◌∙◌, ◌≡◌, ◌≤◌,
}
use ai_solo_coder_task_a.Tcp.Frames.{parse_frames}
use ai_solo_coder_task_a.Tcp.Frames.Pending.{
  IsComplete, parse_frames_complete, parse_frames_pending, front_cases, take_frame-eq-returned,
}

word_at-append : (xs ys : List ℕ) (n : ℕ) → n + 2 ≤ length xs → word_at (xs ++ ys) n ≡ word_at xs n
word_at-append xs ys n h = rw (
  drop-append_le n xs ys (omega arith),
  take-append_le 2 (drop n xs) ys (omega (arith, length-drop n xs)),
)

IsComplete-append : (buf more : List ℕ) → IsComplete buf → IsComplete (buf ++ more)
IsComplete-append buf more (h, k) = (
  omega (arith, length-append buf more),
  rw (word_at-append buf more 12 (omega arith)) (omega (arith, length-append buf more)),
)

module _ {Event : Type 0} (handle : List ℕ → Outcome (List Event)) where
  -- More fuel than bytes changes nothing.
  parse_frames_fuel :
      (fuel fuel' : ℕ) (buf : List ℕ)
      → length buf ≤ fuel
      → length buf ≤ fuel'
      → parse_frames handle fuel buf ≡ parse_frames handle fuel' buf
  parse_frames_fuel zero fuel' buf h k = cc (
    parse_frames_pending handle zero buf (inl (omega arith)),
    parse_frames_pending handle fuel' buf (inl (omega arith)),
  )
  parse_frames_fuel (suc fuel) zero buf h k = cc (
    parse_frames_pending handle (suc fuel) buf (inl (omega arith)),
    parse_frames_pending handle zero buf (inl (omega arith)),
  )
  parse_frames_fuel (suc fuel) (suc fuel') buf h k = elim (front_cases buf) [
    | inl p ↦ cc (
      parse_frames_pending handle (suc fuel) buf p,
      parse_frames_pending handle (suc fuel') buf p,
    )
    | inr c ↦ rw (
      parse_frames_complete handle fuel buf c,
      parse_frames_complete handle fuel' buf c,
      parse_frames_fuel fuel fuel' (drop (16 + word_at buf 12) buf)
          (omega (arith, length-drop (16 + word_at buf 12) buf))
          (omega (arith, length-drop (16 + word_at buf 12) buf)),
    )
  ]

  -- The events of a first run, put before those of a second.
  abbrev prepend : List Event → Outcome (List Event × List ℕ) → Outcome (List Event × List ℕ)
  prepend first r = r >>= λ later. returned (first ++ later.0, later.1)

  prepend-nil : (r : Outcome (List Event × List ℕ)) → prepend [] r ≡ r
  prepend-nil (returned r) = refl
  prepend-nil (thrown x) = refl
  prepend-nil faulted = refl

  prepend-append :
      (xs ys : List Event) (r : Outcome (List Event × List ℕ))
      → prepend xs (prepend ys r) ≡ prepend (xs ++ ys) r
  prepend-append xs ys (returned (zs, rest)) = rw append_assoc
  prepend-append xs ys (thrown x) = refl
  prepend-append xs ys faulted = refl

  parse_frames-append_pending :
      (buf more rest : List ℕ) (events : List Event) (total last : ℕ)
      → length (buf ++ more) ≤ total
      → length (rest ++ more) ≤ last
      → events ≡ []
      → rest ≡ buf
      → parse_frames handle total (buf ++ more)
        ≡ prepend events (parse_frames handle last (rest ++ more))
  parse_frames-append_pending buf more rest events total last h k e1 e2 =
      rw (e1, e2)
        (parse_frames_fuel total last (buf ++ more) h (rw e2 at k)
          ∙ sym (prepend-nil (parse_frames handle last (buf ++ more))))

  -- The loop run on `buf`, and again on what it left with `more` behind it, gives the events and the
  -- rest of one run on the whole.
  pub parse_frames-append :
      (fuel : ℕ) (buf more rest : List ℕ) (events : List Event) (total last : ℕ)
      → length buf ≤ fuel
      → length (buf ++ more) ≤ total
      → length (rest ++ more) ≤ last
      → parse_frames handle fuel buf ≡ returned (events, rest)
      → parse_frames handle total (buf ++ more)
        ≡ prepend events (parse_frames handle last (rest ++ more))
  parse_frames-append zero buf more rest events total last h k l e =
      let p = parse_frames_pending handle zero buf (inl (omega arith)) in
      parse_frames-append_pending buf more rest events total last k l (ground arith) (ground arith)
  parse_frames-append (suc fuel) buf more rest events zero last h k l e =
      let p =
        parse_frames_pending handle (suc fuel) buf (inl (omega (arith, length-append buf more))) in
      parse_frames-append_pending buf more rest events zero last k l (ground arith) (ground arith)
  parse_frames-append (suc fuel) buf more rest events (suc total) last h k l e =
      elim (front_cases buf) [
        | inl p ↦
            let q = parse_frames_pending handle (suc fuel) buf p in
            parse_frames-append_pending buf more rest events (suc total) last k l (ground arith)
              (ground arith)
        | inr c ↦
            let n : ℕ = 16 + word_at buf 12 in
            let (first, later, hf, hr, ev) =
              take_frame-eq-returned handle (parse_frames handle fuel) buf rest n events
                (sym (parse_frames_complete handle fuel buf c) ∙ e) in
            let ih =
              parse_frames-append fuel (drop n buf) more rest later total last
                (omega (arith, length-drop n buf))
                (omega (
                  arith,
                  length-drop n buf,
                  length-append (drop n buf) more,
                  length-append buf more,
                  c.1,
                ))
                l hr in
            rw
              (
                parse_frames_complete handle total (buf ++ more) (IsComplete-append buf more c),
                word_at-append buf more 12 (omega (arith, c.0)),
              )
              (rw (take-append_le n buf more c.1, drop-append_le n buf more c.1, hf, ih, ev)
                (prepend-append first later (parse_frames handle last (rest ++ more))))
      ]
