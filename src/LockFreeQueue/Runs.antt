-- ===== src/LockFreeQueue/Runs.antt =====
-- The steps and the runs of the producers and of the one consumer.
use ai_solo_coder_task_a.LockFreeQueue.{
  Action, Consumer, Queue, act, at_consumer, chosen, exchange, exchange_tail, idle, link, loaded,
  pop, retry, run, spurious, store_link, take_value, try_pop_step, update, won,
}
use ai_solo_coder_task_a.LockFreeQueue.Invariant.{
  Inv, IsAt, exchange_tail-Inv, first_of, store_link-Inv,
}
use ai_solo_coder_task_a.Outcome.{Outcome, returned}
use ai_solo_coder_task_a.Prelude.{
  All, List, Option-cases, [], arith, false, get_elem?_exists, inl, inr, none, refl, some, suc, sym,
  take-suc, true, ℕ, ◌++◌, ◌∙◌, ◌∷◌, ◌≡◌,
}

module _ {T : Type 0} where
  -- What a step leads to: it does not fault, and the invariant holds after it.
  abbrev pub Goes : Outcome (Queue T) → Type 0
  Goes r = (c : Consumer) × (low : ℕ) × (q : Queue T) × (r ≡ returned q) × Inv c low q

  -- A step that changes only where the consumer stands.
  moved-Inv :
      (c c' : Consumer) (low : ℕ) (q : Queue T)
      → Inv c low q
      → first_of c' q ≡ low
      → IsAt c' (at_consumer 0 c' q)
      → first_of c' (at_consumer 0 c' q) ≡ first_of c' q
      → Inv c' low (at_consumer 0 c' q)
  moved-Inv c c' low q i f s e = record {
    here = refl;
    first = e ∙ f;
    stands = s;
    below = i.below;
    ordered = i.ordered;
    counted = i.counted;
    links = i.links;
    waits = i.waits;
    gaps = i.gaps;
    living = i.living;
    values = i.values;
    order = i.order;
  }

  try_pop-idle : (low : ℕ) (q : Queue T) → Inv idle low q → Goes (try_pop_step 0 idle q)
  try_pop-idle low q i =
      (loaded q.head, low, _, refl, moved-Inv idle (loaded q.head) low q i i.first refl refl)

  try_pop-loaded :
      (low old_head : ℕ) (q : Queue T)
      → Inv (loaded old_head) low q
      → Goes (try_pop_step 0 (loaded old_head) q)
  try_pop-loaded low old_head q i =
      let live : q.alive old_head ≡ true =
        ground (arith, i.living old_head, i.stands, i.first, i.ordered) in
      elim (Option-cases (q.next old_head)) [
        | inl e ↦ (
          idle,
          low,
          at_consumer 0 idle q,
          ground arith,
          moved-Inv (loaded old_head) idle low q i i.first tt refl,
        )
        | inr (n, e) ↦ (
          chosen old_head n,
          low,
          at_consumer 0 (chosen old_head n) q,
          ground arith,
          moved-Inv (loaded old_head) (chosen old_head n) low q i i.first (i.stands, e) refl,
        )
      ]

  try_pop-chosen :
      (low old_head node : ℕ) (q : Queue T)
      → Inv (chosen old_head node) low q
      → Goes (try_pop_step 0 (chosen old_head node) q)
  try_pop-chosen low old_head node q i =
      let l = i.links old_head node i.stands.1 in
      (
        won old_head node,
        low,
        at_consumer 0 (won old_head node) (record q { head = node }),
        ground (arith, i.stands.0),
        record {
          here = refl;
          first = sym (sym i.first ∙ sym i.stands.0);
          stands = (l.0, refl);
          below = omega (arith, i.below, i.stands.0, l.0);
          ordered = omega (arith, l.0, l.1);
          counted = i.counted;
          links = i.links;
          waits = λ a n e. ground (arith, i.waits a n, i.stands, l.0);
          gaps = i.gaps;
          living = i.living;
          values = i.values;
          order = i.order;
        },
      )

  try_pop-won :
      (low old_head node : ℕ) (q : Queue T)
      → Inv (won old_head node) low q
      → Goes (try_pop_step 0 (won old_head node) q)
  unfolding take_value
  try_pop-won low old_head node q i =
      let (v, e) =
        get_elem?_exists q.pushed old_head (omega (arith, i.counted, i.stands, i.ordered)) in
      let held : q.value (suc old_head) ≡ some v =
        ground (arith, i.values old_head, i.first, i.stands, i.ordered) in
      let q' : Queue T = record q {
        value = update q.value node none;
        alive = update q.alive old_head false;
        consumers = update q.consumers 0 idle;
        popped = q.popped ++ v ∷ [];
      } in
      (
        idle,
        suc old_head,
        q',
        ground (arith, held, i.stands, i.living node, i.living old_head, i.first, i.ordered),
        record {
          here = refl;
          first = sym i.stands.1 ∙ i.stands.0;
          stands = tt;
          below = omega (arith, i.stands);
          ordered = i.ordered;
          counted = i.counted;
          links = i.links;
          waits = i.waits;
          gaps = i.gaps;
          living = λ a h k. ground (arith, i.living a, i.first);
          values = λ b h k. ground (arith, i.values b, i.first, i.stands);
          order = rw (i.order, ← i.first) (sym (take-suc old_head q.pushed v e));
        },
      )

  -- The steps of any number of producers and of the one consumer.
  abbrev pub IsSingle : Action T → Type 0
  IsSingle (exchange v) = Unit
  IsSingle (link a) = Unit
  IsSingle (pop i) = i ≡ 0
  IsSingle (retry i) = i ≡ 0

  try_pop-Goes : (c : Consumer) (low : ℕ) (q : Queue T) → Inv c low q → Goes (try_pop_step 0 c q)
  try_pop-Goes idle low q i = try_pop-idle low q i
  try_pop-Goes (loaded old_head) low q i = try_pop-loaded low old_head q i
  try_pop-Goes (chosen old_head node) low q i = try_pop-chosen low old_head node q i
  try_pop-Goes (won old_head node) low q i = try_pop-won low old_head node q i

  spurious-Goes :
      (c : Consumer) (low : ℕ) (q : Queue T) → Inv c low q → Goes (returned (spurious 0 c q))
  unfolding spurious
  spurious-Goes idle low q i = (idle, low, q, refl, i)
  spurious-Goes (loaded old_head) low q i = (loaded old_head, low, q, refl, i)
  spurious-Goes (chosen old_head node) low q i = (
    loaded q.head,
    low,
    _,
    refl,
    moved-Inv (chosen old_head node) (loaded q.head) low q i i.first refl refl,
  )
  spurious-Goes (won old_head node) low q i = (won old_head node, low, q, refl, i)

  link-Goes : (c : Consumer) (low a : ℕ) (q : Queue T) → Inv c low q → Goes (store_link a q)
  unfolding store_link
  link-Goes c low a q i = elim (Option-cases (q.pending a)) [
    | inl e ↦ (c, low, q, ground (arith, e), i)
    | inr (n, e) ↦ (
      c,
      low,
      _,
      ground (arith, i.living a, i.waits a n e, i.below),
      store_link-Inv c low a n q i e,
    )
  ]

  -- Every atomic step keeps the invariant and touches no deleted node.
  act-Goes :
      (c : Consumer) (low : ℕ) (q : Queue T) (a : Action T)
      → IsSingle a
      → Inv c low q
      → Goes (act a q)
  unfolding act
  act-Goes c low q (exchange v) s i =
      (c, low, exchange_tail v q, refl, exchange_tail-Inv c low v q i)
  act-Goes c low q (link a) s i = link-Goes c low a q i
  act-Goes c low q (pop i) s inv = rw (s, inv.here) (try_pop-Goes c low q inv)
  act-Goes c low q (retry i) s inv = rw (s, inv.here) (spurious-Goes c low q inv)

  -- Every run of such steps.
  pub run-Goes :
      (actions : List (Action T)) (c : Consumer) (low : ℕ) (q : Queue T)
      → All IsSingle actions
      → Inv c low q
      → Goes (run actions q)
  unfolding run
  run-Goes [] c low q s i = (c, low, q, refl, i)
  run-Goes (a ∷ actions) c low q s i =
      let (c', low', q', e, i') = act-Goes c low q a s.0 i in
      let (c'', low'', q'', e', i'') = run-Goes actions c' low' q' s.1 i' in
      (c'', low'', q'', rw (e, e') refl, i'')
