-- ===== src/LockFreeQueue/Calls.antt =====
-- One call of `try_pop` that finds a linked node and is not interrupted.
use ai_solo_coder_task_a.LockFreeQueue.{
  Action, Consumer, Queue, act, at_consumer, chosen, idle, loaded, pop, run, take_value, try_pop,
  update, won,
}
use ai_solo_coder_task_a.Outcome.{returned}
use ai_solo_coder_task_a.Prelude.{
  List, [], arith, false, none, refl, some, true, ℕ, ◌++◌, ◌∷◌, ◌≡◌, ◌≢◌,
}

update_same : (f : ℕ → Consumer) (i : ℕ) (c : Consumer) → update f i c i ≡ c
update_same f i c = ground arith

module _ {T : Type 0} (i : ℕ) where
  pub pops : List (Action T)
  pops = pop i ∷ pop i ∷ pop i ∷ pop i ∷ []

  begins :
      (q : Queue T)
      → q.consumers i ≡ idle
      → try_pop i q ≡ returned (at_consumer i (loaded q.head) q)
  unfolding try_pop
  begins q e = rw e refl

  sees :
      (q : Queue T) (h n : ℕ)
      → q.consumers i ≡ loaded h
      → q.alive h ≡ true
      → q.next h ≡ some n
      → try_pop i q ≡ returned (at_consumer i (chosen h n) q)
  unfolding try_pop
  sees q h n e l f = rw (e, l, f) refl

  wins :
      (q : Queue T) (h n : ℕ)
      → q.consumers i ≡ chosen h n
      → q.head ≡ h
      → try_pop i q ≡ returned (at_consumer i (won h n) (record q { head = n }))
  unfolding try_pop
  wins q h n e f = rw e (ground (arith, f))

  takes :
      (q : Queue T) (h n : ℕ) (v : T)
      → q.consumers i ≡ won h n
      → q.value n ≡ some v
      → q.alive n ≡ true
      → q.alive h ≡ true
      → try_pop i q
        ≡ returned (record q {
          value = update q.value n none;
          alive = update q.alive h false;
          consumers = update q.consumers i idle;
          popped = q.popped ++ v ∷ [];
        })
  unfolding try_pop take_value
  takes q h n v e f l m = rw e (ground (arith, f, l, m))

  pub pops_take :
      (q : Queue T) (n : ℕ) (v : T)
      → q.consumers i ≡ idle
      → q.alive q.head ≡ true
      → q.next q.head ≡ some n
      → q.value n ≡ some v
      → q.alive n ≡ true
      → (q' : Queue T) × (run pops q ≡ returned q')
        × (q'.popped ≡ q.popped ++ v ∷ [])
        × (q'.alive ≡ update q.alive q.head false)
        × (q'.consumers i ≡ idle)
        × ((j : ℕ) → j ≢ i → q'.consumers j ≡ q.consumers j)
  unfolding run act pops
  pops_take q n v c l f g m =
      let q1 = at_consumer i (loaded q.head) q in
      let q2 = at_consumer i (chosen q.head n) q1 in
      let q3 = at_consumer i (won q.head n) (record q2 { head = n }) in
      let e3 = takes q3 q.head n v (update_same q2.consumers i (won q.head n)) g m l in
      let q4 = record q3 {
        value = update q3.value n none;
        alive = update q3.alive q.head false;
        consumers = update q3.consumers i idle;
        popped = q3.popped ++ v ∷ [];
      } in
      (
        q4,
        rw
            (
              begins q c,
              sees q1 q.head n (update_same q.consumers i (loaded q.head)) l f,
              wins q2 q.head n (update_same q1.consumers i (chosen q.head n)) refl,
              e3,
            )
            refl,
        refl,
        refl,
        update_same q3.consumers i idle,
        λ j d. ground (arith, d),
      )
