-- ===== src/LockFreeQueue/Invariant.antt =====
-- The queue with one consumer: what holds after every atomic step.
use ai_solo_coder_task_a.LockFreeQueue.{
  Consumer, Queue, chosen, exchange_tail, idle, loaded, make_queue, update, won,
}
use ai_solo_coder_task_a.Prelude.{
  Option-cases, [], arith, dec_lt, get_elem?, get_elem?-append_last, get_elem?-append_lt, inl, inr,
  length, length-append, none, refl, some, suc, sym, take, take-append_le, true, ℕ, ◌<◌, ◌∙◌, ◌∷◌,
  ◌≡◌, ◌≤◌,
}

module _ {T : Type 0} where
  -- The first node that is not deleted, which is also the number of values popped.
  abbrev pub first_of : Consumer → Queue T → ℕ
  first_of (won old_head node) q = old_head
  first_of _ q = q.head

  -- What the consumer's locals say about the queue.
  abbrev pub IsAt : Consumer → Queue T → Type 0
  IsAt idle q = Unit
  IsAt (loaded old_head) q = old_head ≡ q.head
  IsAt (chosen old_head node) q = (old_head ≡ q.head) × (q.next old_head ≡ some node)
  IsAt (won old_head node) q = (node ≡ suc old_head) × (node ≡ q.head)

  pub record Inv (c : Consumer) (low : ℕ) (q : Queue T) : Type 0 where
    pub here : q.consumers 0 ≡ c
    pub first : first_of c q ≡ low
    pub stands : IsAt c q
    pub below : low ≤ q.head
    pub ordered : q.head ≤ q.tail
    pub counted : length q.pushed ≡ q.tail
    pub links : (a n : ℕ) → q.next a ≡ some n → (n ≡ suc a) × (a < q.tail)
    pub waits :
        (a n : ℕ)
        → q.pending a ≡ some n
        → (n ≡ suc a) × (q.head ≤ a) × (a < q.tail) × (q.next a ≡ none)
    pub gaps : (a : ℕ) → a < q.tail → q.next a ≡ none → q.pending a ≡ some (suc a)
    pub living : (a : ℕ) → low ≤ a → a ≤ q.tail → q.alive a ≡ true
    pub values : (b : ℕ) → low ≤ b → b < q.tail → q.value (suc b) ≡ get_elem? q.pushed b
    pub order : q.popped ≡ take low q.pushed

  pub make_queue-Inv : Inv idle 0 (make_queue {T = T})
  unfolding make_queue
  make_queue-Inv = record {
    here = refl;
    first = refl;
    stands = tt;
    below = omega arith;
    ordered = omega arith;
    counted = refl;
    links = λ a n e. cc;
    waits = λ a n e. cc;
    gaps = λ a h e. absurd (omega arith);
    living = λ a h k. ground arith;
    values = λ b h k. absurd (omega arith);
    order = refl;
  }

  stands-exchange_tail :
      (c : Consumer) (v : T) (q : Queue T)
      → IsAt c q
      → (first_of c (exchange_tail v q) ≡ first_of c q) × IsAt c (exchange_tail v q)
  unfolding exchange_tail
  stands-exchange_tail idle v q h = (refl, h)
  stands-exchange_tail (loaded old_head) v q h = (refl, h)
  stands-exchange_tail (chosen old_head node) v q h = (refl, h)
  stands-exchange_tail (won old_head node) v q h = (refl, h)

  next_tail : (c : Consumer) (low : ℕ) (q : Queue T) → Inv c low q → q.next q.tail ≡ none
  next_tail c low q i = elim (Option-cases (q.next q.tail)) [
    | inl e ↦ e
    | inr (n, e) ↦ absurd (omega (arith, i.links q.tail n e))
  ]

  pub exchange_tail-Inv :
      (c : Consumer) (low : ℕ) (v : T) (q : Queue T) → Inv c low q → Inv c low (exchange_tail v q)
  unfolding exchange_tail
  exchange_tail-Inv c low v q i =
      let s = stands-exchange_tail c v q i.stands in
      record {
        here = i.here;
        first = s.0 ∙ i.first;
        stands = s.1;
        below = i.below;
        ordered = omega (arith, i.ordered);
        counted = omega (arith, i.counted, length-append q.pushed (v ∷ []));
        links = λ a n e. ground (arith, i.links a n);
        waits = λ a n e. ground (arith, i.waits a n, i.ordered, next_tail c low q i);
        gaps = λ a h e. ground (arith, i.gaps a);
        living = λ a h k. ground (arith, i.living a);
        values = λ b h k. elim (dec_lt b q.tail) [
          | yes old ↦
              ground (arith, i.values b h old, i.counted, get_elem?-append_lt q.pushed (v ∷ []) b)
          | no last ↦
              let e : b ≡ length q.pushed = omega (arith, i.counted) in
              ground (arith, i.counted, get_elem?-append_last q.pushed v)
        ];
        order =
            i.order
            ∙ sym (
                take-append_le low q.pushed (v ∷ [])
                  (omega (arith, i.counted, i.below, i.ordered)));
      }

  stands-store_link :
      (c : Consumer) (a n : ℕ) (q : Queue T)
      → q.next a ≡ none
      → IsAt c q
      → let q' = record q { next = update q.next a (some n); pending = update q.pending a none } in
        (first_of c q' ≡ first_of c q) × IsAt c q'
  stands-store_link idle a n q e h = (refl, h)
  stands-store_link (loaded old_head) a n q e h = (refl, h)
  stands-store_link (chosen old_head node) a n q e h = (refl, (h.0, ground arith))
  stands-store_link (won old_head node) a n q e h = (refl, h)

  pub store_link-Inv :
      (c : Consumer) (low a n : ℕ) (q : Queue T)
      → Inv c low q
      → q.pending a ≡ some n
      → Inv c low (record q { next = update q.next a (some n); pending = update q.pending a none })
  store_link-Inv c low a n q i e =
      let w = i.waits a n e in
      let s = stands-store_link c a n q w.3 i.stands in
      record {
        here = i.here;
        first = s.0 ∙ i.first;
        stands = s.1;
        below = i.below;
        ordered = i.ordered;
        counted = i.counted;
        links = λ b m f. ground (arith, i.links b m);
        waits = λ b m f. ground (arith, i.waits b m);
        gaps = λ b h f. ground (arith, i.gaps b);
        living = i.living;
        values = i.values;
        order = i.order;
      }
