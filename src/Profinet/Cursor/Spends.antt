-- ===== src/Profinet/Cursor/Spends.antt =====
-- How many bytes a reading step has moved on when it returns.
use ai_solo_coder_task_a.Outcome.{Outcome, faulted, returned, thrown}
use ai_solo_coder_task_a.Prelude.{
  List, [], arith, dec_le, length, refl, suc, zero, ℕ, ◌*◌, ◌+◌, ◌∷◌, ◌≡◌, ◌≤◌,
}
use ai_solo_coder_task_a.Profinet.Cursor.{Cursor, continue, next_many, pure, ◌>>=◌}
use ai_solo_coder_task_a.Profinet.Cursor.Safe.{Takes}
-- Where `p` returns, at least `n` bytes have been passed, and none behind the end.
use ai_solo_coder_task_a.Outcome.{Outcome, faulted, returned, thrown}
use ai_solo_coder_task_a.Prelude.{
  List, [], arith, dec_le, length, refl, suc, zero, ℕ, ◌*◌, ◌+◌, ◌∷◌, ◌≡◌, ◌≤◌,
}
use ai_solo_coder_task_a.Profinet.Cursor.{Cursor, continue, next_many, pure}
use ai_solo_coder_task_a.Profinet.Cursor.Safe.{Takes}

pub record Spends {A : Type 0} (n : ℕ) (p : Cursor A) : Type 0 where
  pub at :
      (payload : List ℕ) (offset : ℕ) (a : A) (end : ℕ)
      → p payload offset ≡ returned (a, end)
      → offset ≤ length payload
      → (offset + n ≤ end) × (end ≤ length payload)

pub Takes-Spends : {A : Type 0} {p : Cursor A} (n : ℕ) → Takes n p → Spends n p
Takes-Spends n t = record {
  at = λ payload offset a end e h. elim (dec_le (offset + n) (length payload)) [
    | yes enough ↦
        let (b, r) = t.enough payload offset enough in
        let same : end ≡ offset + n = ground (arith, e, r) in (omega arith, omega arith)
    | no few ↦ absurd (cc (t.short payload offset (omega arith)))
  ];
}

pub Spends-less : {A : Type 0} {p : Cursor A} (m n : ℕ) → m ≤ n → Spends n p → Spends m p
Spends-less m n h s = record {
  at = λ payload offset a end e k. let r = s.at payload offset a end e k in (omega arith, r.1);
}

pub Spends-pure : {A : Type 0} (a : A) → Spends 0 (pure a)
Spends-pure a = record {
  at = λ payload offset b end e h.
      let same : offset ≡ end = ground (arith, e) in (omega arith, omega arith);
}

module _ {A B : Type 0} (p : Cursor A) (f : A → Cursor B) where
  -- What returned in two steps returned in each.
  pub >>=-eq-returned :
      (payload : List ℕ) (offset : ℕ) (b : B) (end : ℕ)
      → (p >>= f) payload offset ≡ returned (b, end)
      → (a : A) × (next : ℕ) × (p payload offset ≡ returned (a, next))
        × (f a payload next ≡ returned (b, end))
  unfolding ◌>>=◌
  >>=-eq-returned payload offset b end = go (p payload offset)
    where
      go :
          (r : Outcome (A × ℕ))
          → continue r f payload ≡ returned (b, end)
          → (a : A) × (next : ℕ) × (r ≡ returned (a, next)) × (f a payload next ≡ returned (b, end))
      go (returned (a, next)) e = (a, next, refl, e)
      go (thrown x) e = cc
      go faulted e = cc

  pub Spends-bind : (m n : ℕ) → Spends m p → ((a : A) → Spends n (f a)) → Spends (m + n) (p >>= f)
  Spends-bind m n sp sf = record {
    at = λ payload offset b end e h.
        let (a, next, e0, e1) = >>=-eq-returned payload offset b end e in
        let r = sp.at payload offset a next e0 h in
        let s = (sf a).at payload next b end e1 r.1 in (omega (arith, r.0, s.0), s.1);
  }

module _ {A : Type 0} (n : ℕ) (body : Cursor A) (s : Spends n body) where
  pub Spends-many : (rounds : ℕ) → Spends (rounds * n) (next_many rounds body)
  unfolding next_many
  Spends-many zero = Spends-less (0 * n) 0 (omega arith) (Spends-pure [])
  Spends-many (suc rounds) = Spends-less (suc rounds * n) (n + (rounds * n + 0)) (omega arith) (
      Spends-bind body _ n (rounds * n + 0) s λ a.
        Spends-bind (next_many rounds body) _ (rounds * n) 0 (Spends-many rounds)
          λ rest. Spends-pure (a ∷ rest))
