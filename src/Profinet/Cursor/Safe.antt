-- ===== src/Profinet/Cursor/Safe.antt =====
-- Which reading steps can reach undefined behaviour. A step that takes `n` bytes returns where they
-- are there and throws where they are not; a safe step never faults.
use ai_solo_coder_task_a.Outcome.{Outcome, faulted, out_of_range, returned, thrown}
use ai_solo_coder_task_a.Prelude.{
  List, [], arith, dec_le, length, refl, suc, zero, ℕ, ◌+◌, ◌<◌, ◌∷◌, ◌≡◌, ◌≢◌, ◌≤◌,
}
use ai_solo_coder_task_a.Profinet.Cursor.{
  Cursor, continue, next_double, next_float, next_many, next_u32, next_u64, pure, ◌>>=◌,
}
use ai_solo_coder_task_a.Profinet.Cursor.Laws.{read_u32_short, read_u64_short}
use ai_solo_coder_task_a.Profinet.Reads.{read_double, read_float}
use ai_solo_coder_task_a.Profinet.Reads.Total.{read_u32_total, read_u64_total}

-- `p` reads exactly `n` bytes, or throws.
pub record Takes {A : Type 0} (n : ℕ) (p : Cursor A) : Type 0 where
  pub enough :
      (payload : List ℕ) (offset : ℕ)
      → offset + n ≤ length payload
      → (a : A) × (p payload offset ≡ returned (a, offset + n))
  pub short :
      (payload : List ℕ) (offset : ℕ)
      → length payload < offset + n
      → p payload offset ≡ thrown out_of_range

pub record IsSafe {A : Type 0} (p : Cursor A) : Type 0 where
  pub at : (payload : List ℕ) (offset : ℕ) → p payload offset ≢ faulted

pub Takes-IsSafe : {A : Type 0} {p : Cursor A} (n : ℕ) → Takes n p → IsSafe p
Takes-IsSafe n t = record {
  at = λ payload offset e. elim (dec_le (offset + n) (length payload)) [
    | yes h ↦ let (a, r) = t.enough payload offset h in cc
    | no h ↦ cc (t.short payload offset (omega arith))
  ];
}

pub IsSafe-pure : {A : Type 0} (a : A) → IsSafe (pure a)
IsSafe-pure a = record { at = λ payload offset e. cc }

module _ {A B : Type 0} {p : Cursor A} (f : A → Cursor B) where
  pub Takes-bind : {n m : ℕ} → Takes n p → ((a : A) → Takes m (f a)) → Takes (n + m) (p >>= f)
  unfolding ◌>>=◌
  Takes-bind {n} {m} tp tf = record {
    enough = λ payload offset h.
        let (a, e) = tp.enough payload offset (omega arith) in
        let (b, r) = (tf a).enough payload (offset + n) (omega arith) in (b, ground arith);
    short = λ payload offset h. elim (dec_le (offset + n) (length payload)) [
      | yes there ↦
          let (a, e) = tp.enough payload offset there in
          rw e ((tf a).short payload (offset + n) (omega arith))
      | no missing ↦ rw (tp.short payload offset (omega arith))
    ];
  }

  pub IsSafe-bind : IsSafe p → ((a : A) → IsSafe (f a)) → IsSafe (p >>= f)
  unfolding ◌>>=◌
  IsSafe-bind sp sf = record {
    at = λ payload offset. go payload (p payload offset) (sp.at payload offset);
  }
    where
      go : (payload : List ℕ) (r : Outcome (A × ℕ)) → r ≢ faulted → continue r f payload ≢ faulted
      go payload (returned (a, offset)) h = (sf a).at payload offset
      go payload (thrown e) h = λ x. cc
      go payload faulted h = absurd (h refl)

-- The last read of a parser, followed by no other.
pub Takes-map :
    {A B : Type 0} {p : Cursor A} (g : A → B) {n : ℕ} → Takes n p → Takes n (p >>= λ a. pure (g a))
unfolding ◌>>=◌
Takes-map g {n} t = record {
  enough = λ payload offset h. let (a, e) = t.enough payload offset h in (g a, rw e);
  short = λ payload offset h. rw (t.short payload offset h);
}

pub Takes-u32 : Takes 4 next_u32
unfolding next_u32
Takes-u32 = record {
  enough = λ payload offset h. let (v, e) = read_u32_total payload offset h in (v, rw e);
  short = λ payload offset h. rw (read_u32_short payload offset h);
}

pub Takes-u64 : Takes 8 next_u64
unfolding next_u64
Takes-u64 = record {
  enough = λ payload offset h. let (v, e) = read_u64_total payload offset h in (v, rw e);
  short = λ payload offset h. rw (read_u64_short payload offset h);
}

pub Takes-float : Takes 4 next_float
unfolding next_float read_float
Takes-float = record {
  enough = λ payload offset h. let (v, e) = read_u32_total payload offset h in (v, ground arith);
  short = λ payload offset h. ground arith;
}

pub Takes-double : Takes 8 next_double
unfolding next_double read_double
Takes-double = record {
  enough = λ payload offset h. let (v, e) = read_u64_total payload offset h in (v, ground arith);
  short = λ payload offset h. ground arith;
}

pub IsSafe-many :
    {A : Type 0} (rounds : ℕ) {body : Cursor A} → IsSafe body → IsSafe (next_many rounds body)
unfolding next_many
IsSafe-many zero s = IsSafe-pure []
IsSafe-many (suc rounds) s =
    IsSafe-bind _ s (λ a. IsSafe-bind _ (IsSafe-many rounds s) (λ rest. IsSafe-pure (a ∷ rest)))

pub IsSafe-u32 : IsSafe next_u32
IsSafe-u32 = Takes-IsSafe 4 Takes-u32

pub IsSafe-u64 : IsSafe next_u64
IsSafe-u64 = Takes-IsSafe 8 Takes-u64

pub IsSafe-float : IsSafe next_float
IsSafe-float = Takes-IsSafe 4 Takes-float

pub IsSafe-double : IsSafe next_double
IsSafe-double = Takes-IsSafe 8 Takes-double

pub ruleset safe_rules =
    (IsSafe-pure, IsSafe-bind, IsSafe-many, IsSafe-u32, IsSafe-u64, IsSafe-float, IsSafe-double)
