-- ===== src/Profinet/Cursor/Encodes.antt =====
-- A reading step inverts an encoding: where the bytes at the offset are the encoding of `a`, the step
-- returns `a` and moves the offset behind it. One rule for each way to build a step.
use ai_solo_coder_task_a.Bytes.{get_elem?-drop-zero}
use ai_solo_coder_task_a.Outcome.{returned}
use ai_solo_coder_task_a.Prelude.{
  All, List, [], add-zero, append-nil, append_assoc, arith, drop, length, length-append,
  length-drop, map, refl, ℕ, ◌++◌, ◌+◌, ◌<◌, ◌^◌, ◌∷◌, ◌≡◌,
}
use ai_solo_coder_task_a.Profinet.Cursor.{
  Cursor, next_byte, next_double, next_float, next_many, next_u32, next_u64, pure, ◌>>=◌,
}
use ai_solo_coder_task_a.Profinet.Cursor.Laws.{
  drop-append, drop-drop, le_value-u32_bytes, le_value-u64_bytes, read_u32_lem, read_u64_lem,
}
use ai_solo_coder_task_a.Profinet.Reads.{read_double, read_float}
use ai_solo_coder_task_a.Simulator.Encode.{u32_bytes, u64_bytes}

-- `p` reads `a` from the bytes `enc`.
pub record Encodes {A : Type 0} (p : Cursor A) (enc : List ℕ) (a : A) : Type 0 where
  pub at :
      (payload : List ℕ) (offset : ℕ) (rest : List ℕ)
      → drop offset payload ≡ enc ++ rest
      → p payload offset ≡ returned (a, offset + length enc)

pub Encodes-pure : {A : Type 0} (a : A) → Encodes (pure a) [] a
Encodes-pure a = record { at = λ payload offset rest e. rw add-zero refl }

module _ {A B : Type 0} {p : Cursor A} (f : A → Cursor B) {xs ys : List ℕ} {a : A} {b : B} where
  pub Encodes-bind : Encodes p xs a → Encodes (f a) ys b → Encodes (p >>= f) (xs ++ ys) b
  unfolding ◌>>=◌
  Encodes-bind hp hf = record {
    at = λ payload offset rest e. ground (
      arith,
      hp.at payload offset (ys ++ rest),
      hf.at payload (offset + length xs) rest,
      append_assoc xs ys rest,
      drop-drop offset (length xs) payload,
      drop-append xs (ys ++ rest),
      length-append xs ys,
    );
  }

pub Encodes-u32 : (v : ℕ) → v < 2 ^ 32 → Encodes next_u32 (u32_bytes v) v
unfolding next_u32
Encodes-u32 v h = record {
  at = λ payload offset rest e.
      ground (arith, read_u32_lem payload offset _ _ _ _ rest e, le_value-u32_bytes v);
}

pub Encodes-u64 : (v : ℕ) → v < 2 ^ 64 → Encodes next_u64 (u64_bytes v) v
unfolding next_u64
Encodes-u64 v h = record {
  at = λ payload offset rest e.
      ground (arith, read_u64_lem payload offset _ _ _ _ _ _ _ _ rest e, le_value-u64_bytes v);
}

pub Encodes-float : (v : ℕ) → v < 2 ^ 32 → Encodes next_float (u32_bytes v) v
unfolding next_float read_float
Encodes-float v h = record {
  at = λ payload offset rest e. ground (
    arith,
    length-drop offset payload,
    read_u32_lem payload offset _ _ _ _ rest e,
    le_value-u32_bytes v,
  );
}

pub Encodes-double : (v : ℕ) → v < 2 ^ 64 → Encodes next_double (u64_bytes v) v
unfolding next_double read_double
Encodes-double v h = record {
  at = λ payload offset rest e. ground (
    arith,
    length-drop offset payload,
    read_u64_lem payload offset _ _ _ _ _ _ _ _ rest e,
    le_value-u64_bytes v,
  );
}

pub Encodes-byte : (v : ℕ) → Encodes next_byte (v ∷ []) v
unfolding next_byte
Encodes-byte v = record {
  at = λ payload offset rest e. ground (arith, get_elem?-drop-zero payload offset);
}

-- The bytes of a sequence of items, one after the other.
abbrev pub concat : {A : Type 0} → (A → List ℕ) → List A → List ℕ
concat enc [] = []
concat enc (a ∷ items) = enc a ++ concat enc items

module _ {A D : Type 0} {body : Cursor A} (enc : D → List ℕ) (val : D → A) (P : D → Type 0) where
  pub Encodes-many :
      ((d : D) → P d → Encodes body (enc d) (val d))
      → (items : List D) → All P items
      → Encodes (next_many (length items) body) (concat enc items) (map val items)
  unfolding next_many
  Encodes-many each [] h = Encodes-pure []
  Encodes-many each (d ∷ items) h = rw (← append-nil (concat enc items)) (
      Encodes-bind _ (each d h.0)
        (Encodes-bind (λ rest. pure (val d ∷ rest)) (Encodes-many each items h.1) (Encodes-pure _)))

-- `p` reads `a` from the bytes `enc` if they are the last of the payload.
pub record Ends {A : Type 0} (p : Cursor A) (enc : List ℕ) (a : A) : Type 0 where
  pub at :
      (payload : List ℕ) (offset : ℕ)
      → drop offset payload ≡ enc
      → (end : ℕ) × (p payload offset ≡ returned (a, end))

module _ {A B : Type 0} {p : Cursor A} where
  pub Ends-bind :
      (f : A → Cursor B) {xs ys : List ℕ} {a : A} {b : B}
      → Encodes p xs a
      → Ends (f a) ys b
      → Ends (p >>= f) (xs ++ ys) b
  unfolding ◌>>=◌
  Ends-bind f {xs} {ys} hp hf = record {
    at = λ payload offset e.
        let next : drop (offset + length xs) payload ≡ ys =
          rw (drop-drop offset (length xs) payload, e) (drop-append xs ys) in
        let (end, r) = hf.at payload (offset + length xs) next in
        (end, rw (hp.at payload offset ys e) r);
  }

  pub Ends-map :
      (g : A → B) {xs : List ℕ} {a : A} → Ends p xs a → Ends (p >>= λ x. pure (g x)) xs (g a)
  unfolding ◌>>=◌
  Ends-map g hp = record {
    at = λ payload offset e. let (end, r) = hp.at payload offset e in (end, rw r);
  }
