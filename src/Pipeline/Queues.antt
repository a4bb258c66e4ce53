-- ===== src/Pipeline/Queues.antt =====
-- What a module does with its queues: `ModuleBase::run_loop` in backend/include/module_base.h and
-- backend/include/modules/fanout_module.h. `try_pop` and `push` are whole calls.
use ai_solo_coder_task_a.LockFreeQueue.{update}
use ai_solo_coder_task_a.Prelude.{
  List, Option, [], ap, append-nil, append_assoc, arith, if◌then◌else◌, none, replicate, some, suc,
  sym, zero, ℕ, ℕ_discrete, ◌%◌, ◌++◌, ◌+◌, ◌==◌, ◌^◌, ◌∷◌, ◌≡◌,
}

-- The two queue pointers of a `ModuleBase` and its counter of processed messages.
pub record Module : Type 0 where
  pub input : Option ℕ
  pub output : Option ℕ
  pub processed : ℕ

abbrev pub new_module : Module
new_module = record { input = none; output = none; processed = 0 }

abbrev pub counted : Module → Module
counted m = record m { processed = (m.processed + 1) % 2 ^ 64 }

-- How many of the pointers point to queue `k`.
abbrev pub points_to : ℕ → Option ℕ → ℕ
points_to k none = 0
points_to k (some q) = if q == k then 1 else 0

abbrev pub count_pointers : ℕ → List (Option ℕ) → ℕ
count_pointers k [] = 0
count_pointers k (q ∷ pointers) = points_to k q + count_pointers k pointers

module _ {T : Type 0} where
  -- `if (q) q->push(msg);`
  abbrev pub push_to : Option ℕ → T → (ℕ → List T) → ℕ → List T
  push_to none msg queues = queues
  push_to (some q) msg queues = update queues q (queues q ++ msg ∷ [])

  first_message : ℕ → List T → (ℕ → List T) → Option (T × (ℕ → List T))
  first_message q [] queues = none
  first_message q (msg ∷ rest) queues = some (msg, update queues q rest)

  -- `input_ && input_->try_pop(msg)`
  unfoldable pub pop_from : Option ℕ → (ℕ → List T) → Option (T × (ℕ → List T))
  unfolding first_message
  pop_from none queues = none
  pop_from (some q) queues = first_message q (queues q) queues

  -- The loop over `extra_outputs_`.
  push_each : List (Option ℕ) → T → (ℕ → List T) → ℕ → List T
  push_each [] msg queues = queues
  push_each (q ∷ extra_outputs) msg queues = push_each extra_outputs msg (push_to q msg queues)

  -- `FanOutModule::process`
  unfoldable pub fan_out : Option ℕ → List (Option ℕ) → T → (ℕ → List T) → ℕ → List T
  unfolding push_each
  fan_out primary_out extra_outputs msg queues =
      push_each extra_outputs msg (push_to primary_out msg queues)

  -- `for (const auto& crack : msg.cracks) { ... out->push(...); }`
  unfoldable pub push_results :
      {C : Type 0} → Option ℕ → (C → T) → List C → (ℕ → List T) → ℕ → List T
  push_results out result [] queues = queues
  push_results out result (crack ∷ cracks) queues =
      push_results out result cracks (push_to out (result crack) queues)

  push_to_lem :
      (q : Option ℕ) (msg : T) (queues : ℕ → List T) (k : ℕ)
      → push_to q msg queues k ≡ queues k ++ replicate (points_to k q) msg
  push_to_lem none msg queues k = sym (append-nil (queues k))
  push_to_lem (some q) msg queues k = elim (ℕ_discrete q k) [
    | yes e ↦ ground (arith, e)
    | no d ↦ ground (arith, d, append-nil (queues k))
  ]

  replicate-add : (m n : ℕ) (msg : T) → replicate m msg ++ replicate n msg ≡ replicate (m + n) msg
  replicate-add zero n msg = ground arith
  replicate-add (suc m) n msg =
      let e : suc m + n ≡ suc (m + n) = omega arith in rw e (ap (◌∷◌ msg) (replicate-add m n msg))

  push_each_lem :
      (extra_outputs : List (Option ℕ)) (msg : T) (queues : ℕ → List T) (k : ℕ)
      → push_each extra_outputs msg queues k
        ≡ queues k ++ replicate (count_pointers k extra_outputs) msg
  unfolding push_each
  push_each_lem [] msg queues k = sym (append-nil (queues k))
  push_each_lem (q ∷ extra_outputs) msg queues k =
      rw
        (
          push_each_lem extra_outputs msg (push_to q msg queues) k,
          push_to_lem q msg queues k,
          ← replicate-add (points_to k q) (count_pointers k extra_outputs) msg,
        )
        (append_assoc (queues k) (replicate (points_to k q) msg) _)

  -- A fan-out adds the message at the end of every queue that one of its pointers names, once for each
  -- such pointer, and leaves every other queue as it is. Null pointers are passed over.
  pub fan_out_lem :
      (primary_out : Option ℕ) (extra_outputs : List (Option ℕ)) (msg : T) (queues : ℕ → List T)
      (k : ℕ)
      → fan_out primary_out extra_outputs msg queues k
        ≡ queues k ++ replicate (count_pointers k (primary_out ∷ extra_outputs)) msg
  unfolding fan_out
  fan_out_lem primary_out extra_outputs msg queues k =
      push_each_lem (primary_out ∷ extra_outputs) msg queues k
