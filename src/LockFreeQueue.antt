-- ===== src/LockFreeQueue.antt =====
-- backend/include/lockfree_queue.h: `LockFreeQueue<T>` as interleaved atomic steps of any number of
-- producers and consumers. A node is named by the place of its `tail_.exchange` in the order of these;
-- node 0 is the dummy of the constructor. Names are not used again after `delete`.
pub mod Invariant
pub mod Runs
pub mod Calls
pub mod Fifo
pub mod Sharing
use ai_solo_coder_task_a.Common.{pending}
use ai_solo_coder_task_a.Outcome.{Outcome, faulted, returned, ◌>>=◌}
use ai_solo_coder_task_a.Prelude.{
  Bool, List, Option, [], false, if◌then◌else◌, none, some, suc, true, ℕ, ◌&&◌, ◌++◌, ◌==◌, ◌∷◌,
}

-- Where a consumer stands in `try_pop`.
pub data Consumer : Type 0 where
  idle : Consumer
  -- `old_head` is loaded
  loaded : ℕ → Consumer
  -- `old_head->next` was not null
  chosen : ℕ → ℕ → Consumer
  -- the exchange of `head_` succeeded
  won : ℕ → ℕ → Consumer

abbrev pub update {ℓ} : {A : Type ℓ} → (ℕ → A) → ℕ → A → ℕ → A
update f i a j = if i == j then a else f j

module _ (T : Type 0) where
  -- `pending a` is the new node of the producer that took `a` from `tail_` and has yet to store the
  -- link. `pushed` and `popped` record the values in the order of the exchanges of `tail_` and of the
  -- moves into `out`.
  pub record Queue : Type 0 where
    pub head : ℕ
    pub tail : ℕ
    pub next : ℕ → Option ℕ
    pub value : ℕ → Option T
    pub alive : ℕ → Bool
    pub pending : ℕ → Option ℕ
    pub consumers : ℕ → Consumer
    pub pushed : List T
    pub popped : List T

  -- What one thread does in one atomic step; `retry` is a spurious failure of the weak exchange.
  pub data Action : Type 0 where
    exchange : T → Action
    link : ℕ → Action
    pop : ℕ → Action
    retry : ℕ → Action

module _ {T : Type 0} where
  -- The constructor.
  unfoldable pub make_queue : Queue T
  make_queue = record {
    head = 0;
    tail = 0;
    next = λ _. none;
    value = λ _. none;
    alive = update (λ _. false) 0 true;
    pending = λ _. none;
    consumers = λ _. idle;
    pushed = [];
    popped = [];
  }

  -- `push` up to `tail_.exchange`: a new node, and the old tail in hand.
  unfoldable pub exchange_tail : T → Queue T → Queue T
  exchange_tail v q =
      let node = suc q.tail in
      record q {
        tail = node;
        value = update q.value node (some v);
        alive = update q.alive node true;
        pending = update q.pending q.tail (some node);
        pushed = q.pushed ++ v ∷ [];
      }

  -- `old_tail->next.store(new_node)`
  unfoldable pub store_link : ℕ → Queue T → Outcome (Queue T)
  store_link old_tail q = elim (q.pending old_tail) [
    | none ↦ returned q
    | some node ↦
        if q.alive old_tail
        then returned (record q {
          next = update q.next old_tail (some node);
          pending = update q.pending old_tail none;
        })
        else faulted
  ]

  abbrev at_consumer : ℕ → Consumer → Queue T → Queue T
  at_consumer i c q = record q { consumers = update q.consumers i c }

  -- `out = std::move(next->value); delete old_head;`
  take_value : ℕ → ℕ → ℕ → Queue T → Outcome (Queue T)
  take_value i old_head node q = elim (q.value node) [
    | none ↦ faulted
    | some v ↦
        if q.alive node && q.alive old_head
        then returned (record q {
          value = update q.value node none;
          alive = update q.alive old_head false;
          consumers = update q.consumers i idle;
          popped = q.popped ++ v ∷ [];
        })
        else faulted
  ]

  -- The next atomic step of `try_pop` of consumer `i`.
  abbrev try_pop_step : ℕ → Consumer → Queue T → Outcome (Queue T)
  try_pop_step i idle q = returned (at_consumer i (loaded q.head) q)
  try_pop_step i (loaded old_head) q =
      if q.alive old_head
      then returned (
          at_consumer i (elim (q.next old_head) [ none ↦ idle | some node ↦ chosen old_head node ])
            q)
      else faulted
  try_pop_step i (chosen old_head node) q = returned (
      if q.head == old_head
      then at_consumer i (won old_head node) (record q { head = node })
      else at_consumer i (loaded q.head) q)
  try_pop_step i (won old_head node) q = take_value i old_head node q

  unfoldable pub try_pop : ℕ → Queue T → Outcome (Queue T)
  unfolding take_value
  try_pop i q = try_pop_step i (q.consumers i) q

  -- `empty()`
  unfoldable pub empty : Queue T → Outcome Bool
  empty q =
      if q.alive q.head
      then returned (elim (q.next q.head) [ none ↦ true | some _ ↦ false ])
      else faulted

  spurious : ℕ → Consumer → Queue T → Queue T
  spurious i (chosen old_head node) q = at_consumer i (loaded q.head) q
  spurious i _ q = q

  unfoldable pub act : Action T → Queue T → Outcome (Queue T)
  unfolding exchange_tail store_link try_pop spurious
  act (exchange v) q = returned (exchange_tail v q)
  act (link a) q = store_link a q
  act (pop i) q = try_pop i q
  act (retry i) q = returned (spurious i (q.consumers i) q)

  unfoldable pub run : List (Action T) → Queue T → Outcome (Queue T)
  unfolding act
  run [] q = returned q
  run (a ∷ actions) q = act a q >>= λ q'. run actions q'
