-- ===== src/Database.antt =====
-- backend/include/database.h and backend/src/database.cpp: the connection pool, the transactions, the
-- statements that write, and queries.
pub mod Statements
pub mod Inserts
pub mod Batches
pub mod Balance
pub mod Answers
pub mod Queries
use ai_solo_coder_task_a.Prelude.{
  Bool, List, Option, String, [], false, if◌then◌else◌, none, some, true, ℕ, ◌-◌, ◌^◌, ◌∷◌,
}

-- The status of a result: PGRES_COMMAND_OK, PGRES_TUPLES_OK, or any other.
pub data ExecStatus : Type 0 where
  command_ok tuples_ok failed : ExecStatus

pub record PgResult : Type 0 where
  pub status : ExecStatus
  pub rows : List (List String)

-- libpq, and the formatting that the statements use: `exec` is `PQexec` on a connection, `none` its null
-- result; `is_connected` is that `PQstatus` is CONNECTION_OK; `show_double` prints a `double` on a
-- stream, `fixed_double` is `std::to_string` of one, `show_time` the UTC time in seconds, `is_empty` and
-- `dump` are those of a JSON value, and `atoll` reads a 64-bit number. `dump` answers a text: the values
-- given to it are parsed or built from numbers and ASCII text, for which it throws no exception.
pub record Postgres : Type 1 where
  pub Server : Type 0
  pub exec : ℕ → String → Server → Option PgResult × Server
  pub is_connected : ℕ → Server → Bool
  pub Json : Type 0
  pub is_empty : Json → Bool
  pub dump : Json → String
  pub show_double : ℕ → String
  pub fixed_double : ℕ → String
  pub show_time : ℕ → String
  pub atoll : String → ℕ

unfoldable pub has_status : ExecStatus → PgResult → Bool
has_status command_ok result = elim result.status [
  | command_ok ↦ true
  | tuples_ok ↦ false
  | failed ↦ false
]
has_status tuples_ok result = elim result.status [
  | command_ok ↦ false
  | tuples_ok ↦ true
  | failed ↦ false
]
has_status failed result = elim result.status [
  | command_ok ↦ false
  | tuples_ok ↦ false
  | failed ↦ true
]

-- `res && PQresultStatus(res) == PGRES_COMMAND_OK`
unfoldable pub is_command_ok : Option PgResult → Bool
unfolding has_status
is_command_ok none = false
is_command_ok (some result) = has_status command_ok result

-- -1 as an `int64_t`.
abbrev pub minus_one : ℕ
minus_one = 2 ^ 64 - 1

module _ (pg : Postgres) where
  open pg use {Server, exec, is_connected, atoll}

  -- `DatabasePool`: the connections in `available_`, its back first, and the server behind them.
  pub record Database : Type 0 where
    pub available : List ℕ
    pub server : Server

  -- `begin_transaction`, `commit_transaction` and `rollback_transaction`, by their command.
  unfoldable pub transaction_command : String → ℕ → Server → Bool × Server
  unfolding is_command_ok
  transaction_command command conn server =
      let answer = exec conn command server in
      if is_connected conn server then (is_command_ok answer.0, answer.1) else (false, server)

  -- The id in the first field of the first row, where the statement returned one.
  first_field : List (List String) → Option ℕ
  first_field [] = none
  first_field ([] ∷ rows) = none
  first_field ((field ∷ fields) ∷ rows) = some (atoll field)

  unfoldable pub returned_id : Option PgResult → Option ℕ
  unfolding first_field has_status
  returned_id none = none
  returned_id (some result) = if has_status tuples_ok result then first_field result.rows else none

  -- `DatabasePool::acquire`, and the rest of an operation; `none` is the wait for a connection.
  unfoldable pub acquire : {A : Type 0} → (ℕ → Database → A) → Database → Option A
  acquire rest db = elim db.available [
    | [] ↦ none
    | conn ∷ available ↦ some (rest conn (record db { available = available }))
  ]

  -- `pool_->release(conn)`, and the return of an answer, where the server was left in a state.
  unfoldable pub release : {A : Type 0} → ℕ → Database → A × Server → A × Database
  release conn db done = (done.0, record { available = conn ∷ db.available; server = done.1 })
