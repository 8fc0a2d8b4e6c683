-- ===== src/A2a/Tasks.antt =====
-- agents/go/a2aserver/taskstore.go and sqlite.go: the table of tasks, the SQL statements on it, and
-- the transaction that each runs in. `World` says which calls of the engine fail; the encoding of a
-- task is a parameter. Rollback always succeeds; no panics.
use agentops_open_course.Prelude.{
  eq_ℤ, ℕ, ◌+◌, Bool, true, false, ◌&&◌, ◌||◌, List, [], ◌∷◌, Option, none, some, if◌then◌else◌,
  Text, text_eq, ℤ,
}
use agentops_open_course.A2a.Metadata.{Task}

pub record TaskRow : Type 0 where
  pub id : Text
  pub context_id : Text
  pub owner : Text
  pub tenant : Text
  pub state : Text
  pub version : ℤ
  pub last_updated : ℤ
  pub status_timestamp : Option ℤ
  pub document : Text

abbrev pub Tasks : Type 0
Tasks = List TaskRow

pub data Point : Type 0 where
  begin look_up insert update affected count page scan read commit : Point

-- The engine, and the clock and tenant of a call.
pub record World : Type 0 where
  pub fails : Point → Bool
  pub now : ℤ
  pub tenant : Text

-- `json.Marshal` and `json.Unmarshal` on tasks.
pub record Codec : Type 0 where
  pub encode : Task → Option Text
  pub decode : Text → Option Task

pub data Error : Type 0 where
  task_already_exists task_not_found concurrent_modification unauthenticated : Error
  invalid_request parse_error auth_failed invalid_metadata no_task no_request not_encoded
        not_decoded :
      Error
  store_failed : Point → Error
  wrong_count : ℕ → Error

pub data Result {ℓ} (A : Type ℓ) : Type ℓ where
  ok : A → Result A
  err : Error → Result A

module _ {ℓ} {B : Type ℓ} where
  infixl 5 ◌>>=◌ ◌>>◌
  abbrev pub ◌>>=◌ {κ} : {A : Type κ} → Result A → (A → Result B) → Result B
  err e >>= f = err e
  ok a >>= f = f a

  abbrev pub ◌>>◌ : Result (Unit {0}) → Result B → Result B
  err e >> k = err e
  ok u >> k = k

abbrev pub call : World → Point → Result (Unit {0})
call w p = if w.fails p then err (store_failed p) else ok tt

abbrev pub guard : Bool → Error → Result (Unit {0})
guard true e = ok tt
guard false e = err e

-- The changes of a body that returns nil are kept by the commit; nothing else is.
unfoldable pub in_write_transaction {ℓ} :
    {A : Type ℓ} → World → (Tasks → Result (A × Tasks)) → Tasks → Result A × Tasks
in_write_transaction w body db =
    if w.fails begin then (err (store_failed begin), db) else elim (body db) [
      | err e ↦ (err e, db)
      | ok (a, db') ↦ if w.fails commit then (err (store_failed commit), db) else (ok a, db')
    ]

-- `SELECT 1 FROM tasks WHERE id = ?`.
unfoldable pub has_task : Text → Tasks → Bool
has_task id [] = false
has_task id (row ∷ rows) = text_eq row.id id || has_task id rows

abbrev pub owned_row : Text → Text → TaskRow → Bool
owned_row id owner row = text_eq row.id id && text_eq row.owner owner

-- `… FROM tasks WHERE id = ? AND owner = ?`; the id is the primary key.
unfoldable pub select_task : Text → Text → Tasks → Option TaskRow
select_task id owner [] = none
select_task id owner (row ∷ rows) =
    if owned_row id owner row then some row else select_task id owner rows

abbrev pub versioned_row : Text → Text → ℤ → TaskRow → Bool
versioned_row id owner version row = owned_row id owner row && eq_ℤ row.version version

abbrev pub set_row : World → Task → ℤ → Text → TaskRow → TaskRow
set_row w task next encoded row = record row {
  context_id = task.context_id;
  state = task.state;
  version = next;
  last_updated = w.now;
  status_timestamp = task.timestamp;
  document = encoded;
}

-- `UPDATE tasks SET … WHERE id = ? AND owner = ? AND version = ?`, and the rows affected.
unfoldable pub update_task : World → Task → Text → ℤ → ℤ → Text → Tasks → Tasks
update_task w task owner stored next encoded [] = []
update_task w task owner stored next encoded (row ∷ rows) =
    (if versioned_row task.id owner stored row then set_row w task next encoded row else row)
    ∷ update_task w task owner stored next encoded rows

unfoldable pub tasks_affected : Text → Text → ℤ → Tasks → ℕ
tasks_affected id owner stored [] = 0
tasks_affected id owner stored (row ∷ rows) =
    (if versioned_row id owner stored row then 1 else 0) + tasks_affected id owner stored rows
