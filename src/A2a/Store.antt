-- ===== src/A2a/Store.antt =====
-- agents/go/a2aserver/taskstore.go: Create, Update and Get. The caller is the owner that the
-- authenticator names, or `none` where it fails.
pub mod Cases
pub mod Versions
pub mod Reads
use agentops_open_course.Prelude.{
  eq_ℤ, ℕ, ◌==◌, Bool, true, false, not, ◌&&◌, ◌||◌, List, [], ◌∷◌, ◌++◌, Option, none, some,
  if◌then◌else◌, Text, ℤ, pos, inc_int64,
}
use agentops_open_course.A2a.Metadata.{Task, Check, accepted, validate_task}
use agentops_open_course.A2a.Tasks.{
  TaskRow, Tasks, look_up, insert, update, affected, World, Codec, Error, task_already_exists,
  task_not_found, concurrent_modification, auth_failed, invalid_metadata, no_task, not_encoded,
  not_decoded, wrong_count, Result, ok, err, ◌>>=◌, ◌>>◌, call, guard, in_write_transaction,
  has_task, select_task, update_task, tasks_affected,
}

abbrev pub check_metadata : Option Task → Result (Unit {0})
check_metadata task = elim (validate_task task) [ accepted ↦ ok tt | _ ↦ err invalid_metadata ]

abbrev pub required {ℓ} : {A : Type ℓ} → Option A → Error → Result A
required none e = err e
required (some a) e = ok a

-- `TaskVersionMissing`.
abbrev pub version_missing : ℤ
version_missing = pos 0

abbrev pub new_row : World → Task → Text → Text → TaskRow
new_row w task owner encoded = record {
  id = task.id;
  context_id = task.context_id;
  owner = owner;
  tenant = w.tenant;
  state = task.state;
  version = pos 1;
  last_updated = w.now;
  status_timestamp = task.timestamp;
  document = encoded;
}

unfoldable pub create_tx : World → Task → Text → Text → Tasks → Result (ℤ × Tasks)
unfolding has_task
create_tx w task owner encoded db = do
  call w look_up
  guard (not (has_task task.id db)) task_already_exists
  call w insert
  ok (pos 1, db ++ new_row w task owner encoded ∷ [])

-- The steps before the transaction: the task, its owner and its encoding.
unfoldable pub create_request : Codec → Option Text → Option Task → Result (Task × Text × Text)
create_request codec caller task = do
  check_metadata task
  t ← required task no_task
  owner ← required caller auth_failed
  encoded ← required (codec.encode t) not_encoded
  ok (t, owner, encoded)

unfoldable pub create : Codec → World → Option Text → Option Task → Tasks → Result ℤ × Tasks
unfolding create_request create_tx in_write_transaction
create codec w caller task db = elim (create_request codec caller task) [
  | err e ↦ (err e, db)
  | ok (t, owner, encoded) ↦ in_write_transaction w (create_tx w t owner encoded) db
]

-- Whether the version that the caller has seen, if it tracks versions, is the one that is stored.
abbrev pub is_current : ℤ → ℤ → Bool
is_current prev stored = eq_ℤ prev version_missing || eq_ℤ stored prev

unfoldable pub update_tx : World → Task → ℤ → Text → Text → Tasks → Result (ℤ × Tasks)
unfolding select_task update_task tasks_affected
update_tx w task prev owner encoded db = do
  call w look_up
  row ← required (select_task task.id owner db) task_not_found
  guard (is_current prev row.version) concurrent_modification
  call w update
  call w affected
  let n = tasks_affected task.id owner row.version db
  guard (n == 1) (wrong_count n)
  ok (
    inc_int64 row.version,
    update_task w task owner row.version (inc_int64 row.version) encoded db,
  )

unfoldable pub update_request : Codec → Option Text → Option Task → Result (Task × Text × Text)
update_request codec caller task = do
  t ← required task no_task
  check_metadata task
  owner ← required caller auth_failed
  encoded ← required (codec.encode t) not_encoded
  ok (t, owner, encoded)

-- `Update`, with the task and the previous version of its request.
unfoldable pub update_store :
    Codec → World → Option Text → Option Task → ℤ → Tasks → Result ℤ × Tasks
unfolding update_request update_tx in_write_transaction
update_store codec w caller task prev db = elim (update_request codec caller task) [
  | err e ↦ (err e, db)
  | ok (t, owner, encoded) ↦ in_write_transaction w (update_tx w t prev owner encoded) db
]

-- The task, its version and its owner.
unfoldable pub get : Codec → World → Option Text → Text → Tasks → Result (Task × ℤ × Text)
unfolding select_task
get codec w caller id db = do
  owner ← required caller auth_failed
  call w look_up
  row ← required (select_task id owner db) task_not_found
  task ← required (codec.decode row.document) not_decoded
  ok (task, row.version, owner)
