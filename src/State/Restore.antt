-- ===== src/State/Restore.antt =====
-- agents/go/state/restore.go: one restore, as a transaction. The snapshot has been validated; of an
-- entry of its manifest, the fields that a restore reads are those of a file's evidence. A panic takes
-- the way of an error. The test seam `BeforePublish` is a step that may fail.
use agentops_open_course.Prelude.{
  ◌==◌, not, Bool, false, ◌&&◌, [], ◌∷◌, Option, none, some, if◌then◌else◌, Text, text_eq, length,
}
use agentops_open_course.State.Maps.{lookup, put}
use agentops_open_course.State.Disk.{
  move_file, file_in, Files, Inventory, RestorePhase, prepared, rolling_back, committed,
  RestoreJournal, Problem, io_failed, Outcome, returned, raised, M, ◌>>=◌, ◌>>◌, return, raise,
  raise_if, gets, demand, io, in_live, in_staging, in_quarantine, read_place, write_place,
  fsync_dir, remove_all, Digest, matches_evidence,
}
use agentops_open_course.State.Journal.{Written, write_restore_journal}
use agentops_open_course.State.Evidence.{
  first_problem, validate_rollback_evidence, assert_exact_live_inventory,
}
use agentops_open_course.State.Rollback.{
  set_restore_phase, cleanup_restore_transaction, rollback_restore,
}
use agentops_open_course.State.Recovery.{recover_restore_locked}
use agentops_open_course.State.Journal.{new_restore_journal}
use agentops_open_course.State.Disk.{
  already_exists, staged_changed, attempt, crashed, make_directory, evidence_of, inventory_of,
}
use agentops_open_course.Prelude.{codes, ◌-◌, drop}

-- `strings.HasPrefix(name, ".")` and `strings.HasSuffix(name, ".db")`.
abbrev is_hidden : Text → Bool
is_hidden [] = false
is_hidden (c ∷ name) = c == b'.'

abbrev pub is_database_name : Text → Bool
is_database_name name = not (is_hidden name) && text_eq (drop (length name - 3) name) (codes ".db")

abbrev pub database_files : Files → Files
database_files [] = []
database_files ((name, c) ∷ fs) =
    let rest = database_files fs in if is_database_name name then (name, c) ∷ rest else rest

-- The copy is made, then filled, then flushed.
unfoldable pub copy_file_contents : Files → Text → Text → M (Unit {0})
unfolding io read_place write_place fsync_dir
copy_file_contents snapshot t name m s = elim (lookup name snapshot) [
  | none ↦ raised io_failed m s
  | some c ↦ elim (read_place (in_staging t) m) [
    | none ↦ raised io_failed m s
    | some fs ↦ elim (lookup name fs) [
      | some other ↦ raised already_exists m s
      | none ↦
          (do
            io (write_place (in_staging t) (put name [] fs))
            io (write_place (in_staging t) (put name c fs))
            fsync_dir)
            m s
    ]
  ]
]

unfoldable pub quarantine_current_generation : Text → Files → M (Unit {0})
quarantine_current_generation t [] = return tt
quarantine_current_generation t ((name, c) ∷ current) = do
  move_file in_live (in_quarantine t) name
  quarantine_current_generation t current

-- The first step of a round is `BeforePublish`.
unfoldable pub publish_databases : Text → Files → M (Unit {0})
publish_databases t [] = return tt
publish_databases t ((name, c) ∷ staged) = do
  io (λ m. m)
  move_file (in_staging t) in_live name
  publish_databases t staged

unfoldable pub publish_staged_databases : Text → M (Unit {0})
publish_staged_databases t m s = elim (read_place (in_staging t) m) [
  | none ↦ raised io_failed m s
  | some fs ↦ publish_databases t (database_files fs) m s
]

abbrev hold : Option RestoreJournal → M (Unit {0})
hold j m s = returned tt (record m { held = j }) s

-- The directories of a transaction with no journal: each removal is tried.
unfoldable pub discard_directories : Text → M (Unit {0})
discard_directories t = do
  a ← attempt (remove_all (in_staging t))
  b ← attempt (remove_all (in_quarantine t))
  c ← attempt fsync_dir
  raise_if (first_problem a (first_problem b c))

-- The first error stays the error, whatever comes of the clean-up.
unfoldable pub rethrow {ℓ} : {A : Type ℓ} → Problem → Outcome (Unit {0}) → Outcome A
rethrow e (returned a m s) = raised e m s
rethrow e (raised other m s) = raised e m s
rethrow e (crashed m) = crashed m

module _ ⦃digest : Digest⦄ where
  unfoldable pub stage_generation : Files → Text → Inventory → M Inventory
  stage_generation snapshot t [] = do fsync_dir; return []
  stage_generation snapshot t (entry ∷ entries) = do
    copy_file_contents snapshot t entry.filename
    copied ← gets (λ m. file_in (read_place (in_staging t) m) entry.filename)
    elim copied [
      | none ↦ raise io_failed
      | some c ↦
          if matches_evidence (some c) entry
          then (do
            published ← stage_generation snapshot t entries
            return (evidence_of entry.filename c ∷ published))
          else raise staged_changed
    ]

  unfoldable pub unwind_journal : RestorePhase → RestoreJournal → M (Unit {0})
  unwind_journal committed j = return tt
  unwind_journal prepared j = do
    set_restore_phase j rolling_back
    demand (validate_rollback_evidence j)
    rollback_restore j
  unwind_journal rolling_back j = do demand (validate_rollback_evidence j); rollback_restore j

  unfoldable pub unwind_restore : Text → M (Unit {0})
  unwind_restore t m s = elim m.held [
    | none ↦ discard_directories t m s
    | some j ↦ unwind_journal j.phase j m s
  ]

  -- The function that `publishRestore` defers.
  unfoldable pub unwinding : Text → Outcome (Unit {0}) → Outcome (Unit {0})
  unwinding t (returned a m s) = returned a m s
  unwinding t (raised e m s) = rethrow e (unwind_restore t m s)
  unwinding t (crashed m) = crashed m

  -- Once the journal has its name.
  unfoldable pub publish_generation : Text → RestoreJournal → Files → M (Unit {0})
  publish_generation t j current = do
    quarantine_current_generation t current
    publish_staged_databases t
    demand (assert_exact_live_inventory j.new)
    set_restore_phase j committed
    cleanup_restore_transaction j

  unfoldable pub publish_recorded : Text → RestoreJournal → Files → Written → M (Unit {0})
  publish_recorded t j current w = do
    if w.published then hold (some j) else return tt
    raise_if w.err
    publish_generation t j current

  unfoldable pub publish_prepared : Text → RestoreJournal → Files → M (Unit {0})
  publish_prepared t j current = do w ← write_restore_journal j; publish_recorded t j current w

  unfoldable pub publish_body : Files → Text → Inventory → M (Unit {0})
  publish_body snapshot t entries = do
    make_directory (in_quarantine t)
    fsync_dir
    published ← stage_generation snapshot t entries
    current ← gets (λ m. m.live)
    publish_prepared t (new_restore_journal t (inventory_of current) published) current

  unfoldable pub publish_restore : Files → Text → Inventory → M (Unit {0})
  publish_restore snapshot t entries = do
    make_directory (in_staging t)
    hold none
    λ m s. unwinding t (publish_body snapshot t entries m s)

  -- `RestoreState` after the validation of the snapshot, without the lock and the log.
  unfoldable pub restore_state : Files → Text → Inventory → M (Unit {0})
  restore_state snapshot t entries = do
    recover_restore_locked
    recover_restore_locked
    publish_restore snapshot t entries
