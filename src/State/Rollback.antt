-- ===== src/State/Rollback.antt =====
-- agents/go/state/recovery.go: the change of phase, the clean-up of a transaction that is over, and the
-- rollback to the old generation.
use agentops_open_course.Prelude.{[], ◌∷◌, none, some, if◌then◌else◌, Text}
use agentops_open_course.State.Maps.{lookup}
use agentops_open_course.State.Disk.{
  FileEvidence, return, file_in, move_file, Files, Inventory, find, RestorePhase, RestoreJournal,
  io_failed, lost_old, unexplained_replacement, returned, raised, M, ◌>>=◌, ◌>>◌, raise_if, gets,
  demand, io, in_live, in_staging, in_quarantine, read_place, write_place, fsync_dir, remove_file,
  remove_all, Digest, matches_evidence,
}
use agentops_open_course.State.Journal.{write_restore_journal, remove_temporary}
use agentops_open_course.State.Evidence.{require_evidence, assert_exact_live_inventory}

unfoldable pub discard_owned_journal_temporary : RestoreJournal → M (Unit {0})
discard_owned_journal_temporary j m s = elim (lookup j.transaction m.temporary) [
  | none ↦ returned tt m s
  | some file ↦ (do remove_temporary j.transaction; fsync_dir) m s
]

-- The removal of the journal, which has to be there.
unfoldable pub remove_journal : M (Unit {0})
unfolding io
remove_journal m s = elim m.journal [
  | none ↦ raised io_failed m s
  | some file ↦ io (λ k. record k { journal = none }) m s
]

unfoldable pub cleanup_restore_transaction : RestoreJournal → M (Unit {0})
cleanup_restore_transaction j = do
  remove_all (in_staging j.transaction)
  remove_all (in_quarantine j.transaction)
  remove_temporary j.transaction
  fsync_dir
  remove_journal
  fsync_dir

-- `os.Mkdir`, where it is no error that the directory exists.
unfoldable pub ensure_quarantine : Text → M (Unit {0})
unfolding io read_place write_place
ensure_quarantine t m s = elim (read_place (in_quarantine t) m) [
  | none ↦ io (write_place (in_quarantine t) []) m s
  | some fs ↦ returned tt m s
]

module _ ⦃digest : Digest⦄ where
  -- The variable that `journal` points to is `held`.
  unfoldable pub set_restore_phase : RestoreJournal → RestorePhase → M (Unit {0})
  set_restore_phase j phase = do
    discard_owned_journal_temporary j
    let j' = record j { phase = phase }
    λ m s. returned tt (record m { held = some j' }) s
    w ← write_restore_journal j'
    raise_if w.err

  -- `live` is the listing that the loop was given.
  unfoldable pub quarantine_one : Text → Files → FileEvidence → M (Unit {0})
  unfolding move_file read_place
  quarantine_one t live e m s = elim (file_in (read_place (in_quarantine t) m) e.filename) [
    | some c ↦ require_evidence (some c) e m s
    | none ↦ elim (lookup e.filename live) [
      | none ↦ raised lost_old m s
      | some c ↦
          (do
            require_evidence (lookup e.filename m.live) e
            move_file in_live (in_quarantine t) e.filename)
            m s
    ]
  ]

  unfoldable pub quarantine_old_generation : Text → Files → Inventory → M (Unit {0})
  quarantine_old_generation t live [] = return tt
  quarantine_old_generation t live (e ∷ old) = do
    quarantine_one t live e
    quarantine_old_generation t live old

  unfoldable pub remove_one : Inventory → Text → M (Unit {0})
  unfolding remove_file fsync_dir find
  remove_one new name m s = elim (find name new) [
    | none ↦ raised unexplained_replacement m s
    | some e ↦
        if matches_evidence (lookup name m.live) e
        then (do remove_file in_live name; fsync_dir) m s
        else raised unexplained_replacement m s
  ]

  unfoldable pub remove_published_generation : Inventory → Files → M (Unit {0})
  remove_published_generation new [] = return tt
  remove_published_generation new ((name, c) ∷ files) = do
    remove_one new name
    remove_published_generation new files

  unfoldable pub reinstate_one : Text → FileEvidence → M (Unit {0})
  unfolding move_file read_place
  reinstate_one t e m s =
      (do
        require_evidence (file_in (read_place (in_quarantine t) m) e.filename) e
        move_file (in_quarantine t) in_live e.filename)
        m s

  unfoldable pub reinstate_old_generation : Text → Inventory → M (Unit {0})
  reinstate_old_generation t [] = return tt
  reinstate_old_generation t (e ∷ old) = do reinstate_one t e; reinstate_old_generation t old

  unfoldable pub rollback_restore : RestoreJournal → M (Unit {0})
  rollback_restore j = do
    ensure_quarantine j.transaction
    fsync_dir
    listed ← gets (λ m. m.live)
    quarantine_old_generation j.transaction listed j.old
    remaining ← gets (λ m. m.live)
    remove_published_generation j.new remaining
    reinstate_old_generation j.transaction j.old
    demand (assert_exact_live_inventory j.old)
    cleanup_restore_transaction j
