-- ===== src/State/Tests.antt =====
-- A restore of two databases over one with its log, and what interrupts it.
use agentops_open_course.State.Safety.Install.{
  InstallsFrom, installed-InstallsFrom, quarantined-InstallsFrom, quarantined-QuarantinesFrom,
}
use agentops_open_course.State.Safety.Publish.{publish_restore-Ends, owed, owed-QuarantinesFrom}
use agentops_open_course.State.Safety.Commit.{failed_commit}
use agentops_open_course.State.Safety.Unwind.{Interrupted}
use agentops_open_course.State.Restore.{
  is_database_name, publish_generation, publish_recorded, unwinding,
}
use agentops_open_course.State.Safety.Invariant.{journal_at}
use agentops_open_course.State.Disk.{after, committed, io_failed}
use agentops_open_course.State.Rollback.{set_restore_phase, cleanup_restore_transaction}
use agentops_open_course.Prelude.{All, true}
use agentops_open_course.State.Restore.{
  discard_directories, publish_staged_databases, rethrow, unwind_journal, unwind_restore, unwinding,
}
use agentops_open_course.State.Safety.Invariant.{
  IsClean, Recoverable, Transaction, old_generation, recorded,
}
use agentops_open_course.State.Rollback.{
  cleanup_restore_transaction, discard_owned_journal_temporary, ensure_quarantine,
  quarantine_old_generation, quarantine_one, reinstate_old_generation, reinstate_one,
  remove_journal, remove_one, remove_published_generation, rollback_restore, set_restore_phase,
}
use agentops_open_course.State.Disk.{
  attempt, drop_place, find, fsync_dir, io, make_directory, move_file, prepared, read_place,
  remove_all, remove_entries, remove_file, rename_file, write_place,
}
use agentops_open_course.State.Journal.{
  create_temporary, publish_temporary, remove_temporary, write_and_sync, write_created,
  write_restore_journal,
}
use agentops_open_course.State.Safety.Convergence.{machine_after}
use agentops_open_course.State.Logic.{Ends, View, machine}
use agentops_open_course.State.Recovery.{
  adopt_candidate, adopt_initial_restore_journal, recover_committed, recover_journal, resume,
}
use agentops_open_course.State.Evidence.{
  all_live, assert_exact_live_inventory, matched_in, named_in, require_complete_generation,
  residue_problem, validate_forward_evidence, validate_live_subset, validate_residue,
  validate_rollback_evidence,
}
use agentops_open_course.State.Safety.Inventories.{inventory_of-Records}
use agentops_open_course.Prelude.{
  ◌≡◌, refl, ℕ, zero, suc, List, [], ◌∷◌, none, some, Text, codes, text_eq,
}
use agentops_open_course.State.Maps.{lookup, put, erase}
use agentops_open_course.State.Disk.{
  Files, Machine, Event, proceeds, fails, crashes, Outcome, returned, raised, crashed, Digest,
  inventory_of,
}
use agentops_open_course.State.Restore.{
  publish_databases, quarantine_current_generation, copy_file_contents, stage_generation,
  publish_prepared, publish_body, publish_restore,
}
use agentops_open_course.State.Recovery.{recover_restore_locked}

-- A hash for the tests: a text is its own.
instance abbrev identity_digest : Digest
identity_digest = record { hash = λ c. c }

abbrev old_files : Files
old_files = (codes "audit.db", 1 ∷ []) ∷ (codes "audit.db-wal", 2 ∷ 2 ∷ []) ∷ []

abbrev new_files : Files
new_files = (codes "audit.db", 3 ∷ []) ∷ (codes "notes.db", 4 ∷ []) ∷ []

abbrev before : Machine
before = record {
  live = old_files;
  staging = [];
  quarantine = [];
  temporary = [];
  journal = none;
  held = none;
}

abbrev repeat : ℕ → Event → List Event → List Event
repeat zero e s = s
repeat (suc n) e s = e ∷ repeat n e s

abbrev live_after : Outcome (Unit {0}) → Files
live_after (returned a m s) = m.live
live_after (raised e m s) = m.live
live_after (crashed m) = m.live

abbrev tx : Text
tx = codes "t"

-- With no fault, the snapshot is live; when the process dies with half of it live, recovery brings
-- the old files back.
runs :
    (live_after (publish_restore new_files tx (inventory_of new_files) before []) ≡ new_files)
    × (live_after (
          recover_restore_locked
            (machine_after (
              publish_restore new_files tx
                (inventory_of new_files)
                before
                (repeat 26 proceeds (crashes ∷ []))))
            [])
        ≡ old_files)
unfolding publish_restore publish_body publish_recorded publish_generation publish_prepared
    stage_generation copy_file_contents inventory_of quarantine_current_generation publish_databases
    publish_staged_databases unwinding rethrow unwind_restore unwind_journal discard_directories
    write_restore_journal write_created create_temporary write_and_sync publish_temporary
    remove_temporary attempt io fsync_dir read_place write_place drop_place make_directory
    rename_file move_file remove_file remove_entries remove_all set_restore_phase
    discard_owned_journal_temporary cleanup_restore_transaction remove_journal
    assert_exact_live_inventory all_live recover_restore_locked recover_journal resume
    adopt_initial_restore_journal adopt_candidate validate_residue residue_problem
    validate_live_subset named_in matched_in require_complete_generation validate_forward_evidence
    validate_rollback_evidence rollback_restore ensure_quarantine quarantine_one
    quarantine_old_generation remove_one remove_published_generation reinstate_one
    reinstate_old_generation recover_committed find lookup put erase text_eq
runs = (refl, refl)

abbrev upgrade : Transaction
upgrade = record {
  id = tx;
  old_files = old_files;
  new_files = new_files;
  old_sorted = ((refl, tt), (tt, tt));
  new_sorted = ((refl, tt), (tt, tt));
  old_inventory = inventory_of old_files;
  new_inventory = inventory_of new_files;
  old_records = inventory_of-Records old_files ((refl, tt), (tt, tt));
  new_records = inventory_of-Records new_files ((refl, tt), (tt, tt));
}

-- The journal is complete under its temporary name.
abbrev unnamed : View
unnamed = record {
  live = old_files;
  staging = some new_files;
  quarantine = some [];
  temporary = recorded upgrade prepared;
  journal = none;
  held = none;
}

abbrev clean : View
clean = record {
  live = old_files;
  staging = none;
  quarantine = none;
  temporary = none;
  journal = none;
  held = none;
}

database_names : All (λ f. is_database_name f.0 ≡ true) new_files
unfolding text_eq
database_names = (refl, (refl, tt))

publish_restore-Ends_example :
    Ends tx
      (λ _. IsClean new_files)
      (Interrupted upgrade)
      (repeat 26 proceeds (crashes ∷ []))
      (publish_restore new_files tx
        (inventory_of new_files)
        (machine tx clean)
        (repeat 26 proceeds (crashes ∷ [])))
publish_restore-Ends_example =
    publish_restore-Ends upgrade clean (repeat 26 proceeds (crashes ∷ []))
      (record { live = refl; staging = refl; quarantine = refl; temporary = refl; journal = refl })
      refl database_names

abbrev quarantined_one : View
quarantined_one = record (owed upgrade) {
  live = erase (codes "audit.db") old_files;
  quarantine = some (put (codes "audit.db") (1 ∷ []) []);
}

abbrev quarantined_all : View
quarantined_all = record quarantined_one {
  live = erase (codes "audit.db-wal") quarantined_one.live;
  quarantine = some (put (codes "audit.db-wal") (2 ∷ 2 ∷ []) (put (codes "audit.db") (1 ∷ []) []));
}

abbrev installed_one : View
installed_one = record quarantined_all {
  live = put (codes "audit.db") (3 ∷ []) quarantined_all.live;
  staging = some (erase (codes "audit.db") new_files);
}

abbrev installed_all : View
installed_all = record installed_one {
  live = put (codes "notes.db") (4 ∷ []) installed_one.live;
  staging = some (erase (codes "notes.db") (erase (codes "audit.db") new_files));
}

installed_all-InstallsFrom : InstallsFrom upgrade [] installed_all
unfolding lookup text_eq
installed_all-InstallsFrom =
    installed-InstallsFrom upgrade (codes "notes.db") (4 ∷ []) [] installed_one refl (
      installed-InstallsFrom upgrade (codes "audit.db") (3 ∷ []) ((codes "notes.db", 4 ∷ []) ∷ [])
        quarantined_all refl
        (quarantined-InstallsFrom upgrade quarantined_all (
          quarantined-QuarantinesFrom upgrade (codes "audit.db-wal") (2 ∷ 2 ∷ []) [] quarantined_one
            refl
            (quarantined-QuarantinesFrom upgrade (codes "audit.db") (1 ∷ [])
              ((codes "audit.db-wal", 2 ∷ 2 ∷ []) ∷ []) (owed upgrade) refl
              (owed-QuarantinesFrom upgrade)))))

failed_commit_example :
    (unwinding tx (
        after
          (set_restore_phase
            (journal_at upgrade prepared)
            committed
            (machine tx installed_all)
            (fails ∷ []))
          (λ _. cleanup_restore_transaction (journal_at upgrade prepared)))
      ≡ raised io_failed
          (machine tx (record installed_all { held = some (journal_at upgrade committed) }))
          [])
    × (installed_all.live ≡ new_files)
    × (installed_all.journal ≡ recorded upgrade prepared)
    × Recoverable upgrade old_generation
        (record installed_all { held = some (journal_at upgrade committed) })
failed_commit_example = failed_commit upgrade installed_all [] installed_all-InstallsFrom refl
