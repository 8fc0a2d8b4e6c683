-- ===== src/State/Safety/Commit.antt =====
-- A commit that is refused.
use agentops_open_course.Prelude.{◌≡◌, refl, List, [], ◌∷◌, none, some}
use agentops_open_course.State.Maps.{lookup}
use agentops_open_course.State.Disk.{
  Digest, prepared, committed, fails, Event, io_failed, raised, after, attempt, io,
}
use agentops_open_course.State.Journal.{create_temporary, write_restore_journal}
use agentops_open_course.State.Rollback.{
  discard_owned_journal_temporary, set_restore_phase, cleanup_restore_transaction,
}
use agentops_open_course.State.Restore.{rethrow, unwind_journal, unwind_restore, unwinding}
use agentops_open_course.State.Logic.{View, machine}
use agentops_open_course.State.Safety.Invariant.{
  Transaction, Recoverable, is_prepared, old_generation, journal_at, recorded,
}
use agentops_open_course.State.Safety.Recover.{IsPrepared-with}
use agentops_open_course.State.Safety.Install.{InstallsFrom, installed_files}

module _ ⦃digest : Digest⦄ (x : Transaction) where
  abbrev believed : View → View
  believed v = record v { held = some (journal_at x committed) }

  refused :
      (v : View) (s : List Event)
      → v.temporary ≡ none
      → unwinding x.id (
          after
            (set_restore_phase (journal_at x prepared) committed (machine x.id v) (fails ∷ s))
            (λ _. cleanup_restore_transaction (journal_at x prepared)))
        ≡ raised io_failed (machine x.id (believed v)) s
  unfolding set_restore_phase discard_owned_journal_temporary write_restore_journal create_temporary
      attempt io unwinding rethrow unwind_restore unwind_journal lookup
  refused v s e = rw e refl

  -- When all of the new generation is live and the temporary of the journal cannot be created for the
  -- commit, a restore returns that error and rolls nothing back: the new generation stays live, under
  -- a journal that says `prepared`, from which recovery takes the directory to the old generation.
  pub failed_commit :
      (v : View) (s : List Event)
      → InstallsFrom x [] v
      → v.temporary ≡ none
      → (unwinding x.id (
            after
              (set_restore_phase (journal_at x prepared) committed (machine x.id v) (fails ∷ s))
              (λ _. cleanup_restore_transaction (journal_at x prepared)))
          ≡ raised io_failed (machine x.id (believed v)) s)
        × (v.live ≡ x.new_files)
        × (v.journal ≡ recorded x prepared)
        × Recoverable x old_generation (believed v)
  failed_commit v s p e =
      let i = p.owing.is_prepared in
      (
        refused v s e,
        installed_files x v p,
        i.journal,
        is_prepared (IsPrepared-with x v v.temporary (some (journal_at x committed)) i),
      )
