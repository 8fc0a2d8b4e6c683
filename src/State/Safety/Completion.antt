-- ===== src/State/Safety/Completion.antt =====
-- The way of a restore from the journal to the end.
use agentops_open_course.Prelude.{◌≡◌, refl, List, [], some, All, true}
use agentops_open_course.State.Maps.{lookup}
use agentops_open_course.State.Disk.{Files, Digest, prepared, committed, document, Event, ◌>>◌}
use agentops_open_course.State.Rollback.{set_restore_phase, cleanup_restore_transaction}
use agentops_open_course.State.Restore.{publish_generation, is_database_name}
use agentops_open_course.State.Logic.{View, machine, Ends, then-Ends, step-Ends}
use agentops_open_course.State.Safety.Records.{assert_exact_live_inventory_lem}
use agentops_open_course.State.Safety.Invariant.{
  Transaction, new_generation, IsClean, IsCommitted, is_clean, is_committed, entries_of, journal_at,
}
use agentops_open_course.State.Safety.Cleanup.{cleanup-Ends}
use agentops_open_course.State.Safety.Checks.{quarantine_part}
use agentops_open_course.State.Safety.Phases.{set_restore_phase-Ends, in_phase}
use agentops_open_course.State.Safety.Recover.{IsPrepared-with}
use agentops_open_course.State.Safety.Unwind.{Publishing, owing, committing, settled}
use agentops_open_course.State.Safety.Install.{
  QuarantinesFrom, InstallsFrom, quarantine_current_generation-Ends, publish_staged_databases-Ends,
  quarantined-InstallsFrom, installed_files,
}

module _ ⦃digest : Digest⦄ (x : Transaction) where
  -- All is installed; what is left is the commit and the clean-up.
  commit-Ends :
      (v : View) (s : List Event)
      → InstallsFrom x [] v
      → Ends x.id
          (λ _. IsClean x.new_files)
          (Publishing x)
          s
          ((do
            set_restore_phase (journal_at x prepared) committed
            cleanup_restore_transaction (journal_at x prepared))
            (machine x.id v)
            s)
  unfolding lookup
  commit-Ends v s p =
      let i = p.owing.is_prepared in
      let w = in_phase v (journal_at x prepared) committed in
      let over : IsCommitted x w = record {
        journal = refl;
        live = installed_files x v p;
        staged = i.halfway.staged;
        quarantined =
            quarantine_part x v.live (entries_of v.staging) (entries_of v.quarantine) i.halfway;
        staging_sorted = i.halfway.staging_sorted;
        quarantine_sorted = i.halfway.quarantine_sorted;
      } in
      step-Ends _
        (set_restore_phase-Ends (journal_at x prepared) committed v
          (λ f. owing (IsPrepared-with x v f v.held i) p.owing.held)
          (λ f. committing (IsPrepared-with x v f (some (journal_at x committed)) i) refl)
          (settled (is_committed over) refl) s)
        λ s'.
          cleanup-Ends (journal_at x prepared) w (document (journal_at x committed)) x.new_files
            x.new_files x.old_files s' refl over.live (over.staging_sorted, over.staged)
            (over.quarantine_sorted, over.quarantined)
            (λ st q f (a, b) (c, d).
              settled
                (is_committed (record {
                  journal = refl;
                  live = over.live;
                  staged = b;
                  quarantined = d;
                  staging_sorted = a;
                  quarantine_sorted = c;
                }))
                refl)
            (λ c. settled (is_clean {g = new_generation} c) refl)

  -- The journal has its name.
  pub install-Ends :
      (current : Files) (v : View) (s : List Event)
      → All (λ f. is_database_name f.0 ≡ true) x.new_files
      → QuarantinesFrom x current v
      → Ends x.id
          (λ _. IsClean x.new_files)
          (Publishing x)
          s
          (publish_generation x.id (journal_at x prepared) current (machine x.id v) s)
  unfolding publish_generation
  install-Ends current v s a p =
      then-Ends _ (quarantine_current_generation-Ends x current v s p) λ _ w s1 q.
        then-Ends _ (publish_staged_databases-Ends x w s1 a (quarantined-InstallsFrom x w q))
          λ _ y s2 r.
            rw
              (assert_exact_live_inventory_lem x.new_records (machine x.id y)
                (installed_files x y r))
              (commit-Ends y s2 r)
