-- ===== src/State/Safety/Recover.antt =====
-- Recovery from every directory that a fault can leave.
use agentops_open_course.Prelude.{some, ◌≡◌, refl, List, Option, none}
use agentops_open_course.State.Disk.{
  Digest, prepared, rolling_back, committed, Event, JournalFile, RestoreJournal, document,
}
use agentops_open_course.State.Journal.{Artifact}
use agentops_open_course.State.Recovery.{
  require_owned_artifacts, recover_committed, resume, recover_journal,
}
use agentops_open_course.State.Logic.{View, machine, Ends, step-Ends}
use agentops_open_course.State.Logic.Temporaries.{with_temporary}
use agentops_open_course.State.Safety.Records.{assert_exact_live_inventory_lem}
use agentops_open_course.State.Safety.Invariant.{
  Transaction, old_generation, new_generation, IsClean, IsPrepared, IsRolling, IsCommitted,
  Recoverable, is_clean, is_prepared, is_rolling, is_committed, journal_at,
}
use agentops_open_course.State.Safety.Cleanup.{cleanup-Ends}
use agentops_open_course.State.Safety.Rollback.{rollback_restore-Ends}
use agentops_open_course.State.Safety.Checks.{
  staging_residue, quarantine_residue, validate_rollback_evidence_lem,
  validate_forward_evidence_lem,
}
use agentops_open_course.State.Safety.Phases.{
  discard_owned_journal_temporary-Ends, set_restore_phase-Ends, in_phase,
}

module _ ⦃digest : Digest⦄ (x : Transaction) where
  -- The invariants do not read the temporary and the variable of a running restore.
  pub IsPrepared-with :
      (v : View) (f : Option JournalFile) (h : Option RestoreJournal)
      → IsPrepared x v
      → IsPrepared x (record v { temporary = f; held = h })
  IsPrepared-with v f h i = record {
    journal = i.journal;
    staging = i.staging;
    quarantine = i.quarantine;
    halfway = i.halfway;
    complete = i.complete;
  }

  IsRolling-with :
      (v : View) (f : Option JournalFile) → IsRolling x v → IsRolling x (with_temporary v f)
  IsRolling-with v f i = record { journal = i.journal; halfway = i.halfway }

  IsCommitted-with :
      (v : View) (f : Option JournalFile) → IsCommitted x v → IsCommitted x (with_temporary v f)
  IsCommitted-with v f i = record {
    journal = i.journal;
    live = i.live;
    staged = i.staged;
    quarantined = i.quarantined;
    staging_sorted = i.staging_sorted;
    quarantine_sorted = i.quarantine_sorted;
  }

  pub recover_prepared-Ends :
      (artifacts : List Artifact) (v : View) (s : List Event)
      → require_owned_artifacts (journal_at x prepared) artifacts ≡ none
      → IsPrepared x v
      → Ends x.id
          (λ _. IsClean x.old_files)
          (Recoverable x old_generation)
          s
          (recover_journal (journal_at x prepared) artifacts (machine x.id v) s)
  unfolding recover_journal resume
  recover_prepared-Ends artifacts v s o i =
      let w = with_temporary v none in
      let iw = IsPrepared-with v none v.held i in
      let phased : IsRolling x (in_phase w (journal_at x prepared) rolling_back) = record {
        journal = refl;
        halfway = i.halfway;
      } in
      rw (o, recover_journal)
        (step-Ends _
          (discard_owned_journal_temporary-Ends (journal_at x prepared) v s (is_prepared i)
            (is_prepared iw))
          λ s1. rw (validate_forward_evidence_lem x w iw) (
            step-Ends _
              (set_restore_phase-Ends (journal_at x prepared) rolling_back w
                (λ f. is_prepared (IsPrepared-with v f v.held i))
                (λ f. is_prepared (IsPrepared-with v f (some (journal_at x rolling_back)) i))
                (is_rolling phased) s1)
              λ s2.
                rollback_restore-Ends x prepared (in_phase w (journal_at x prepared) rolling_back)
                  s2 phased))

  pub recover_rolling-Ends :
      (artifacts : List Artifact) (v : View) (s : List Event)
      → require_owned_artifacts (journal_at x rolling_back) artifacts ≡ none
      → IsRolling x v
      → Ends x.id
          (λ _. IsClean x.old_files)
          (Recoverable x old_generation)
          s
          (recover_journal (journal_at x rolling_back) artifacts (machine x.id v) s)
  unfolding recover_journal resume
  recover_rolling-Ends artifacts v s o i =
      let w = with_temporary v none in
      let iw = IsRolling-with v none i in
      rw (o, recover_journal)
        (step-Ends _
          (discard_owned_journal_temporary-Ends (journal_at x rolling_back) v s (is_rolling i)
            (is_rolling iw))
          λ s1.
            rw (validate_rollback_evidence_lem x w rolling_back iw.halfway)
              (rollback_restore-Ends x rolling_back w s1 iw))

  pub recover_committed-Ends :
      (artifacts : List Artifact) (v : View) (s : List Event)
      → require_owned_artifacts (journal_at x committed) artifacts ≡ none
      → IsCommitted x v
      → Ends x.id
          (λ _. IsClean x.new_files)
          (Recoverable x new_generation)
          s
          (recover_journal (journal_at x committed) artifacts (machine x.id v) s)
  unfolding recover_journal resume recover_committed
  recover_committed-Ends artifacts v s o i =
      let w = with_temporary v none in
      let iw = IsCommitted-with v none i in
      rw (o, recover_journal)
        (step-Ends _
          (discard_owned_journal_temporary-Ends (journal_at x committed) v s (is_committed i)
            (is_committed iw))
          λ s1.
            rw
              (
                staging_residue x w i.staging_sorted i.staged,
                quarantine_residue x w i.quarantine_sorted i.quarantined,
                assert_exact_live_inventory_lem x.new_records (machine x.id w) i.live,
              )
              (cleanup-Ends (journal_at x committed) w (document (journal_at x committed))
                x.new_files x.new_files x.old_files s1 i.journal i.live (i.staging_sorted, i.staged)
                (i.quarantine_sorted, i.quarantined)
                (λ st q f (a, b) (c, d). is_committed (record {
                  journal = i.journal;
                  live = i.live;
                  staged = b;
                  quarantined = d;
                  staging_sorted = a;
                  quarantine_sorted = c;
                }))
                (λ c. is_clean c)))
