-- ===== src/State/Recovery.antt =====
-- agents/go/state/recovery.go: how a restore that was interrupted is finished or reversed. The log
-- lines are left out.
use agentops_open_course.Prelude.{
  ◌==◌, not, Bool, true, false, ◌&&◌, ◌||◌, List, [], ◌∷◌, Option, none, some, if◌then◌else◌, Text,
  text_eq, length, all,
}
use agentops_open_course.State.Disk.{
  RestorePhase, prepared, rolling_back, committed, RestoreJournal, JournalFile, Machine, Problem,
  no_initial_journal, initial_not_prepared, inexact_residue, publication_began, not_owned, raised,
  M, ◌>>=◌, ◌>>◌, return, gets, demand, in_staging, in_quarantine, read_place, fsync_dir, Digest,
}
use agentops_open_course.State.Journal.{
  read_restore_journal, load_restore_journal, publish_temporary, Artifact, staging_of,
  quarantine_of, journal_of, restore_artifacts,
}
use agentops_open_course.State.Evidence.{
  problem_of, then_check, validate_residue, validate_forward_evidence, validate_rollback_evidence,
  assert_exact_live_inventory,
}
use agentops_open_course.State.Rollback.{
  discard_owned_journal_temporary, set_restore_phase, cleanup_restore_transaction, rollback_restore,
}

abbrev owns : Text → Artifact → Bool
owns t (staging_of i) = text_eq i t
owns t (quarantine_of i) = text_eq i t
owns t (journal_of i) = text_eq i t

abbrev pub require_owned_artifacts : RestoreJournal → List Artifact → Option Problem
require_owned_artifacts j artifacts =
    if all (owns j.transaction) artifacts then none else some not_owned

module _ ⦃digest : Digest⦄ where
  -- The checks of `adoptInitialRestoreJournal` on the one candidate.
  abbrev pub adoption_problem : Text → RestoreJournal → List Artifact → Machine → Option Problem
  adoption_problem t j artifacts m =
      if not (is_prepared j.phase)
      then some initial_not_prepared
      else if not (text_eq t j.transaction && exact_residue j.transaction artifacts)
      then some inexact_residue
      else then_check (validate_residue (read_place (in_staging j.transaction) m) j.new true)
          λ staged.
            then_check (validate_residue (read_place (in_quarantine j.transaction) m) j.old true)
              λ quarantined.
                if not (length staged == length j.new) || not (length quarantined == 0)
                then some publication_began
                else assert_exact_live_inventory j.old m
    where
      is_prepared : RestorePhase → Bool
      is_prepared prepared = true
      is_prepared _ = false

      exact_residue : Text → List Artifact → Bool
      exact_residue i (journal_of a ∷ quarantine_of b ∷ staging_of c ∷ []) =
          text_eq a i && (text_eq b i && text_eq c i)
      exact_residue i _ = false

  unfoldable pub adopt_candidate : Text → JournalFile → List Artifact → M RestoreJournal
  adopt_candidate t file artifacts = do
    j ← read_restore_journal file
    demand (adoption_problem t j artifacts)
    publish_temporary t
    fsync_dir
    return j

  unfoldable pub adopt_initial_restore_journal : List Artifact → M RestoreJournal
  adopt_initial_restore_journal artifacts m s = elim m.temporary [
    | [] ↦ raised no_initial_journal m s
    | (t, file) ∷ others ↦ elim others [
      | [] ↦ adopt_candidate t file artifacts m s
      | other ∷ more ↦ raised no_initial_journal m s
    ]
  ]

  unfoldable pub recover_committed : RestoreJournal → M (Unit {0})
  recover_committed j = do
    demand
        (λ m. problem_of (validate_residue (read_place (in_staging j.transaction) m) j.new false))
    demand (λ m.
        problem_of (validate_residue (read_place (in_quarantine j.transaction) m) j.old false))
    demand (assert_exact_live_inventory j.new)
    cleanup_restore_transaction j

  -- By the phase of the journal.
  unfoldable pub resume : RestorePhase → RestoreJournal → M (Unit {0})
  resume committed j = recover_committed j
  resume prepared j = do
    demand (validate_forward_evidence j)
    set_restore_phase j rolling_back
    rollback_restore j
  resume rolling_back j = do demand (validate_rollback_evidence j); rollback_restore j

  unfoldable pub recover_journal : RestoreJournal → List Artifact → M (Unit {0})
  recover_journal j artifacts = do
    demand (λ m. require_owned_artifacts j artifacts)
    discard_owned_journal_temporary j
    resume j.phase j

  unfoldable pub recover_restore_locked : M (Unit {0})
  recover_restore_locked = do
    found ← load_restore_journal
    artifacts ← gets restore_artifacts
    elim found [
      | some j ↦ recover_journal j artifacts
      | none ↦ elim artifacts [
        | [] ↦ return tt
        | a ∷ more ↦ do j ← adopt_initial_restore_journal (a ∷ more); recover_journal j (a ∷ more)
      ]
    ]
