-- ===== src/State/Evidence.antt =====
-- agents/go/state/recovery.go: the checks that hold a state directory against the evidence of a
-- journal. That entries are of the right kind, file or directory, is given here.
use agentops_open_course.Prelude.{
  ◌==◌, not, Bool, true, false, ◌||◌, [], ◌∷◌, Option, none, some, if◌then◌else◌, Text, length, all,
}
use agentops_open_course.State.Maps.{lookup}
use agentops_open_course.State.Disk.{
  Files, FileEvidence, Inventory, find, RestoreJournal, Machine, Problem, missing_directory,
  unexplained_evidence, unverified_evidence, live_outside, live_unmatched, missing_old, missing_new,
  inventory_mismatch, M, return, raise, in_staging, in_quarantine, read_place, Digest,
  matches_evidence,
}

-- An error, or what was asked for.
pub data Checked {ℓ} (A : Type ℓ) : Type ℓ where
  sound : A → Checked A
  broken : Problem → Checked A

abbrev pub problem_of {ℓ} : {A : Type ℓ} → Checked A → Option Problem
problem_of (sound a) = none
problem_of (broken e) = some e

abbrev pub then_check {ℓ} : {A : Type ℓ} → Checked A → (A → Option Problem) → Option Problem
then_check (sound a) f = f a
then_check (broken e) f = some e

abbrev pub first_problem : Option Problem → Option Problem → Option Problem
first_problem none p = p
first_problem (some e) p = some e

module _ ⦃digest : Digest⦄ where
  abbrev pub require_evidence : Option Text → FileEvidence → M (Unit {0})
  require_evidence file e = if matches_evidence file e then return tt else raise unverified_evidence

  -- The first entry that is not the evidence of its name, if there is one.
  unfoldable pub residue_problem : Files → Inventory → Option Problem
  unfolding find
  residue_problem [] expected = none
  residue_problem ((name, c) ∷ fs) expected =
      let rest = residue_problem fs expected in
      elim (find name expected) [
        | none ↦ some unexplained_evidence
        | some e ↦ if matches_evidence (some c) e then rest else some unverified_evidence
      ]

  unfoldable pub validate_residue : Option Files → Inventory → Bool → Checked Files
  unfolding residue_problem
  validate_residue none expected required = if required then broken missing_directory else sound []
  validate_residue (some fs) expected required = elim (residue_problem fs expected) [
    | none ↦ sound fs
    | some e ↦ broken e
  ]

  unfoldable pub named_in : Text → Inventory → Bool
  unfolding find
  named_in name inv = elim (find name inv) [ none ↦ false | some e ↦ true ]

  unfoldable pub matched_in : Text → Text → Inventory → Bool
  unfolding find
  matched_in name c inv = elim (find name inv) [
    | none ↦ false
    | some e ↦ matches_evidence (some c) e
  ]

  -- The live files against the two generations: every name first, then the bytes.
  unfoldable pub validate_live_subset : Files → Inventory → Inventory → Option Problem
  unfolding named_in matched_in
  validate_live_subset live old new =
      if not (all (λ f. named_in f.0 old || named_in f.0 new) live)
      then some live_outside
      else if not (all (λ f. matched_in f.0 f.1 old || matched_in f.0 f.1 new) live)
      then some live_unmatched
      else none

  unfoldable pub require_complete_generation : Inventory → Files → Files → Problem → Option Problem
  require_complete_generation [] held live missing = none
  require_complete_generation (e ∷ recorded) held live missing =
      let rest = require_complete_generation recorded held live missing in
      elim (lookup e.filename held) [
        | some c ↦ rest
        | none ↦ if matches_evidence (lookup e.filename live) e then rest else some missing
      ]

  unfoldable pub validate_forward_evidence : RestoreJournal → Machine → Option Problem
  unfolding validate_residue validate_live_subset require_complete_generation read_place
  validate_forward_evidence j m =
      then_check (validate_residue (read_place (in_staging j.transaction) m) j.new true) λ staged.
        then_check (validate_residue (read_place (in_quarantine j.transaction) m) j.old true)
          λ quarantined. first_problem (validate_live_subset m.live j.old j.new) (
            first_problem (require_complete_generation j.old quarantined m.live missing_old)
              (require_complete_generation j.new staged m.live missing_new))

  unfoldable pub validate_rollback_evidence : RestoreJournal → Machine → Option Problem
  unfolding validate_residue validate_live_subset require_complete_generation read_place
  validate_rollback_evidence j m =
      then_check (validate_residue (read_place (in_staging j.transaction) m) j.new false) λ staged.
        then_check (validate_residue (read_place (in_quarantine j.transaction) m) j.old false)
          λ quarantined.
            first_problem (validate_live_subset m.live j.old j.new)
              (require_complete_generation j.old quarantined m.live missing_old)

  -- Each recorded file is live, as recorded.
  unfoldable pub all_live : Inventory → Files → Option Problem
  all_live [] live = none
  all_live (e ∷ expected) live =
      let rest = all_live expected live in
      elim (lookup e.filename live) [
        | none ↦ some inventory_mismatch
        | some c ↦ if matches_evidence (some c) e then rest else some unverified_evidence
      ]

  unfoldable pub assert_exact_live_inventory : Inventory → Machine → Option Problem
  unfolding all_live
  assert_exact_live_inventory expected m =
      if length m.live == length expected then all_live expected m.live else some inventory_mismatch
