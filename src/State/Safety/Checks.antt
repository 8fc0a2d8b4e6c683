-- ===== src/State/Safety/Checks.antt =====
-- The checks of a recovery pass on the directories of a transaction.
use agentops_open_course.Prelude.{
  ◌≡◌, refl, ◌∙◌, ◌⊎◌, inl, inr, Option, none, some, Text, text_eq_self, true, false,
}
use agentops_open_course.State.Maps.{lookup, Sorted}
use agentops_open_course.State.Disk.{
  Files, Inventory, Digest, prepared, RestorePhase, read_place, in_staging, in_quarantine,
  missing_old, missing_new, JournalFile,
}
use agentops_open_course.State.Journal.{restore_artifacts}
use agentops_open_course.State.Evidence.{
  sound, validate_residue, validate_forward_evidence, validate_rollback_evidence,
}
use agentops_open_course.State.Recovery.{require_owned_artifacts}
use agentops_open_course.State.Logic.{View, machine}
use agentops_open_course.State.Logic.Places.{read_place_lem}
use agentops_open_course.State.Safety.Records.{
  Part, Either, Records, validate_residue_lem, validate_live_subset_lem,
  require_complete_generation_lem,
}
use agentops_open_course.State.Safety.Invariant.{
  Transaction, Halfway, entries_of, IsPrepared, journal_at,
}

module _ ⦃digest : Digest⦄ where
  -- A directory that may be missing.
  pub optional_residue_lem :
      {inv : Inventory} {gs : Files}
      → Records inv gs
      → (o : Option Files) → Sorted (entries_of o)
      → Part (entries_of o) gs
      → validate_residue o inv false ≡ sound (entries_of o)
  unfolding validate_residue
  optional_residue_lem r none s p = refl
  optional_residue_lem r (some fs) s p = validate_residue_lem r fs false s p

module _ ⦃digest : Digest⦄ (x : Transaction) (live staging quarantine : Files)
    (h : Halfway x live staging quarantine) where
  pub quarantine_part : Part quarantine x.old_files
  quarantine_part k = elim (h.slots k) [ inl i ↦ inl i.0 | inr i ↦ inr i.0 ]

  pub live-Either : Either live x.old_files x.new_files
  live-Either k = elim (h.slots k) [
    | inl i ↦ inr (inl i.1)
    | inr i ↦ elim (i.1) [ inl n ↦ inl n | inr n ↦ inr (inr n) ]
  ]

  pub old_complete :
      (k : Text)
      → (lookup k quarantine ≡ lookup k x.old_files) ⊎ (lookup k live ≡ lookup k x.old_files)
  old_complete k = elim (h.slots k) [ inl i ↦ inr i.1 | inr i ↦ inl i.0 ]

module _ ⦃digest : Digest⦄ (x : Transaction) (v : View) where
  staging_read : read_place (in_staging x.id) (machine x.id v) ≡ v.staging
  staging_read = read_place_lem x.id (in_staging x.id) v refl

  quarantine_read : read_place (in_quarantine x.id) (machine x.id v) ≡ v.quarantine
  quarantine_read = read_place_lem x.id (in_quarantine x.id) v refl

  pub staging_residue :
      Sorted (entries_of v.staging)
      → Part (entries_of v.staging) x.new_files
      → validate_residue (read_place (in_staging x.id) (machine x.id v)) x.new_inventory false
        ≡ sound (entries_of v.staging)
  staging_residue s p = rw staging_read (optional_residue_lem x.new_records v.staging s p)

  pub quarantine_residue :
      Sorted (entries_of v.quarantine)
      → Part (entries_of v.quarantine) x.old_files
      → validate_residue (read_place (in_quarantine x.id) (machine x.id v)) x.old_inventory false
        ≡ sound (entries_of v.quarantine)
  quarantine_residue s p = rw quarantine_read (optional_residue_lem x.old_records v.quarantine s p)

  pub validate_rollback_evidence_lem :
      (phase : RestorePhase)
      → Halfway x v.live (entries_of v.staging) (entries_of v.quarantine)
      → validate_rollback_evidence (journal_at x phase) (machine x.id v) ≡ none
  unfolding validate_rollback_evidence
  validate_rollback_evidence_lem phase h =
      let part = quarantine_part x v.live (entries_of v.staging) (entries_of v.quarantine) h in
      let either = live-Either x v.live (entries_of v.staging) (entries_of v.quarantine) h in
      let whole = old_complete x v.live (entries_of v.staging) (entries_of v.quarantine) h in
      rw
        (
          validate_rollback_evidence,
          staging_residue h.staging_sorted h.staged,
          quarantine_residue h.quarantine_sorted part,
          validate_live_subset_lem x.old_records x.new_records v.live h.live_sorted either,
        )
        (require_complete_generation_lem x.old_records (entries_of v.quarantine) v.live missing_old
          whole)

  pub validate_forward_evidence_lem :
      IsPrepared x v → validate_forward_evidence (journal_at x prepared) (machine x.id v) ≡ none
  unfolding validate_forward_evidence
  validate_forward_evidence_lem i =
      let h = i.halfway in
      let part = quarantine_part x v.live (entries_of v.staging) (entries_of v.quarantine) h in
      let either = live-Either x v.live (entries_of v.staging) (entries_of v.quarantine) h in
      let whole = old_complete x v.live (entries_of v.staging) (entries_of v.quarantine) h in
      rw
        (
          validate_forward_evidence,
          staging_read ∙ i.staging,
          validate_residue_lem x.new_records (entries_of v.staging) true h.staging_sorted h.staged,
          quarantine_read ∙ i.quarantine,
          validate_residue_lem x.old_records (entries_of v.quarantine) true h.quarantine_sorted
              part,
          validate_live_subset_lem x.old_records x.new_records v.live h.live_sorted either,
          require_complete_generation_lem x.old_records (entries_of v.quarantine) v.live missing_old
              whole,
        )
        (require_complete_generation_lem x.new_records (entries_of v.staging) v.live missing_new
          i.complete)

module _ ⦃digest : Digest⦄ (x : Transaction) where
  -- What a transaction leaves bears its name.
  owned :
      (phase : RestorePhase) (v : View) (f : Option JournalFile) (q s : Option Files)
      → require_owned_artifacts (journal_at x phase) (
          restore_artifacts
            (machine x.id (record v { temporary = f; quarantine = q; staging = s })))
        ≡ none
  owned phase v none none none = refl
  owned phase v none none (some s) = rw (text_eq_self x.id)
  owned phase v none (some q) none = rw (text_eq_self x.id)
  owned phase v none (some q) (some s) = rw (text_eq_self x.id)
  owned phase v (some f) none none = rw (text_eq_self x.id)
  owned phase v (some f) none (some s) = rw (text_eq_self x.id)
  owned phase v (some f) (some q) none = rw (text_eq_self x.id)
  owned phase v (some f) (some q) (some s) = rw (text_eq_self x.id)

  pub require_owned_artifacts_lem :
      (phase : RestorePhase) (v : View)
      → require_owned_artifacts (journal_at x phase) (restore_artifacts (machine x.id v)) ≡ none
  require_owned_artifacts_lem phase v = owned phase v v.temporary v.quarantine v.staging
