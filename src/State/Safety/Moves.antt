-- ===== src/State/Safety/Moves.antt =====
-- What the move of one file does to the names of a directory between two generations.
use agentops_open_course.Prelude.{
  ◌≡◌, sym, ap, ◌∙◌, inl, inr, none, some, Text, text_eq, text_eq_iff, Bool-cases, true, false,
}
use agentops_open_course.State.Maps.{
  lookup, put, erase, lookup-put, lookup-erase, put-Sorted, erase-Sorted,
}
use agentops_open_course.State.Disk.{Files, Digest}
use agentops_open_course.State.Safety.Records.{Part}
use agentops_open_course.State.Safety.Invariant.{Transaction, Halfway}

module _ (k name c : Text) (fs : Files) where
  pub put_same : text_eq k name ≡ true → lookup k (put name c fs) ≡ some c
  put_same h = lookup-put k name c fs ∙ rw h

  pub put_other : text_eq k name ≡ false → lookup k (put name c fs) ≡ lookup k fs
  put_other h = lookup-put k name c fs ∙ rw h

module _ (k name : Text) (fs : Files) where
  pub erase_same : text_eq k name ≡ true → lookup k (erase name fs) ≡ none
  erase_same h = lookup-erase k name fs ∙ rw h

  pub erase_other : text_eq k name ≡ false → lookup k (erase name fs) ≡ lookup k fs
  erase_other h = lookup-erase k name fs ∙ rw h

pub same_name : (k name : Text) (fs : Files) → text_eq k name ≡ true → lookup k fs ≡ lookup name fs
same_name k name fs h = ap (λ i. lookup i fs) ((text_eq_iff k name).0 h)

pub Part-erase : (name : Text) (fs gs : Files) → Part fs gs → Part (erase name fs) gs
Part-erase name fs gs p k = elim (Bool-cases (text_eq k name)) [
  | inl h ↦ inl (erase_same k name fs h)
  | inr h ↦ rw (erase_other k name fs h) (p k)
]

module _ ⦃digest : Digest⦄ (x : Transaction) (live staging quarantine : Files) (name c : Text)
    (h : Halfway x live staging quarantine) where
  -- An old file goes to quarantine.
  pub Halfway-quarantine :
      lookup name x.old_files ≡ some c → Halfway x (erase name live) staging (put name c quarantine)
  Halfway-quarantine o = record {
    slots = λ k. elim (Bool-cases (text_eq k name)) [
      | inl e ↦ inr (
        put_same k name c quarantine e ∙ sym (same_name k name x.old_files e ∙ o),
        inl (erase_same k name live e),
      )
      | inr e ↦ rw (erase_other k name live e, put_other k name c quarantine e) (h.slots k)
    ];
    staged = h.staged;
    live_sorted = erase-Sorted name live h.live_sorted;
    staging_sorted = h.staging_sorted;
    quarantine_sorted = put-Sorted name c quarantine h.quarantine_sorted;
  }

  -- An old file comes back from quarantine.
  pub Halfway-reinstate :
      lookup name x.old_files ≡ some c → Halfway x (put name c live) staging (erase name quarantine)
  Halfway-reinstate o = record {
    slots = λ k. elim (Bool-cases (text_eq k name)) [
      | inl e ↦ inl (
        erase_same k name quarantine e,
        put_same k name c live e ∙ sym (same_name k name x.old_files e ∙ o),
      )
      | inr e ↦ rw (put_other k name c live e, erase_other k name quarantine e) (h.slots k)
    ];
    staged = h.staged;
    live_sorted = put-Sorted name c live h.live_sorted;
    staging_sorted = h.staging_sorted;
    quarantine_sorted = erase-Sorted name quarantine h.quarantine_sorted;
  }

  -- A new file, of a name whose old file is in quarantine, is published.
  pub Halfway-publish :
      lookup name x.new_files ≡ some c
      → lookup name quarantine ≡ lookup name x.old_files
      → Halfway x (put name c live) (erase name staging) quarantine
  Halfway-publish n q = record {
    slots = λ k. elim (Bool-cases (text_eq k name)) [
      | inl e ↦ inr (
        same_name k name quarantine e ∙ q ∙ sym (same_name k name x.old_files e),
        inr (put_same k name c live e ∙ sym (same_name k name x.new_files e ∙ n)),
      )
      | inr e ↦ rw (put_other k name c live e) (h.slots k)
    ];
    staged = Part-erase name staging x.new_files h.staged;
    live_sorted = put-Sorted name c live h.live_sorted;
    staging_sorted = erase-Sorted name staging h.staging_sorted;
    quarantine_sorted = h.quarantine_sorted;
  }

  -- A published file is removed.
  pub Halfway-remove :
      lookup name quarantine ≡ lookup name x.old_files
      → Halfway x (erase name live) staging quarantine
  Halfway-remove q = record {
    slots = λ k. elim (Bool-cases (text_eq k name)) [
      | inl e ↦ inr (
        same_name k name quarantine e ∙ q ∙ sym (same_name k name x.old_files e),
        inl (erase_same k name live e),
      )
      | inr e ↦ rw (erase_other k name live e) (h.slots k)
    ];
    staged = h.staged;
    live_sorted = erase-Sorted name live h.live_sorted;
    staging_sorted = h.staging_sorted;
    quarantine_sorted = h.quarantine_sorted;
  }
