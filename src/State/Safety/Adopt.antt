-- ===== src/State/Safety/Adopt.antt =====
-- Recovery from a journal that was never published, and recovery as a whole.
use agentops_open_course.Prelude.{
  ◌≡◌, refl, inl, inr, List, [], ◌∷◌, Option, none, some, text_eq_self, true, length, ==_iff,
}
use agentops_open_course.State.Maps.{lookup}
use agentops_open_course.State.Disk.{
  Files, Digest, prepared, Event, JournalFile, RestoreJournal, in_staging, in_quarantine,
}
use agentops_open_course.State.Journal.{Artifact, staging_of, quarantine_of, journal_of}
use agentops_open_course.State.Recovery.{
  require_owned_artifacts, adoption_problem, adopt_candidate, adopt_initial_restore_journal,
  recover_restore_locked,
}
use agentops_open_course.State.Logic.{
  View, machine, Ends, ends_returned, then-Ends, step-Ends, mono-Ends, fsync-Ends,
}
use agentops_open_course.State.Logic.Places.{read_place_lem}
use agentops_open_course.State.Logic.Temporaries.{publish_temporary-Ends}
use agentops_open_course.State.Safety.Records.{
  Part, assert_exact_live_inventory_lem, validate_residue_lem,
}
use agentops_open_course.State.Safety.Invariant.{
  Transaction, old_generation, IsClean, IsPrepared, Recoverable, is_initial, is_prepared,
  journal_at, recorded,
}
use agentops_open_course.State.Safety.Recover.{recover_prepared-Ends}

-- No files at all are a part of any generation.
empty_part : (gs : Files) → Part [] gs
unfolding lookup
empty_part gs k = inl refl

-- A view is what it holds.
pub View-eq :
    (v w : View)
    → v.live ≡ w.live
    → v.staging ≡ w.staging
    → v.quarantine ≡ w.quarantine
    → v.temporary ≡ w.temporary
    → v.journal ≡ w.journal
    → v.held ≡ w.held
    → v ≡ w
View-eq v w a b c d e f = λ i. record {
  live = a i;
  staging = b i;
  quarantine = c i;
  temporary = d i;
  journal = e i;
  held = f i;
}

module _ ⦃digest : Digest⦄ (x : Transaction) (held : Option RestoreJournal) where
  -- All that is there before the journal gets its name.
  abbrev staged_with : Option JournalFile → Option JournalFile → View
  staged_with f j = record {
    live = x.old_files;
    staging = some x.new_files;
    quarantine = some [];
    temporary = f;
    journal = j;
    held = held;
  }

  abbrev initial : View
  initial = staged_with (recorded x prepared) none

  abbrev initial_artifacts : List Artifact
  initial_artifacts = journal_of x.id ∷ quarantine_of x.id ∷ staging_of x.id ∷ []

  pub initial-IsPrepared :
      (f : Option JournalFile) → IsPrepared x (staged_with f (recorded x prepared))
  unfolding lookup
  initial-IsPrepared f = record {
    journal = refl;
    staging = refl;
    quarantine = refl;
    halfway = record {
      slots = λ k. inl (refl, refl);
      staged = λ k. inr refl;
      live_sorted = x.old_sorted;
      staging_sorted = x.new_sorted;
      quarantine_sorted = tt;
    };
    complete = λ k. inl refl;
  }

  initial_owned : require_owned_artifacts (journal_at x prepared) initial_artifacts ≡ none
  initial_owned = rw (text_eq_self x.id)

  adoption_lem :
      adoption_problem x.id (journal_at x prepared) initial_artifacts (machine x.id initial) ≡ none
  adoption_lem =
      rw
        (
          text_eq_self x.id,
          read_place_lem x.id (in_staging x.id) initial refl,
          validate_residue_lem x.new_records x.new_files true x.new_sorted (λ k. inr refl),
          read_place_lem x.id (in_quarantine x.id) initial refl,
          validate_residue_lem x.old_records [] true tt (empty_part x.old_files),
          (==_iff (length x.new_files) (length x.new_inventory)).1 x.new_records.counted,
        )
        (assert_exact_live_inventory_lem x.old_records (machine x.id initial) refl)

  adopt_initial-Ends :
      (s : List Event)
      → Ends x.id
          (λ j v. (j ≡ journal_at x prepared) × (v ≡ staged_with none (recorded x prepared)))
          (Recoverable x old_generation)
          s
          (adopt_initial_restore_journal initial_artifacts (machine x.id initial) s)
  unfolding adopt_initial_restore_journal adopt_candidate
  adopt_initial-Ends s = rw adoption_lem (
      step-Ends _
        (mono-Ends (λ a v p. p)
          (λ v p. rw p (
            is_initial (record {
              live = refl;
              staging = refl;
              quarantine = refl;
              temporary = refl;
              journal = refl;
            })))
          (publish_temporary-Ends initial (journal_at x prepared) s))
        λ s1.
          step-Ends _
            (fsync-Ends {Post = λ _ v. v ≡ staged_with none (recorded x prepared)}
              (staged_with none (recorded x prepared)) s1 (is_prepared (initial-IsPrepared none))
              refl)
            λ s2.
              ends_returned (journal_at x prepared) (staged_with none (recorded x prepared)) s2
                (λ i. i) (refl, refl))

  pub recover_initial-Ends :
      (s : List Event)
      → Ends x.id
          (λ _. IsClean x.old_files)
          (Recoverable x old_generation)
          s
          (recover_restore_locked (machine x.id initial) s)
  unfolding recover_restore_locked
  recover_initial-Ends s = then-Ends _ (adopt_initial-Ends s) λ j v s' (ej, ev).
      rw (ej, ev)
        (recover_prepared-Ends x initial_artifacts (staged_with none (recorded x prepared)) s'
          initial_owned (initial-IsPrepared none))
