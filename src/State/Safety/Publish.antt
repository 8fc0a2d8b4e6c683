-- ===== src/State/Safety/Publish.antt =====
-- A restore from a clean directory.
use agentops_open_course.Prelude.{
  ◌≡◌, refl, sym, ap, ◌∙◌, ◌⊎◌, inl, inr, List, [], Option, none, some, Text, All, true,
}
use agentops_open_course.State.Maps.{lookup}
use agentops_open_course.State.Disk.{
  find, evidence_of, Digest, prepared, Event, in_staging, in_quarantine, inventory_of,
}
use agentops_open_course.State.Journal.{Written}
use agentops_open_course.State.Restore.{
  publish_recorded, is_database_name, publish_prepared, publish_body, publish_restore, unwinding,
}
use agentops_open_course.State.Logic.{
  View, machine, Ends, ends_raised, step-Ends, fsync-Ends, later-Ends, at-Ends,
}
use agentops_open_course.State.Logic.Places.{make_directory-Ends}
use agentops_open_course.State.Logic.Temporaries.{with_journal, with_temporary}
use agentops_open_course.State.Logic.Journals.{
  Wrote, wrote, unflushed, unwritten, write_restore_journal-Ends,
}
use agentops_open_course.State.Safety.Quarantine.{Pending}
use agentops_open_course.State.Safety.Records.{evidence_in}
use agentops_open_course.State.Safety.Invariant.{Transaction, IsClean, is_prepared, journal_at}
use agentops_open_course.State.Safety.Unwind.{
  IsStaging, IsStaging-Unwinds, IsStaging-Interrupted, Publishing-Unwinds, Publishing-Interrupted,
  Interrupted, still_old, recoverable, unwinding-Ends, end-Ends, Quiet-unwinding-Ends,
}
use agentops_open_course.State.Safety.Quiet.{write_restore_journal-Quiet}
use agentops_open_course.State.Safety.Staging.{
  staging_view, staging_view-IsStaging, stage_generation-Ends, CopiedTo,
}
use agentops_open_course.State.Safety.Install.{IsOwing, IsOwing-Publishing, QuarantinesFrom}
use agentops_open_course.State.Safety.Adopt.{initial-IsPrepared, View-eq}
use agentops_open_course.State.Safety.Completion.{install-Ends}

module _ ⦃digest : Digest⦄ (x : Transaction) where
  abbrev staged : View
  staged = staging_view x x.new_files

  -- The restore holds the journal.
  abbrev pub owed : View
  owed = record (with_journal staged (journal_at x prepared)) {
    held = some (journal_at x prepared);
  }

  owed-IsOwing : IsOwing x owed
  owed-IsOwing = record {
    is_prepared = initial-IsPrepared x (some (journal_at x prepared)) none;
    held = refl;
  }

  pub owed-QuarantinesFrom : QuarantinesFrom x x.old_files owed
  owed-QuarantinesFrom = record {
    owing = owed-IsOwing;
    live = refl;
    remains = (x.old_sorted, λ k. inr refl);
    staging = refl;
  }

  recorded-Ends :
      (s s' : List Event) (w : Written) (y : View)
      → All (λ f. is_database_name f.0 ≡ true) x.new_files
      → (s ≡ [] → s' ≡ [])
      → Wrote staged (journal_at x prepared) s w y
      → Ends x.id
          (λ _. IsClean x.new_files)
          (Interrupted x)
          s
          (unwinding x.id
            (publish_recorded x.id (journal_at x prepared) x.old_files w (machine x.id y) s'))
  unfolding publish_recorded
  recorded-Ends s s' w y a q wrote =
      end-Ends (Publishing-Interrupted x) (Publishing-Unwinds x)
        (later-Ends q (install-Ends x x.old_files owed s' a owed-QuarantinesFrom))
  recorded-Ends s s' w y a q (unflushed e n) =
      end-Ends (Publishing-Interrupted x) (Publishing-Unwinds x)
        (ends_raised e owed s' n (IsOwing-Publishing x owed owed-IsOwing))
  recorded-Ends s s' w y a q (unwritten e f n l) =
      end-Ends (IsStaging-Interrupted x) (IsStaging-Unwinds x) (
        ends_raised e (with_temporary staged f) s' n
          (record { untouched = record { live = refl; journal = refl }; held = refl }))

  prepared-Ends :
      (s : List Event)
      → All (λ f. is_database_name f.0 ≡ true) x.new_files
      → Ends x.id
          (λ _. IsClean x.new_files)
          (Interrupted x)
          s
          (unwinding x.id
            (publish_prepared x.id (journal_at x prepared) x.old_files (machine x.id staged) s))
  unfolding publish_prepared
  prepared-Ends s a =
      let j = journal_at x prepared in
      Quiet-unwinding-Ends _ (write_restore_journal-Quiet j (machine x.id staged) s)
        (write_restore_journal-Ends staged j s
          (λ f l. still_old (record { live = refl; journal = refl }))
          (recoverable (is_prepared (initial-IsPrepared x none none))))
        λ w y s' q p. recorded-Ends s s' w y a q p

  uncopied : CopiedTo x x.new_inventory []
  unfolding lookup
  uncopied = record { sorted = tt; each = λ k. go k (lookup k x.new_files) refl }
    where
      go :
          (k : Text) (o : Option Text)
          → lookup k x.new_files ≡ o
          → ((find k x.new_inventory ≡ none) × (none ≡ lookup k x.new_files))
            ⊎ ((lookup {V = Text} k [] ≡ none) × Pending x.new_inventory k)
      go k none e = inl (x.new_records.found k ∙ ap (evidence_in k) e, sym e)
      go k (some c) e = inr (refl, (evidence_of k c, x.new_records.found k ∙ ap (evidence_in k) e))

  body-Ends :
      (s : List Event)
      → All (λ f. is_database_name f.0 ≡ true) x.new_files
      → x.old_inventory ≡ inventory_of x.old_files
      → Ends x.id
          (λ _. IsClean x.new_files)
          (Interrupted x)
          s
          (unwinding x.id (
            publish_body x.new_files x.id x.new_inventory
              (machine x.id (record (staging_view x []) { quarantine = none }))
              s))
  unfolding publish_body lookup
  body-Ends s a o =
      let v = record (staging_view x []) { quarantine = none } in
      let i : IsStaging x v = record {
        untouched = record { live = refl; journal = refl };
        held = refl;
      } in
      let g = IsStaging-Interrupted x in
      let u = IsStaging-Unwinds x in
      unwinding-Ends _ g u
        (make_directory-Ends {Post = λ _ w. w ≡ staging_view x []} (in_quarantine x.id) v s refl
          refl i refl)
        λ _ v1 s1 q1 e1. later-Ends q1 (
          rw e1 (
            unwinding-Ends _ g u
              (fsync-Ends {Post = λ _ w. w ≡ staging_view x []} (staging_view x []) s1
                (staging_view-IsStaging x []) refl)
              λ _ v2 s2 q2 e2. later-Ends q2 (
                rw e2 (
                  unwinding-Ends _ g u
                    (stage_generation-Ends x x.new_inventory [] s2 x.new_records.each
                      x.new_records.distinct uncopied)
                    λ published v3 s3 q3 (p, e3).
                      later-Ends q3 (rw (p, e3, sym o) (prepared-Ends s3 a))))))

  -- A restore of a snapshot of databases, on a directory with the files of the old generation and no
  -- residue, that no fault stops ends with the files of the snapshot, and no residue; when a fault
  -- stops it, before or in the clean-up that it tries, the old generation is live and no journal has
  -- its name, or recovery takes the directory to one of the two generations.
  pub publish_restore-Ends :
      (v : View) (s : List Event)
      → IsClean x.old_files v
      → x.old_inventory ≡ inventory_of x.old_files
      → All (λ f. is_database_name f.0 ≡ true) x.new_files
      → Ends x.id
          (λ _. IsClean x.new_files)
          (Interrupted x)
          s
          (publish_restore x.new_files x.id x.new_inventory (machine x.id v) s)
  unfolding publish_restore
  publish_restore-Ends v s c o a =
      let start : View = record (staging_view x []) {
        staging = none;
        quarantine = none;
        held = v.held;
      } in
      let e : v ≡ start =
        View-eq v start c.live c.staging c.quarantine c.temporary c.journal refl in
      at-Ends (publish_restore x.new_files x.id x.new_inventory) e (
        step-Ends _
          (make_directory-Ends {Post = λ _ w. w ≡ (record start { staging = some [] })}
            (in_staging x.id) start s refl refl (still_old (record { live = refl; journal = refl }))
            refl)
          λ s'. body-Ends s' a o)
