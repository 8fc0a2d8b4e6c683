-- ===== src/State/Safety/Staging.antt =====
-- A restore copies the databases of the snapshot to its staging directory.
use agentops_open_course.Prelude.{
  ◌≡◌, refl, sym, ap, ◌∙◌, subst, arith, ◌⊎◌, inl, inr, List, [], ◌∷◌, none, some, Text, All,
  text_eq, text_eq_iff, text_eq_self, Bool-cases,
}
use agentops_open_course.State.Maps.{lookup, put, Sorted, put-Sorted, Sorted-eq}
use agentops_open_course.State.Disk.{
  Files, FileEvidence, Inventory, find, Digest, Event, in_staging, read_place, file_in, evidence_of,
}
use agentops_open_course.State.Restore.{copy_file_contents, stage_generation}
use agentops_open_course.State.Logic.{
  View, machine, Ends, ends_returned, then-Ends, step-Ends, fsync-Ends,
}
use agentops_open_course.State.Logic.Places.{read_place_lem, write-Ends}
use agentops_open_course.State.Safety.Records.{Evident, Distinct}
use agentops_open_course.State.Safety.Invariant.{Transaction}
use agentops_open_course.State.Safety.Moves.{put_same, put_other, same_name}
use agentops_open_course.State.Safety.Quarantine.{Pending, Evident-match}
use agentops_open_course.State.Safety.Unwind.{IsStaging}

module _ ⦃digest : Digest⦄ (x : Transaction) where
  abbrev pub staging_view : Files → View
  staging_view fs = record {
    live = x.old_files;
    staging = some fs;
    quarantine = some [];
    temporary = none;
    journal = none;
    held = none;
  }

  pub staging_view-IsStaging : (fs : Files) → IsStaging x (staging_view fs)
  staging_view-IsStaging fs = record {
    untouched = record { live = refl; journal = refl };
    held = refl;
  }

  -- The files that `inv` records are still to be copied; the others are copied.
  pub record CopiedTo (inv : Inventory) (fs : Files) : Type 0 where
    pub sorted : Sorted fs
    pub each :
        (k : Text)
        → ((find k inv ≡ none) × (lookup k fs ≡ lookup k x.new_files))
          ⊎ ((lookup k fs ≡ none) × Pending inv k)

  copied-CopiedTo :
      (e : FileEvidence) (c : Text) (inv : Inventory) (fs : Files)
      → find e.filename inv ≡ none
      → lookup e.filename x.new_files ≡ some c
      → CopiedTo (e ∷ inv) fs
      → CopiedTo inv (put e.filename c fs)
  unfolding find
  copied-CopiedTo e c inv fs fresh n p = record {
    sorted = put-Sorted e.filename c fs p.sorted;
    each = λ k. elim (Bool-cases (text_eq k e.filename)) [
      | inl s ↦ inl (
        subst (λ i. find i inv ≡ none) (sym ((text_eq_iff k e.filename).0 s)) fresh,
        put_same k e.filename c fs s ∙ sym (same_name k e.filename x.new_files s ∙ n),
      )
      | inr s ↦ rw (put_other k e.filename c fs s) (elim (p.each k) [
        | inl (f, i) ↦ inl (sym (rw s) ∙ f, i)
        | inr (a, (f, i)) ↦ inr (a, (f, sym (rw s) ∙ i))
      ])
    ];
  }

  pending_missing :
      (e : FileEvidence) (inv : Inventory) (fs : Files)
      → CopiedTo (e ∷ inv) fs
      → lookup e.filename fs ≡ none
  unfolding find
  pending_missing e inv fs p = elim (p.each e.filename) [
    | inl (f, i) ↦ absurd (ground (arith, f, text_eq_self e.filename))
    | inr (a, i) ↦ a
  ]

  copy_file_contents-Ends :
      (name c : Text) (fs : Files) (s : List Event)
      → lookup name x.new_files ≡ some c
      → lookup name fs ≡ none
      → Ends x.id
          (λ _ w. w ≡ staging_view (put name c fs))
          (IsStaging x)
          s
          (copy_file_contents x.new_files x.id name (machine x.id (staging_view fs)) s)
  unfolding copy_file_contents
  copy_file_contents-Ends name c fs s n m =
      rw (n, copy_file_contents, read_place_lem x.id (in_staging x.id) (staging_view fs) refl, m)
        (step-Ends _
          (write-Ends {Post = λ _ w. w ≡ staging_view (put name [] fs)} (in_staging x.id)
            (put name [] fs) (staging_view fs) s refl (staging_view-IsStaging fs) refl)
          λ s1.
            step-Ends _
              (write-Ends {Post = λ _ w. w ≡ staging_view (put name c fs)} (in_staging x.id)
                (put name c fs) (staging_view (put name [] fs)) s1 refl
                (staging_view-IsStaging (put name [] fs)) refl)
              λ s2.
                fsync-Ends (staging_view (put name c fs)) s2
                  (staging_view-IsStaging (put name c fs)) refl)

  -- The evidence that comes of it is that of the manifest.
  pub stage_generation-Ends :
      (inv : Inventory) (fs : Files) (s : List Event)
      → All (Evident x.new_files) inv
      → Distinct inv
      → CopiedTo inv fs
      → Ends x.id
          (λ published w. (published ≡ inv) × (w ≡ staging_view x.new_files))
          (IsStaging x)
          s
          (stage_generation x.new_files x.id inv (machine x.id (staging_view fs)) s)
  unfolding stage_generation find
  stage_generation-Ends [] fs s a d p =
      let whole : fs ≡ x.new_files =
        Sorted-eq fs x.new_files p.sorted x.new_sorted
          λ k. elim (p.each k) [ inl (f, i) ↦ i | inr (m, (e, i)) ↦ absurd (cc) ] in
      step-Ends _
        (fsync-Ends {Post = λ _ w. w ≡ staging_view fs} (staging_view fs) s
          (staging_view-IsStaging fs) refl)
        λ s'. ends_returned [] (staging_view fs) s' (λ i. i) (refl, ap staging_view whole)
  stage_generation-Ends (e ∷ inv) fs s ((c, n, m), a) (fresh, d) p =
      let next = put e.filename c fs in
      let stored : file_in (read_place (in_staging x.id) (machine x.id (staging_view next)))
            e.filename
          ≡ some c =
        rw (read_place_lem x.id (in_staging x.id) (staging_view next) refl)
          (put_same e.filename e.filename c fs (text_eq_self e.filename)) in
      step-Ends _ (copy_file_contents-Ends e.filename c fs s n (pending_missing e inv fs p)) λ s1.
        rw (stored, Evident-match x x.new_files e c (c, n, m) n)
          (then-Ends _
            (stage_generation-Ends inv next s1 a d (copied-CopiedTo e c inv fs fresh n p))
            λ published w s2 (q, r).
              ends_returned (evidence_of e.filename c ∷ published) w s2 (λ i. i)
                (ap (λ i. evidence_of e.filename c ∷ i) q ∙ ap (λ i. i ∷ inv) (sym m), r))
