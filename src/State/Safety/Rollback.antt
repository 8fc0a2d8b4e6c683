-- ===== src/State/Safety/Rollback.antt =====
-- A rollback leads from any directory between the generations to the old one, clean.
use agentops_open_course.Prelude.{
  ◌≡◌, refl, sym, ap, ◌∙◌, subst, ◌⊎◌, inl, inr, List, [], Option, none, some, Text,
}
use agentops_open_course.State.Maps.{lookup, Sorted-eq}
use agentops_open_course.State.Disk.{
  Files, find, Event, Digest, evidence_of, in_quarantine, document, RestorePhase, rolling_back,
}
use agentops_open_course.State.Rollback.{
  cleanup_restore_transaction, ensure_quarantine, rollback_restore,
}
use agentops_open_course.State.Logic.{View, machine, Ends, ends_returned, then-Ends, fsync-Ends}
use agentops_open_course.State.Logic.Places.{read_place_lem, write-Ends}
use agentops_open_course.State.Safety.Records.{evidence_in, assert_exact_live_inventory_lem}
use agentops_open_course.State.Safety.Invariant.{
  Transaction, Halfway, Kept, entries_of, IsClean, IsRolling, Recoverable, is_rolling, is_clean,
  old_generation, journal_at,
}
use agentops_open_course.State.Safety.Cleanup.{cleanup-Ends}
use agentops_open_course.State.Safety.Quarantine.{
  Rolls, Rolls-Recoverable, MovedAt, Pending, quarantine_old_generation-Ends,
}
use agentops_open_course.State.Safety.Unpublish.{UnpublishedTo, remove_published_generation-Ends}
use agentops_open_course.State.Safety.Reinstate.{ReinstatedTo, reinstate_old_generation-Ends}

not-Pending : (k : Text) → Pending [] k → ⊥
unfolding find
not-Pending k (e, h) = cc

module _ ⦃digest : Digest⦄ (x : Transaction) where
  ensure_quarantine-Ends :
      (v : View) (s : List Event)
      → IsRolling x v
      → Ends x.id
          (λ _. Rolls x)
          (Recoverable x old_generation)
          s
          (ensure_quarantine x.id (machine x.id v) s)
  unfolding ensure_quarantine
  ensure_quarantine-Ends v s r = go v.quarantine refl
    where
      go :
          (o : Option Files)
          → v.quarantine ≡ o
          → Ends x.id
              (λ _. Rolls x)
              (Recoverable x old_generation)
              s
              (ensure_quarantine x.id (machine x.id v) s)
      go none e =
          rw (read_place_lem x.id (in_quarantine x.id) v refl ∙ e, ensure_quarantine)
            (write-Ends (in_quarantine x.id) [] v s refl (is_rolling r) (record {
              journal = r.journal;
              quarantine = refl;
              halfway =
                  subst (λ o. Halfway x v.live (entries_of v.staging) (entries_of o)) e r.halfway;
            }))
      go (some q) e =
          rw (read_place_lem x.id (in_quarantine x.id) v refl ∙ e, ensure_quarantine)
            (ends_returned tt v s (λ i. i)
              (record {
                journal = r.journal;
                quarantine = e ∙ ap (λ o. some (entries_of o)) (sym e);
                halfway = r.halfway;
              }))

  unpublished-ReinstatedTo : (v : View) → UnpublishedTo x [] v → ReinstatedTo x x.old_inventory v
  unfolding lookup
  unpublished-ReinstatedTo v (r, l, m) = (r, λ k. go k (lookup k x.old_files) refl)
    where
      empty : (k : Text) → lookup k v.live ≡ none
      empty k = ap (lookup k) l

      go :
          (k : Text) (o : Option Text)
          → lookup k x.old_files ≡ o
          → ((find k x.old_inventory ≡ none)
              × Kept (lookup k x.old_files) (lookup k v.live) (lookup k (entries_of v.quarantine)))
            ⊎ ((lookup k (entries_of v.quarantine) ≡ lookup k x.old_files)
                × (lookup k v.live ≡ none)
                × Pending x.old_inventory k)
      go k none e =
          inl (x.old_records.found k ∙ ap (evidence_in k) e, ((m k).0 ∙ e, empty k ∙ sym e))
      go k (some c) e =
          inr ((m k).0, empty k, (evidence_of k c, x.old_records.found k ∙ ap (evidence_in k) e))

  started : (v : View) → Rolls x v → (k : Text) → MovedAt x v k ⊎ Pending x.old_inventory k
  started v r k = elim (r.halfway.slots k) [
    | inr m ↦ inl m
    | inl (q, l) ↦ go (lookup k x.old_files) refl q l
  ]
    where
      go :
          (o : Option Text)
          → lookup k x.old_files ≡ o
          → lookup k (entries_of v.quarantine) ≡ none
          → lookup k v.live ≡ lookup k x.old_files
          → MovedAt x v k ⊎ Pending x.old_inventory k
      go none e q l = inl (q ∙ sym e, inl (l ∙ e))
      go (some c) e q l = inr (evidence_of k c, x.old_records.found k ∙ ap (evidence_in k) e)

  -- All is back.
  back :
      (v : View)
      → ReinstatedTo x [] v
      → (k : Text)
      → Kept (lookup k x.old_files) (lookup k v.live) (lookup k (entries_of v.quarantine))
  back v (r, m) k = elim (m k) [ inl (f, i) ↦ i | inr (a, b, p) ↦ absurd (not-Pending k p) ]

  reinstated_files : (v : View) → ReinstatedTo x [] v → v.live ≡ x.old_files
  reinstated_files v (r, m) =
      Sorted-eq v.live x.old_files r.halfway.live_sorted x.old_sorted (λ k. (back v (r, m) k).1)

  restored-Ends :
      (v : View) (phase : RestorePhase) (s : List Event)
      → ReinstatedTo x [] v
      → Ends x.id
          (λ _. IsClean x.old_files)
          (Recoverable x old_generation)
          s
          (cleanup_restore_transaction (journal_at x phase) (machine x.id v) s)
  unfolding lookup
  restored-Ends v phase s (r, m) =
      cleanup-Ends (journal_at x phase) v (document (journal_at x rolling_back)) x.old_files
        x.new_files [] s r.journal (reinstated_files v (r, m))
        (r.halfway.staging_sorted, r.halfway.staged)
        (r.halfway.quarantine_sorted, λ k. inl (back v (r, m) k).0)
        (λ st q f (a, b) (c, d). is_rolling (record {
          journal = r.journal;
          halfway = record {
            slots = λ k. inl (elim (d k) [ inl i ↦ i | inr i ↦ i ], (back v (r, m) k).1);
            staged = b;
            live_sorted = r.halfway.live_sorted;
            staging_sorted = a;
            quarantine_sorted = c;
          };
        }))
        (λ c. is_clean c)

  -- A rollback that no fault stops ends with the old generation, clean; one that a fault stops can be
  -- taken up again.
  pub rollback_restore-Ends :
      (phase : RestorePhase) (v : View) (s : List Event)
      → IsRolling x v
      → Ends x.id
          (λ _. IsClean x.old_files)
          (Recoverable x old_generation)
          s
          (rollback_restore (journal_at x phase) (machine x.id v) s)
  unfolding rollback_restore
  rollback_restore-Ends phase v s r = then-Ends _ (ensure_quarantine-Ends v s r) λ _ v0 s0 p0.
      then-Ends _ (fsync-Ends {Post = λ _. Rolls x} v0 s0 (Rolls-Recoverable x v0 p0) p0)
        λ _ v1 s1 p1.
          then-Ends _
            (quarantine_old_generation-Ends x v1.live x.old_inventory v1 s1 x.old_records.each
              (p1, (λ k e. refl), started v1 p1))
            λ _ v2 s2 (r2, _, m2).
              then-Ends _
                (remove_published_generation-Ends x v2.live v2 s2
                  (r2, refl, λ k. elim (m2 k) [ inl i ↦ i | inr i ↦ absurd (not-Pending k i) ]))
                λ _ v3 s3 p3.
                  then-Ends _
                    (reinstate_old_generation-Ends x x.old_inventory v3 s3 x.old_records.each
                      x.old_records.distinct (unpublished-ReinstatedTo v3 p3))
                    λ _ v4 s4 p4.
                      rw
                        (assert_exact_live_inventory_lem x.old_records (machine x.id v4)
                          (reinstated_files v4 p4))
                        (restored-Ends v4 phase s4 p4)
