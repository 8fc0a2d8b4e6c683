-- ===== src/State/Safety/Unpublish.antt =====
-- A rollback removes what has been published of the new generation.
use agentops_open_course.Prelude.{
  ◌≡◌, refl, sym, ap, ◌∙◌, subst, arith, inl, inr, List, [], ◌∷◌, some, Text, text_eq, Bool-cases,
}
use agentops_open_course.State.Maps.{lookup, erase, Sorted, lookup_first, erase_first}
use agentops_open_course.State.Disk.{Files, find, Event, Digest, evidence_of, in_live}
use agentops_open_course.State.Rollback.{remove_one, remove_published_generation}
use agentops_open_course.State.Logic.{View, machine, Ends, ends_returned, then-Ends, fsync-Ends}
use agentops_open_course.State.Logic.Places.{remove_file-Ends}
use agentops_open_course.State.Safety.Records.{evidence_in, matches_evidence_self}
use agentops_open_course.State.Safety.Invariant.{
  Transaction, entries_of, Recoverable, old_generation,
}
use agentops_open_course.State.Safety.Moves.{Halfway-remove, erase_same, erase_other}
use agentops_open_course.State.Safety.Quarantine.{Rolls, Rolls-Recoverable, MovedAt}

module _ ⦃digest : Digest⦄ (x : Transaction) where
  -- All of the old generation is in quarantine, and `files` are live.
  abbrev pub UnpublishedTo : Files → View → Type 0
  UnpublishedTo files v = Rolls x v × (v.live ≡ files) × ((k : Text) → MovedAt x v k)

  removed-UnpublishedTo :
      (name c : Text) (files : Files) (v : View)
      → UnpublishedTo ((name, c) ∷ files) v
      → UnpublishedTo files (record v { live = erase name v.live })
  removed-UnpublishedTo name c files v (r, l, m) = (
    record {
      journal = r.journal;
      quarantine = r.quarantine;
      halfway =
          Halfway-remove x v.live (entries_of v.staging) (entries_of v.quarantine) name c r.halfway
            (m name).0;
    },
    ap (erase name) l ∙ erase_first name c files (subst Sorted l r.halfway.live_sorted),
    λ k. (
      (m k).0,
      elim (Bool-cases (text_eq k name)) [
        | inl s ↦ inl (erase_same k name v.live s)
        | inr s ↦ rw (erase_other k name v.live s) ((m k).1)
      ],
    ),
  )

  remove_one-Ends :
      (name c : Text) (files : Files) (v : View) (s : List Event)
      → UnpublishedTo ((name, c) ∷ files) v
      → Ends x.id
          (λ _. UnpublishedTo files)
          (Recoverable x old_generation)
          s
          (remove_one x.new_inventory name (machine x.id v) s)
  unfolding remove_one
  remove_one-Ends name c files v s (r, l, m) =
      let there : lookup name v.live ≡ some c = ap (lookup name) l ∙ lookup_first name c files in
      let new : lookup name x.new_files ≡ some c = elim ((m name).1) [
        | inl gone ↦ absurd (ground (arith, gone, there))
        | inr n ↦ sym n ∙ there
      ] in
      let found : find name x.new_inventory ≡ some (evidence_of name c) =
        x.new_records.found name ∙ ap (evidence_in name) new in
      let after_removal = removed-UnpublishedTo name c files v (r, l, m) in
      rw (found, remove_one, there, matches_evidence_self name c)
        (then-Ends _
          (remove_file-Ends {Post = λ _. UnpublishedTo files} in_live name v.live v s tt refl
            (Rolls-Recoverable x v r) after_removal)
          λ _ w s' p. fsync-Ends w s' (Rolls-Recoverable x w p.0) p)

  pub remove_published_generation-Ends :
      (files : Files) (v : View) (s : List Event)
      → UnpublishedTo files v
      → Ends x.id
          (λ _. UnpublishedTo [])
          (Recoverable x old_generation)
          s
          (remove_published_generation x.new_inventory files (machine x.id v) s)
  unfolding remove_published_generation
  remove_published_generation-Ends [] v s p = ends_returned tt v s (λ i. i) p
  remove_published_generation-Ends ((name, c) ∷ files) v s p =
      then-Ends _ (remove_one-Ends name c files v s p)
        λ _ w s' h. remove_published_generation-Ends files w s' h
