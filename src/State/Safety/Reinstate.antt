-- ===== src/State/Safety/Reinstate.antt =====
-- A rollback puts the old generation back.
use agentops_open_course.Prelude.{
  ◌≡◌, refl, sym, ◌∙◌, subst, arith, ◌⊎◌, inl, inr, List, [], ◌∷◌, none, some, Text, text_eq,
  text_eq_iff, text_eq_self, Bool-cases, All,
}
use agentops_open_course.State.Maps.{lookup, put, erase}
use agentops_open_course.State.Disk.{
  FileEvidence, Inventory, find, Event, Digest, in_live, in_quarantine, read_place,
}
use agentops_open_course.State.Rollback.{reinstate_one, reinstate_old_generation}
use agentops_open_course.State.Logic.{View, machine, Ends, ends_returned, then-Ends}
use agentops_open_course.State.Logic.Places.{read_place_lem, move_file-Ends}
use agentops_open_course.State.Safety.Records.{Evident, Distinct}
use agentops_open_course.State.Safety.Invariant.{
  Transaction, Kept, entries_of, Recoverable, old_generation,
}
use agentops_open_course.State.Safety.Moves.{
  Halfway-reinstate, put_same, put_other, erase_same, erase_other, same_name,
}
use agentops_open_course.State.Safety.Quarantine.{Rolls, Rolls-Recoverable, Pending, Evident-match}

module _ ⦃digest : Digest⦄ (x : Transaction) where
  -- The files that `inv` records are in quarantine, with nothing in their place; the others are back.
  abbrev pub ReinstatedTo : Inventory → View → Type 0
  ReinstatedTo inv v =
      Rolls x v
      × ((k : Text)
          → ((find k inv ≡ none)
              × Kept (lookup k x.old_files) (lookup k v.live) (lookup k (entries_of v.quarantine)))
            ⊎ ((lookup k (entries_of v.quarantine) ≡ lookup k x.old_files)
                × (lookup k v.live ≡ none)
                × Pending inv k))

  abbrev moved_back : View → Text → Text → View
  moved_back v name c = record v {
    live = put name c v.live;
    quarantine = some (erase name (entries_of v.quarantine));
  }

  moved_back-ReinstatedTo :
      (e : FileEvidence) (c : Text) (inv : Inventory) (v : View)
      → find e.filename inv ≡ none
      → lookup e.filename x.old_files ≡ some c
      → ReinstatedTo (e ∷ inv) v
      → ReinstatedTo inv (moved_back v e.filename c)
  unfolding find
  moved_back-ReinstatedTo e c inv v fresh o (r, m) =
      let name = e.filename in
      let q = entries_of v.quarantine in
      (
        record {
          journal = r.journal;
          quarantine = refl;
          halfway = Halfway-reinstate x v.live (entries_of v.staging) q name c r.halfway o;
        },
        λ k. elim (Bool-cases (text_eq k name)) [
          | inl s ↦ inl (
            subst (λ i. find i inv ≡ none) (sym ((text_eq_iff k name).0 s)) fresh,
            (
              erase_same k name q s,
              put_same k name c v.live s ∙ sym (same_name k name x.old_files s ∙ o),
            ),
          )
          | inr s ↦
              rw (put_other k name c v.live s, erase_other k name q s)
                (elim (m k) [
                  | inl (f, i) ↦ inl (sym (rw s) ∙ f, i)
                  | inr (a, b, (f, i)) ↦ inr (a, b, (f, sym (rw s) ∙ i))
                ])
        ],
      )

  reinstate_one-Ends :
      (e : FileEvidence) (inv : Inventory) (v : View) (s : List Event)
      → Evident x.old_files e
      → find e.filename inv ≡ none
      → ReinstatedTo (e ∷ inv) v
      → Ends x.id
          (λ _. ReinstatedTo inv)
          (Recoverable x old_generation)
          s
          (reinstate_one x.id e (machine x.id v) s)
  unfolding reinstate_one find
  reinstate_one-Ends e inv v s ev fresh (r, m) =
      let (c, oc, _) = ev in
      let q = entries_of v.quarantine in
      let there : lookup e.filename q ≡ some c = elim (m e.filename) [
        | inl (f, _) ↦ absurd (ground (arith, f, text_eq_self e.filename))
        | inr (a, _, _) ↦ a ∙ oc
      ] in
      let seen_q : read_place (in_quarantine x.id) (machine x.id v) ≡ some q =
        read_place_lem x.id (in_quarantine x.id) v refl ∙ r.quarantine in
      rw (seen_q, reinstate_one, there, Evident-match x x.old_files e c ev oc)
        (move_file-Ends (in_quarantine x.id) in_live e.filename c q v.live v s refl tt r.quarantine
          there refl (λ w p. Rolls-Recoverable x w p.0) (Rolls-Recoverable x v r)
          (moved_back-ReinstatedTo e c inv v fresh oc (r, m)))

  pub reinstate_old_generation-Ends :
      (inv : Inventory) (v : View) (s : List Event)
      → All (Evident x.old_files) inv
      → Distinct inv
      → ReinstatedTo inv v
      → Ends x.id
          (λ _. ReinstatedTo [])
          (Recoverable x old_generation)
          s
          (reinstate_old_generation x.id inv (machine x.id v) s)
  unfolding reinstate_old_generation
  reinstate_old_generation-Ends [] v s a d p = ends_returned tt v s (λ i. i) p
  reinstate_old_generation-Ends (e ∷ inv) v s (ev, a) (f, d) p =
      then-Ends _ (reinstate_one-Ends e inv v s ev f p)
        λ _ w s' h. reinstate_old_generation-Ends inv w s' a d h
