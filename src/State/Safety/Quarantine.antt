-- ===== src/State/Safety/Quarantine.antt =====
-- A rollback moves what is live of the old generation to quarantine.
use agentops_open_course.Prelude.{
  ◌≡◌, refl, sym, ap, ◌∙◌, subst, arith, ◌⊎◌, inl, inr, List, [], ◌∷◌, Option, none, some, Text,
  text_eq, text_eq_iff, Bool-cases, true, All,
}
use agentops_open_course.State.Maps.{lookup, put, erase}
use agentops_open_course.State.Disk.{
  Files, FileEvidence, Inventory, find, Event, Digest, evidence_of, matches_evidence, in_live,
  in_quarantine, rolling_back, read_place,
}
use agentops_open_course.State.Rollback.{quarantine_one, quarantine_old_generation}
use agentops_open_course.State.Logic.{View, machine, Ends, ends_returned, then-Ends}
use agentops_open_course.State.Logic.Places.{read_place_lem, move_file-Ends}
use agentops_open_course.State.Safety.Records.{Evident, matches_evidence_self}
use agentops_open_course.State.Safety.Invariant.{
  Transaction, Halfway, Moved, Slot, entries_of, Recoverable, is_rolling, old_generation, recorded,
}
use agentops_open_course.State.Safety.Moves.{
  Halfway-quarantine, put_same, put_other, erase_same, erase_other, same_name,
}

-- The inventory has an entry of that name.
abbrev pub Pending : Inventory → Text → Type 0
Pending inv k = (e : FileEvidence) × (find k inv ≡ some e)

module _ ⦃digest : Digest⦄ (x : Transaction) where
  -- A rollback under way, its quarantine in place.
  pub record Rolls (v : View) : Type 0 where
    pub journal : v.journal ≡ recorded x rolling_back
    pub quarantine : v.quarantine ≡ some (entries_of v.quarantine)
    pub halfway : Halfway x v.live (entries_of v.staging) (entries_of v.quarantine)

  pub Rolls-Recoverable : (v : View) → Rolls v → Recoverable x old_generation v
  Rolls-Recoverable v r = is_rolling (record { journal = r.journal; halfway = r.halfway })

  abbrev pub MovedAt : View → Text → Type 0
  MovedAt v k =
      Moved (lookup k x.old_files) (lookup k x.new_files) (lookup k v.live)
        (lookup k (entries_of v.quarantine))

  -- The listing of the live files is right on the names that are still to be moved.
  abbrev pub Listed : Files → View → Type 0
  Listed listed v =
      (k : Text) → lookup k (entries_of v.quarantine) ≡ none → lookup k listed ≡ lookup k v.live

  abbrev pub QuarantinedTo : Files → Inventory → View → Type 0
  QuarantinedTo listed inv v =
      Rolls v × Listed listed v × ((k : Text) → MovedAt v k ⊎ Pending inv k)

  abbrev moved_to : View → Text → Text → View
  moved_to v name c = record v {
    live = erase name v.live;
    quarantine = some (put name c (entries_of v.quarantine));
  }

  moved_to-QuarantinedTo :
      (listed : Files) (e : FileEvidence) (c : Text) (inv : Inventory) (v : View)
      → lookup e.filename x.old_files ≡ some c
      → QuarantinedTo listed (e ∷ inv) v
      → QuarantinedTo listed inv (moved_to v e.filename c)
  unfolding find
  moved_to-QuarantinedTo listed e c inv v o (r, l, m) =
      let name = e.filename in
      let q = entries_of v.quarantine in
      let h = Halfway-quarantine x v.live (entries_of v.staging) q name c r.halfway o in
      (
        record { journal = r.journal; quarantine = refl; halfway = h },
        (λ k n. elim (Bool-cases (text_eq k name)) [
          | inl s ↦ absurd (ground (arith, put_same k name c q s, n))
          | inr s ↦ rw (erase_other k name v.live s) (l k (sym (put_other k name c q s) ∙ n))
        ]),
        λ k. elim (Bool-cases (text_eq k name)) [
          | inl s ↦ inl (
            put_same k name c q s ∙ sym (same_name k name x.old_files s ∙ o),
            inl (erase_same k name v.live s),
          )
          | inr s ↦
              rw (erase_other k name v.live s, put_other k name c q s)
                (elim (m k) [ inl i ↦ inl i | inr (f, i) ↦ inr (f, sym (rw s) ∙ i) ])
        ],
      )

  kept-QuarantinedTo :
      (listed : Files) (e : FileEvidence) (inv : Inventory) (v : View)
      → MovedAt v e.filename
      → QuarantinedTo listed (e ∷ inv) v
      → QuarantinedTo listed inv v
  unfolding find
  kept-QuarantinedTo listed e inv v here (r, l, m) = (
    r,
    l,
    λ k. elim (Bool-cases (text_eq k e.filename)) [
      | inl s ↦ inl (subst (MovedAt v) (sym ((text_eq_iff k e.filename).0 s)) here)
      | inr s ↦ elim (m k) [ inl i ↦ inl i | inr (f, i) ↦ inr (f, sym (rw s) ∙ i) ]
    ],
  )

  pub Evident-match :
      (fs : Files) (e : FileEvidence) (c : Text)
      → Evident fs e
      → lookup e.filename fs ≡ some c
      → matches_evidence (some c) e ≡ true
  Evident-match fs e c (d, l, m) h =
      let same : c ≡ d = ground (arith, l, h) in
      subst (λ z. matches_evidence (some c) z ≡ true) (ap (evidence_of e.filename) same ∙ sym m)
        (matches_evidence_self e.filename c)

  quarantine_one-Ends :
      (listed : Files) (e : FileEvidence) (inv : Inventory) (v : View) (s : List Event)
      → Evident x.old_files e
      → QuarantinedTo listed (e ∷ inv) v
      → Ends x.id
          (λ _. QuarantinedTo listed inv)
          (Recoverable x old_generation)
          s
          (quarantine_one x.id listed e (machine x.id v) s)
  unfolding quarantine_one
  quarantine_one-Ends listed e inv v s ev (r, l, m) =
      let (c, oc, _) = ev in go c oc (lookup e.filename q) refl (h.slots e.filename)
    where
      h : Halfway x v.live (entries_of v.staging) (entries_of v.quarantine)
      h = r.halfway

      q : Files
      q = entries_of v.quarantine

      seen_q : read_place (in_quarantine x.id) (machine x.id v) ≡ some q
      seen_q = read_place_lem x.id (in_quarantine x.id) v refl ∙ r.quarantine

      go :
          (c : Text)
          → lookup e.filename x.old_files ≡ some c
          → (o : Option Text) → lookup e.filename q ≡ o
          → Slot
              (lookup e.filename x.old_files)
              (lookup e.filename x.new_files)
              (lookup e.filename v.live)
              (lookup e.filename q)
          → Ends x.id
              (λ _. QuarantinedTo listed inv)
              (Recoverable x old_generation)
              s
              (quarantine_one x.id listed e (machine x.id v) s)
      go c oc none eq (inr (moved, _)) = absurd (ground (arith, moved, oc, eq))
      go c oc none eq (inl (_, lo)) =
          rw
            (
              seen_q,
              quarantine_one,
              eq,
              l e.filename eq ∙ lo ∙ oc,
              lo ∙ oc,
              Evident-match x.old_files e c ev oc,
            )
            (move_file-Ends in_live (in_quarantine x.id) e.filename c v.live q v s tt refl refl
              (lo ∙ oc) r.quarantine (λ w p. Rolls-Recoverable w p.0) (Rolls-Recoverable v r)
              (moved_to-QuarantinedTo listed e c inv v oc (r, l, m)))
      go c oc (some d) eq (inl (gone, _)) = absurd (ground (arith, gone, eq))
      go c oc (some d) eq (inr moved) =
          rw (seen_q, quarantine_one, eq, Evident-match x.old_files e d ev (sym moved.0 ∙ eq))
            (ends_returned tt v s (λ i. i) (kept-QuarantinedTo listed e inv v moved (r, l, m)))

  pub quarantine_old_generation-Ends :
      (listed : Files) (inv : Inventory) (v : View) (s : List Event)
      → All (Evident x.old_files) inv
      → QuarantinedTo listed inv v
      → Ends x.id
          (λ _. QuarantinedTo listed [])
          (Recoverable x old_generation)
          s
          (quarantine_old_generation x.id listed inv (machine x.id v) s)
  unfolding quarantine_old_generation
  quarantine_old_generation-Ends listed [] v s a p = ends_returned tt v s (λ i. i) p
  quarantine_old_generation-Ends listed (e ∷ inv) v s (ev, a) p =
      then-Ends _ (quarantine_one-Ends listed e inv v s ev p)
        λ _ w s' h. quarantine_old_generation-Ends listed inv w s' a h
