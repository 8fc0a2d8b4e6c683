-- ===== src/State/Safety/Records.antt =====
-- An inventory that records the files of a generation, and the checks that it passes.
use agentops_open_course.Prelude.{
  ◌≡◌, refl, sym, ap, ◌∙◌, subst, Bool, true, ◌||◌, [], ◌∷◌, Option, none, some, Text, arith, ◌⊎◌,
  inl, inr, All, all, length, text_eq_self, ==_iff, ◌==◌,
}
use agentops_open_course.State.Maps.{lookup, Sorted, lookup-tail, lookup_first}
use agentops_open_course.State.Disk.{
  Files, FileEvidence, Inventory, find, Digest, evidence_of, matches_evidence, Problem, Machine,
}
use agentops_open_course.State.Evidence.{
  sound, residue_problem, validate_residue, validate_live_subset, require_complete_generation,
  assert_exact_live_inventory, named_in, matched_in, all_live,
}

-- Every entry of a directory.
abbrev pub Entries : (Text → Text → Type 0) → Files → Type 0
Entries P fs = All (λ f. P f.0 f.1) fs

-- What holds of each name that is found holds of each entry.
pub Entries_lem :
    (P : Text → Text → Type 0) (fs : Files)
    → Sorted fs
    → ((k c : Text) → lookup k fs ≡ some c → P k c)
    → Entries P fs
Entries_lem P [] s h = tt
Entries_lem P ((k, c) ∷ fs) s h =
    (h k c (lookup_first k c fs), Entries_lem P fs s.1 λ j d e. h j d (found j d e))
  where
    found : (j d : Text) → lookup j fs ≡ some d → lookup j ((k, c) ∷ fs) ≡ some d
    found j d e = ground (arith, lookup-tail j k c fs s, e)

-- No name is recorded twice.
abbrev pub Distinct : Inventory → Type 0
Distinct [] = Unit {0}
Distinct (e ∷ inv) = (find e.filename inv ≡ none) × Distinct inv

-- Each file of the directory is a file of the generation.
abbrev pub Part : Files → Files → Type 0
Part fs gs = (k : Text) → (lookup k fs ≡ none) ⊎ (lookup k fs ≡ lookup k gs)

-- Each live file is of one of the two generations.
abbrev pub Either : Files → Files → Files → Type 0
Either live fs gs =
    (k : Text)
    → (lookup k live ≡ none) ⊎ ((lookup k live ≡ lookup k fs) ⊎ (lookup k live ≡ lookup k gs))

module _ ⦃digest : Digest⦄ where
  pub matches_evidence_self : (k c : Text) → matches_evidence (some c) (evidence_of k c) ≡ true
  matches_evidence_self k c =
      rw ((==_iff (length c) (length c)).1 refl, text_eq_self (digest.hash c))

  abbrev pub evidence_in : Text → Option Text → Option FileEvidence
  evidence_in k none = none
  evidence_in k (some c) = some (evidence_of k c)

  -- The evidence of a file that the generation has.
  abbrev pub Evident : Files → FileEvidence → Type 0
  Evident fs e = (c : Text) × (lookup e.filename fs ≡ some c) × (e ≡ evidence_of e.filename c)

  pub record Records (inv : Inventory) (fs : Files) : Type 0 where
    pub found : (k : Text) → find k inv ≡ evidence_in k (lookup k fs)
    pub counted : length fs ≡ length inv
    pub each : All (Evident fs) inv
    pub distinct : Distinct inv

  residue_problem_lem :
      (fs : Files) (inv : Inventory)
      → Entries (λ k c. find k inv ≡ some (evidence_of k c)) fs
      → residue_problem fs inv ≡ none
  unfolding residue_problem
  residue_problem_lem [] inv h = refl
  residue_problem_lem ((k, c) ∷ fs) inv (h, hs) =
      rw (residue_problem, h, matches_evidence_self k c) (residue_problem_lem fs inv hs)

  part_found :
      {inv : Inventory} {gs : Files}
      → Records inv gs
      → (fs : Files) → Part fs gs
      → (k c : Text) → lookup k fs ≡ some c
      → find k inv ≡ some (evidence_of k c)
  part_found r fs p k c e = elim (p k) [
    | inl h ↦ absurd (cc)
    | inr h ↦ r.found k ∙ ap (evidence_in k) (sym h ∙ e)
  ]

  pub validate_residue_lem :
      {inv : Inventory} {gs : Files}
      → Records inv gs
      → (fs : Files) (required : Bool) → Sorted fs
      → Part fs gs
      → validate_residue (some fs) inv required ≡ sound fs
  unfolding validate_residue
  validate_residue_lem {inv} r fs required s p = rw (
    validate_residue,
    residue_problem_lem fs inv
        (Entries_lem (λ k c. find k inv ≡ some (evidence_of k c)) fs s (part_found r fs p)),
  )

  abbrev Evidenced : Inventory → Inventory → Text → Text → Type 0
  Evidenced old new k c =
      (find k old ≡ some (evidence_of k c)) ⊎ (find k new ≡ some (evidence_of k c))

  named_lem :
      (old new : Inventory) (k c : Text)
      → Evidenced old new k c
      → (named_in k old || named_in k new) ≡ true
  unfolding named_in
  named_lem old new k c (inl h) = rw (named_in, h)
  named_lem old new k c (inr h) = ground (arith, h)

  matched_lem :
      (old new : Inventory) (k c : Text)
      → Evidenced old new k c
      → (matched_in k c old || matched_in k c new) ≡ true
  unfolding matched_in
  matched_lem old new k c (inl h) = rw (matched_in, h, matches_evidence_self k c)
  matched_lem old new k c (inr h) =
      let e : matched_in k c new ≡ true = rw (matched_in, h, matches_evidence_self k c) in
      ground (arith, e)

  all_lem :
      (p : Text × Text → Bool) (fs : Files) → Entries (λ k c. p (k, c) ≡ true) fs → all p fs ≡ true
  all_lem p [] h = refl
  all_lem p ((k, c) ∷ fs) (h, hs) = rw h (all_lem p fs hs)

  evidenced_lem :
      {old new : Inventory} {fs gs : Files}
      → Records old fs
      → Records new gs
      → (live : Files) → Either live fs gs
      → (k c : Text) → lookup k live ≡ some c
      → Evidenced old new k c
  evidenced_lem r q live h k c e = elim (h k) [
    | inl n ↦ absurd (cc)
    | inr (inl o) ↦ inl (r.found k ∙ ap (evidence_in k) (sym o ∙ e))
    | inr (inr o) ↦ inr (q.found k ∙ ap (evidence_in k) (sym o ∙ e))
  ]

  pub validate_live_subset_lem :
      {old new : Inventory} {fs gs : Files}
      → Records old fs
      → Records new gs
      → (live : Files) → Sorted live
      → Either live fs gs
      → validate_live_subset live old new ≡ none
  unfolding validate_live_subset
  validate_live_subset_lem {old} {new} r q live s h =
      let here = Entries_lem (Evidenced old new) live s (evidenced_lem r q live h) in
      rw (
        validate_live_subset,
        all_lem (λ f. named_in f.0 old || named_in f.0 new) live
            (Entries_lem (λ k c. (named_in k old || named_in k new) ≡ true) live s
              (λ k c e. named_lem old new k c (evidenced_lem r q live h k c e))),
        all_lem (λ f. matched_in f.0 f.1 old || matched_in f.0 f.1 new) live
            (Entries_lem (λ k c. (matched_in k c old || matched_in k c new) ≡ true) live s
              (λ k c e. matched_lem old new k c (evidenced_lem r q live h k c e))),
      )

  complete_lem :
      (fs : Files) (inv : Inventory) (held live : Files) (missing : Problem)
      → All (Evident fs) inv
      → ((k : Text) → (lookup k held ≡ lookup k fs) ⊎ (lookup k live ≡ lookup k fs))
      → require_complete_generation inv held live missing ≡ none
  unfolding require_complete_generation
  complete_lem fs [] held live missing a h = refl
  complete_lem fs (e ∷ inv) held live missing ((c, l, m), a) h =
      let rest = complete_lem fs inv held live missing a h in
      let match : matches_evidence (some c) e ≡ true =
        subst (λ x. matches_evidence (some c) x ≡ true) (sym m)
          (matches_evidence_self e.filename c) in
      elim (h e.filename) [
        | inl x ↦ rw (require_complete_generation, x ∙ l) rest
        | inr x ↦ go (lookup e.filename held) refl x match rest
      ]
    where
      go :
          (o : Option Text)
          → lookup e.filename held ≡ o
          → lookup e.filename live ≡ lookup e.filename fs
          → matches_evidence (some c) e ≡ true
          → require_complete_generation inv held live missing ≡ none
          → require_complete_generation (e ∷ inv) held live missing ≡ none
      go none n x match rest = rw (require_complete_generation, n, x ∙ l, match) rest
      go (some d) n x match rest = rw (require_complete_generation, n) rest

  pub require_complete_generation_lem :
      {inv : Inventory} {fs : Files}
      → Records inv fs
      → (held live : Files) (missing : Problem)
      → ((k : Text) → (lookup k held ≡ lookup k fs) ⊎ (lookup k live ≡ lookup k fs))
      → require_complete_generation inv held live missing ≡ none
  require_complete_generation_lem {inv} {fs} r held live missing h =
      complete_lem fs inv held live missing r.each h

  all_live_lem : (fs : Files) (inv : Inventory) → All (Evident fs) inv → all_live inv fs ≡ none
  unfolding all_live
  all_live_lem fs [] a = refl
  all_live_lem fs (e ∷ inv) ((c, l, m), a) =
      let match : matches_evidence (some c) e ≡ true =
        subst (λ x. matches_evidence (some c) x ≡ true) (sym m)
          (matches_evidence_self e.filename c) in
      rw (all_live, l, match) (all_live_lem fs inv a)

  pub assert_exact_live_inventory_lem :
      {inv : Inventory} {fs : Files}
      → Records inv fs
      → (m : Machine) → m.live ≡ fs
      → assert_exact_live_inventory inv m ≡ none
  unfolding assert_exact_live_inventory
  assert_exact_live_inventory_lem {inv} {fs} r m e =
      let count : (length m.live == length inv) ≡ true =
        (==_iff (length m.live) (length inv)).1 (ap length e ∙ r.counted) in
      let every : all_live inv m.live ≡ none = rw e (all_live_lem fs inv r.each) in
      rw (assert_exact_live_inventory, count) every
