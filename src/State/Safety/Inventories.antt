-- ===== src/State/Safety/Inventories.antt =====
-- The inventory that is taken of a generation records it.
use agentops_open_course.Prelude.{
  ◌≡◌, refl, sym, ap, ◌∙◌, arith, inl, inr, [], ◌∷◌, none, some, Text, All, length, text_eq,
  text_eq_iff, text_eq_self, Bool-cases,
}
use agentops_open_course.State.Maps.{lookup, Sorted, lookup-tail}
use agentops_open_course.State.Disk.{Files, find, Digest, evidence_of, inventory_of}
use agentops_open_course.State.Safety.Records.{
  Records, Evident, Entries, Entries_lem, Distinct, evidence_in,
}

module _ ⦃digest : Digest⦄ where
  find-inventory_of :
      (fs : Files) (k : Text) → find k (inventory_of fs) ≡ evidence_in k (lookup k fs)
  unfolding find inventory_of lookup
  find-inventory_of [] k = refl
  find-inventory_of ((j, c) ∷ fs) k = elim (Bool-cases (text_eq k j)) [
    | inl e ↦ rw e (ap (λ i. some (evidence_of i c)) (sym ((text_eq_iff k j).0 e)))
    | inr n ↦ rw n (find-inventory_of fs k)
  ]

  length-inventory_of : (fs : Files) → length fs ≡ length (inventory_of fs)
  unfolding inventory_of
  length-inventory_of [] = refl
  length-inventory_of ((j, c) ∷ fs) = ground (arith, length-inventory_of fs)

  Evident-in :
      (gs fs : Files)
      → Entries (λ k c. lookup k gs ≡ some c) fs
      → All (Evident gs) (inventory_of fs)
  unfolding inventory_of
  Evident-in gs [] h = tt
  Evident-in gs ((k, c) ∷ fs) (h, hs) = ((c, h, refl), Evident-in gs fs hs)

  Distinct-inventory_of : (fs : Files) → Sorted fs → Distinct (inventory_of fs)
  unfolding inventory_of
  Distinct-inventory_of [] s = tt
  Distinct-inventory_of ((k, c) ∷ fs) (a, s) =
      let gone : lookup k fs ≡ none = ground (arith, lookup-tail k k c fs (a, s), text_eq_self k) in
      (find-inventory_of fs k ∙ ap (evidence_in k) gone, Distinct-inventory_of fs s)

  pub inventory_of-Records : (fs : Files) → Sorted fs → Records (inventory_of fs) fs
  inventory_of-Records fs s = record {
    found = λ k. find-inventory_of fs k;
    counted = length-inventory_of fs;
    each = Evident-in fs fs (Entries_lem (λ k c. lookup k fs ≡ some c) fs s (λ k c h. h));
    distinct = Distinct-inventory_of fs s;
  }
