-- ===== src/State/Maps/Laws.antt =====
-- What the operations on a directory do to its entries.
use agentops_open_course.Prelude.{
  ◌≡◌, refl, ap, sym, ◌∙◌, true, Bool-cases, inl, inr, [], ◌∷◌, Option, none, some, if◌then◌else◌,
  Text, text_eq, text_lt, text_lt_irrefl, text_lt_trans, text_lt_total, text_eq_iff, text_eq_self,
  arith, subst,
}
use agentops_open_course.State.Maps.Defs.{Map, lookup, put, erase, sole, Above, Sorted}

module _ {ℓ} {V : Type ℓ} where
  pub lookup-put :
      (j k : Text) (v : V) (m : Map V)
      → lookup j (put k v m) ≡ (if text_eq j k then some v else lookup j m)
  unfolding lookup put
  lookup-put j k v [] = refl
  lookup-put j k v ((i, w) ∷ m) =
      ground (arith, lookup-put j k v m, text_eq_iff j k, text_eq_iff k i, text_eq_iff j i)

  pub lookup-erase :
      (j k : Text) (m : Map V) → lookup j (erase k m) ≡ (if text_eq j k then none else lookup j m)
  unfolding lookup erase
  lookup-erase j k [] = ground arith
  lookup-erase j k ((i, w) ∷ m) =
      ground (arith, lookup-erase j k m, text_eq_iff j k, text_eq_iff k i, text_eq_iff j i)

  Above-trans : (j k : Text) (m : Map V) → text_lt j k ≡ true → Above k m → Above j m
  Above-trans j k [] h a = tt
  Above-trans j k ((i, w) ∷ m) h (a, b) = (text_lt_trans j k i h a, Above-trans j k m h b)

  lookup-Above : (j k : Text) (m : Map V) → Above k m → text_eq j k ≡ true → lookup j m ≡ none
  unfolding lookup
  lookup-Above j k [] a h = refl
  lookup-Above j k ((i, w) ∷ m) (a, b) h =
      let e : j ≡ k = (text_eq_iff j k).0 h in
      ground (arith, e, text_eq_iff j i, text_lt_irrefl k, lookup-Above j k m b h)

  put-Above :
      (j k : Text) (v : V) (m : Map V) → text_lt j k ≡ true → Above j m → Above j (put k v m)
  unfolding put
  put-Above j k v [] h a = (h, tt)
  put-Above j k v ((i, w) ∷ m) h (a, b) = elim (Bool-cases (text_eq k i)) [
    | inl e ↦ rw e (h, b)
    | inr n ↦ elim (Bool-cases (text_lt k i)) [
      | inl l ↦ rw (n, l) (h, (a, b))
      | inr l ↦ rw (n, l) (a, put-Above j k v m h b)
    ]
  ]

  pub put-Sorted : (k : Text) (v : V) (m : Map V) → Sorted m → Sorted (put k v m)
  unfolding put
  put-Sorted k v [] h = (tt, tt)
  put-Sorted k v ((i, w) ∷ m) (a, b) = elim (Bool-cases (text_eq k i)) [
    | inl e ↦ rw e (subst (λ t. Above t m) (sym ((text_eq_iff k i).0 e)) a, b)
    | inr n ↦ elim (Bool-cases (text_lt k i)) [
      | inl l ↦ rw (n, l) ((l, Above-trans k i m l a), (a, b))
      | inr l ↦ rw (n, l) (put-Above i k v m (text_lt_total k i n l) a, put-Sorted k v m b)
    ]
  ]

  erase-Above : (j k : Text) (m : Map V) → Above j m → Above j (erase k m)
  unfolding erase
  erase-Above j k [] a = tt
  erase-Above j k ((i, w) ∷ m) (a, b) = elim (Bool-cases (text_eq k i)) [
    | inl e ↦ rw e (erase-Above j k m b)
    | inr n ↦ rw n (a, erase-Above j k m b)
  ]

  pub erase-Sorted : (k : Text) (m : Map V) → Sorted m → Sorted (erase k m)
  unfolding erase
  erase-Sorted k [] h = tt
  erase-Sorted k ((i, w) ∷ m) (a, b) = elim (Bool-cases (text_eq k i)) [
    | inl e ↦ rw e (erase-Sorted k m b)
    | inr n ↦ rw n (erase-Above i k m a, erase-Sorted k m b)
  ]

  erase_absent : (k : Text) (m : Map V) → Above k m → erase k m ≡ m
  unfolding erase
  erase_absent k [] a = refl
  erase_absent k ((i, w) ∷ m) (a, b) =
      ground (arith, a, text_eq_iff k i, text_lt_irrefl i, erase_absent k m b)

  -- The first entry is the only one of its name.
  pub erase_first : (k : Text) (v : V) (m : Map V) → Sorted ((k, v) ∷ m) → erase k ((k, v) ∷ m) ≡ m
  unfolding erase
  erase_first k v m (a, b) = rw (text_eq_self k) (erase_absent k m a)

  pub lookup-tail :
      (j k : Text) (v : V) (m : Map V)
      → Sorted ((k, v) ∷ m)
      → lookup j m ≡ (if text_eq j k then none else lookup j ((k, v) ∷ m))
  unfolding lookup
  lookup-tail j k v m (a, b) = ground (arith, lookup-Above j k m a)

  pub lookup_first : (k : Text) (v : V) (m : Map V) → lookup k ((k, v) ∷ m) ≡ some v
  unfolding lookup
  lookup_first k v m = rw (text_eq_self k)

  pub lookup-sole : (k : Text) (o : Option V) → lookup k (sole k o) ≡ o
  unfolding lookup
  lookup-sole k none = refl
  lookup-sole k (some v) = rw (text_eq_self k)

  pub put-sole : (k : Text) (v : V) (o : Option V) → put k v (sole k o) ≡ sole k (some v)
  unfolding put
  put-sole k v none = refl
  put-sole k v (some w) = rw (text_eq_self k)

  pub erase-sole : (k : Text) (o : Option V) → erase k (sole k o) ≡ sole k none
  unfolding erase
  erase-sole k none = refl
  erase-sole k (some w) = rw (text_eq_self k)

  lookup_before :
      (j k : Text) (w : V) (n : Map V)
      → text_lt j k ≡ true
      → Above k n
      → lookup j ((k, w) ∷ n) ≡ none
  unfolding lookup
  lookup_before j k w n l b = ground (
    arith,
    l,
    text_eq_iff j k,
    text_lt_irrefl j,
    lookup-Above j j n (Above-trans j k n l b) (text_eq_self j),
  )

  -- Two sorted directories with the same entries are the same list.
  pub Sorted-eq :
      (m n : Map V) → Sorted m → Sorted n → ((k : Text) → lookup k m ≡ lookup k n) → m ≡ n
  Sorted-eq [] [] s t h = refl
  Sorted-eq [] ((k, v) ∷ n) s t h = absurd (unfold lookup in ground (arith, h k, text_eq_self k))
  Sorted-eq ((k, v) ∷ m) [] s t h = absurd (unfold lookup in ground (arith, h k, text_eq_self k))
  Sorted-eq ((j, v) ∷ m) ((k, w) ∷ n) (a, s) (b, t) h = elim (Bool-cases (text_eq j k)) [
    | inl e ↦
        let same : j ≡ k = (text_eq_iff j k).0 e in
        let here : some v ≡ some w =
          sym (lookup_first j v m)
          ∙ h j
          ∙ ap (λ i. lookup i ((k, w) ∷ n)) same
          ∙ lookup_first k w n in
        let rest = Sorted-eq m n s t (λ i.
          lookup-tail i j v m (a, s)
          ∙ ap (λ (o : Option V). if text_eq i j then none else o) (h i)
          ∙ rw same (sym (lookup-tail i k w n (b, t)))) in
        ground (arith, same, here, rest)
    | inr n' ↦ elim (Bool-cases (text_lt j k)) [
      | inl l ↦ absurd (ground (arith, h j, lookup_first j v m, lookup_before j k w n l b))
      | inr g ↦ absurd (
          ground (arith, h k, lookup_first k w n, lookup_before k j v m (text_lt_total j k n' g) a))
    ]
  ]
