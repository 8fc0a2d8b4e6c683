-- ===== src/A2a/Metadata/Depth.antt =====
-- Finite trees of permitted values, and what the check makes of them.
use agentops_open_course.Prelude.{
  ap, ◌∙◌, ℕ, zero, suc, ==_iff, ◌≡◌, ◌⊎◌, inl, inr, refl, arith, Bool, true, false, Bool-cases,
  List, [], ◌∷◌, all, All,
}
use agentops_open_course.A2a.Metadata.{
  at_place, Value, nothing, scalar, container, foreign, Memory, Check, accepted, exhausted,
  check_all, visits, validate_meta_value,
}

-- The values of a depth below `n` whose leaves are all permitted.
unfoldable pub has_depth : Memory → ℕ → Value → Bool
has_depth memory n nothing = true
has_depth memory n scalar = true
has_depth memory n (foreign i) = false
has_depth memory zero (container a) = false
has_depth memory (suc n) (container a) = all (has_depth memory n) (at_place memory a).elements

check_all_accepted :
    (f : Value → Check) (g : Value → Bool) (vs : List Value)
    → ((v : Value) → f v ≡ accepted → g v ≡ true)
    → check_all f vs ≡ accepted
    → all g vs ≡ true
check_all_accepted f g [] h e = refl
check_all_accepted f g (v ∷ vs) h e =
    ground (arith, h v, λ (q : check_all f vs ≡ accepted). check_all_accepted f g vs h q)

-- No more than the fuel may be exhausted.
abbrev Passes : Check → Type 0
Passes c = (c ≡ accepted) ⊎ (c ≡ exhausted)

check_all-Passes :
    (f : Value → Check) (g : Value → Bool) (vs : List Value)
    → ((v : Value) → g v ≡ true → Passes (f v))
    → all g vs ≡ true
    → Passes (check_all f vs)
check_all-Passes f g [] h e = inl refl
check_all-Passes f g (v ∷ vs) h e =
    ground (arith, h v, λ (q : all g vs ≡ true). check_all-Passes f g vs h q)

all_mono :
    (f g : Value → Bool) (vs : List Value)
    → ((v : Value) → f v ≡ true → g v ≡ true)
    → all f vs ≡ true
    → all g vs ≡ true
all_mono f g [] h e = refl
all_mono f g (v ∷ vs) h e = ground (arith, h v, λ (q : all f vs ≡ true). all_mono f g vs h q)

module _ (memory : Memory) where
  pub accepted_depth :
      (fuel : ℕ) (visiting : List ℕ) (v : Value)
      → validate_meta_value memory fuel visiting v ≡ accepted
      → has_depth memory fuel v ≡ true
  unfolding validate_meta_value has_depth
  accepted_depth fuel visiting nothing e = refl
  accepted_depth fuel visiting scalar e = refl
  accepted_depth fuel visiting (foreign i) e = absurd (ground (arith, e))
  accepted_depth zero visiting (container a) e = cc
  accepted_depth (suc fuel) visiting (container a) e =
      let c = at_place memory a in
      check_all_accepted (validate_meta_value memory fuel (c.identity ∷ visiting))
        (has_depth memory fuel) c.elements (accepted_depth fuel (c.identity ∷ visiting))
        (ground (arith, e))

  depth_suc : (n : ℕ) (v : Value) → has_depth memory n v ≡ true → has_depth memory (suc n) v ≡ true
  unfolding has_depth
  depth_suc n nothing h = refl
  depth_suc n scalar h = refl
  depth_suc n (foreign i) h = h
  depth_suc zero (container a) h = cc
  depth_suc (suc n) (container a) h =
      all_mono (has_depth memory n) (has_depth memory (suc n)) (at_place memory a).elements
        (depth_suc n) h

  -- The least depth of a container that has one: its elements lie below, and it does not itself.
  least :
      (n : ℕ) (a : ℕ)
      → has_depth memory n (container a) ≡ true
      → (k : ℕ) × (has_depth memory k (container a) ≡ false)
        × (has_depth memory (suc k) (container a) ≡ true)
        × ((b : ℕ)
            → has_depth memory n (container b) ≡ false
            → has_depth memory k (container b) ≡ false)
  unfolding has_depth
  least zero a h = cc
  least (suc n) a h = elim (Bool-cases (has_depth memory n (container a))) [
    | inr e ↦ (n, e, h, down)
    | inl e ↦ let (k, p, q, r) = least n a e in (k, p, q, λ b g. r b (down b g))
  ]
    where
      down :
          (b : ℕ)
          → has_depth memory (suc n) (container b) ≡ false
          → has_depth memory n (container b) ≡ false
      down b g = ground (arith, g, depth_suc n (container b))

  -- No container of this identity has the depth.
  abbrev pub Deeper : ℕ → ℕ → Type 0
  Deeper n i = (b : ℕ) → (at_place memory b).identity ≡ i → has_depth memory n (container b) ≡ false

  visits_none :
      (n a : ℕ) (visiting : List ℕ)
      → has_depth memory n (container a) ≡ true
      → All (Deeper n) visiting
      → visits visiting (at_place memory a).identity ≡ false
  visits_none n a [] h k = refl
  visits_none n a (i ∷ visiting) h (k, ks) =
      ground (arith, ==_iff (at_place memory a).identity i, k a, h, visits_none n a visiting h ks)

  All-down :
      (n k : ℕ) (visiting : List ℕ)
      → ((b : ℕ)
          → has_depth memory n (container b) ≡ false
          → has_depth memory k (container b) ≡ false)
      → All (Deeper n) visiting
      → All (Deeper k) visiting
  All-down n k [] r h = tt
  All-down n k (i ∷ visiting) r (h, hs) = (λ b e. r b (h b e), All-down n k visiting r hs)

-- Containers of one identity have the same elements: there are no two slices of one start and of
-- different lengths.
abbrev pub HasNoAlias : Memory → Type 0
HasNoAlias memory =
    (a b : ℕ)
    → (at_place memory a).identity ≡ (at_place memory b).identity
    → (at_place memory a).elements ≡ (at_place memory b).elements

module _ (memory : Memory) (no_alias : HasNoAlias memory) where
  same_depth :
      (n a b : ℕ)
      → (at_place memory a).identity ≡ (at_place memory b).identity
      → has_depth memory n (container a) ≡ has_depth memory n (container b)
  unfolding has_depth
  same_depth zero a b e = refl
  same_depth (suc n) a b e = ap (all (has_depth memory n)) (no_alias a b e)

  pub depth-Passes :
      (fuel n : ℕ) (visiting : List ℕ) (v : Value)
      → All (Deeper memory n) visiting
      → has_depth memory n v ≡ true
      → Passes (validate_meta_value memory fuel visiting v)
  unfolding validate_meta_value has_depth
  depth-Passes fuel n visiting nothing h d = inl refl
  depth-Passes fuel n visiting scalar h d = inl refl
  depth-Passes fuel n visiting (foreign i) h d = cc
  depth-Passes zero n visiting (container a) h d = inr refl
  depth-Passes (suc fuel) n visiting (container a) h d =
      let c = at_place memory a in
      let (k, p, q, r) = least memory n a d in
      let deeper : Deeper memory k c.identity = λ b e. same_depth k b a e ∙ p in
      rw (visits_none memory n a visiting d h) (
        check_all-Passes (validate_meta_value memory fuel (c.identity ∷ visiting))
          (has_depth memory k) c.elements
          (λ v e.
            depth-Passes fuel k (c.identity ∷ visiting) v (deeper, All-down memory n k visiting r h)
              e)
          q)
