-- ===== src/Prelude/Regex.antt =====
-- Regular expressions of the standard library's `regexp`, for the patterns that the code anchors
-- at both ends: `MatchString` is then membership in the language. The matcher takes derivatives,
-- and `Matches` is the meaning of a pattern.
use agentops_open_course.Prelude.Tests.{Bool-cases, if◌then◌else◌}
use agentops_open_course.Prelude.Texts.{Text}
use Prim.Native.Nat.{ℕ}
use mathlib.Core.Path.{◌≡◌, refl, sym, ap, ◌∙◌, subst}
use mathlib.Core.Logic.{◌↔◌, ◌⊎◌, inl, inr}
use mathlib.Core.Bool.{Bool, true, false, ◌&&◌, ◌||◌}
use mathlib.Core.List.{[], ◌∷◌, ◌++◌}
use native.Mathlib.Omega.{arith}

pub data Regex : Type 0 where
  never : Regex
  eps : Regex
  class : (ℕ → Bool) → Regex
  seq alt : Regex → Regex → Regex
  star : Regex → Regex

pub data Matches : Regex → Text → Type 0 where
  of_eps : {s : Text} → s ≡ [] → Matches eps s
  of_class : {p : ℕ → Bool} {s : Text} (c : ℕ) → s ≡ c ∷ [] → p c ≡ true → Matches (class p) s
  of_seq :
      {r q : Regex} {u : Text} (s t : Text)
      → u ≡ s ++ t
      → Matches r s
      → Matches q t
      → Matches (seq r q) u
  of_left : {r q : Regex} {s : Text} → Matches r s → Matches (alt r q) s
  of_right : {r q : Regex} {s : Text} → Matches q s → Matches (alt r q) s
  of_none : {r : Regex} {s : Text} → s ≡ [] → Matches (star r) s
  of_more :
      {r : Regex} {u : Text} (s t : Text)
      → u ≡ s ++ t
      → Matches r s
      → Matches (star r) t
      → Matches (star r) u

nullable : Regex → Bool
nullable never = false
nullable eps = true
nullable (class p) = false
nullable (seq r q) = nullable r && nullable q
nullable (alt r q) = nullable r || nullable q
nullable (star r) = true

deriv : ℕ → Regex → Regex
deriv c never = never
deriv c eps = never
deriv c (class p) = if p c then eps else never
deriv c (seq r q) = if nullable r then alt (seq (deriv c r) q) (deriv c q) else seq (deriv c r) q
deriv c (alt r q) = alt (deriv c r) (deriv c q)
deriv c (star r) = seq (deriv c r) (star r)

unfoldable pub matches : Regex → Text → Bool
unfolding nullable deriv
matches r [] = nullable r
matches r (c ∷ s) = matches (deriv c r) s

nullable_sound : (r : Regex) → nullable r ≡ true → Matches r []
unfolding nullable
nullable_sound never h = cc
nullable_sound eps h = of_eps refl
nullable_sound (class p) h = cc
nullable_sound (seq r q) h =
    of_seq [] [] refl (nullable_sound r (ground arith)) (nullable_sound q (ground arith))
nullable_sound (alt r q) h = elim (Bool-cases (nullable r)) [
  | inl e ↦ of_left (nullable_sound r e)
  | inr e ↦ of_right (nullable_sound q (ground arith))
]
nullable_sound (star r) h = of_none refl

nullable_complete : {r : Regex} {u : Text} → Matches r u → u ≡ [] → nullable r ≡ true
unfolding nullable
nullable_complete (of_eps e) h = refl
nullable_complete (of_class c e p) h = cc
nullable_complete (of_seq [] t e a b) h =
    rw (nullable_complete a refl) (nullable_complete b (sym e ∙ h))
nullable_complete (of_seq (c ∷ s) t e a b) h = cc
nullable_complete (of_left a) h = rw (nullable_complete a h)
nullable_complete (of_right {r} a) h = ground (arith, nullable_complete a h)
nullable_complete (of_none e) h = refl
nullable_complete (of_more s t e a b) h = refl

inv_never : {s : Text} → Matches never s → ⊥
inv_never m = elim m [ ]

inv_eps : {s : Text} → Matches eps s → s ≡ []
inv_eps (of_eps e) = e

pub inv_class :
    {p : ℕ → Bool} {s : Text} → Matches (class p) s → (c : ℕ) × (s ≡ c ∷ []) × (p c ≡ true)
inv_class (of_class c e h) = (c, e, h)

pub inv_seq :
    {r q : Regex} {u : Text}
    → Matches (seq r q) u
    → (s : Text) × (t : Text) × (u ≡ s ++ t) × Matches r s × Matches q t
inv_seq (of_seq s t e a b) = (s, t, e, a, b)

pub inv_alt : {r q : Regex} {s : Text} → Matches (alt r q) s → Matches r s ⊎ Matches q s
inv_alt (of_left a) = inl a
inv_alt (of_right b) = inr b

seq_cons :
    {r r' q : Regex} (c : ℕ) (s : Text)
    → ((t : Text) → Matches r' t → Matches r (c ∷ t))
    → Matches (seq r' q) s
    → Matches (seq r q) (c ∷ s)
seq_cons c s f m = let (a, b, e, ma, mb) = inv_seq m in of_seq (c ∷ a) b (ap (◌∷◌ c) e) (f a ma) mb

-- A word of the derivative by `c` is a word of the pattern without its first `c`.
deriv_sound : (c : ℕ) (r : Regex) (s : Text) → Matches (deriv c r) s → Matches r (c ∷ s)
unfolding deriv
deriv_sound c never s m = absurd (inv_never m)
deriv_sound c eps s m = absurd (inv_never m)
deriv_sound c (class p) s m = elim (Bool-cases (p c)) [
  | inl h ↦ of_class c (ap (◌∷◌ c) (inv_eps (rw h at m))) h
  | inr h ↦ absurd (inv_never (rw h at m))
]
deriv_sound c (seq r q) s m = elim (Bool-cases (nullable r)) [
  | inl h ↦ elim (inv_alt (rw h at m)) [
    | inl a ↦ seq_cons c s (deriv_sound c r) a
    | inr b ↦ of_seq [] (c ∷ s) refl (nullable_sound r h) (deriv_sound c q s b)
  ]
  | inr h ↦ seq_cons c s (deriv_sound c r) (rw h at m)
]
deriv_sound c (alt r q) s m = elim (inv_alt m) [
  | inl a ↦ of_left (deriv_sound c r s a)
  | inr b ↦ of_right (deriv_sound c q s b)
]
deriv_sound c (star r) s m =
    let (a, b, e, ma, mb) = inv_seq m in of_more (c ∷ a) b (ap (◌∷◌ c) e) (deriv_sound c r a ma) mb

deriv_complete :
    {r : Regex} {u : Text} → Matches r u → (c : ℕ) (s : Text) → u ≡ c ∷ s → Matches (deriv c r) s
unfolding deriv
deriv_complete (of_eps e) c s h = absurd (cc)
deriv_complete (of_class {p} d e y) c s h =
    let same : d ≡ c = cc in
    let empty : s ≡ [] = cc in rw (subst (λ x. p x ≡ true) same y) (of_eps empty)
deriv_complete (of_seq {r} {q} [] t e a b) c s h =
    rw (nullable_complete a refl) (of_right (deriv_complete b c s (sym e ∙ h)))
deriv_complete (of_seq {r} {q} (d ∷ a') t e a b) c s h =
    let m : Matches (seq (deriv c r) q) s = of_seq a' t (cc) (deriv_complete a c a' (cc)) b in
    elim (Bool-cases (nullable r)) [ inl n ↦ rw n (of_left m) | inr n ↦ rw n m ]
deriv_complete (of_left a) c s h = of_left (deriv_complete a c s h)
deriv_complete (of_right b) c s h = of_right (deriv_complete b c s h)
deriv_complete (of_none e) c s h = absurd (cc)
deriv_complete (of_more [] t e a b) c s h = deriv_complete b c s (sym e ∙ h)
deriv_complete (of_more (d ∷ a') t e a b) c s h = of_seq a' t (cc) (deriv_complete a c a' (cc)) b

pub matches_iff : (r : Regex) (s : Text) → (matches r s ≡ true) ↔ Matches r s
unfolding matches
matches_iff r [] = (nullable_sound r, λ m. nullable_complete m refl)
matches_iff r (c ∷ s) =
    let rest = matches_iff (deriv c r) s in
    (λ h. deriv_sound c r s (rest.0 h), λ m. rest.1 (deriv_complete m c s refl))
