-- ===== src/Domain/Identifier/Normal.antt =====
-- The lenient forms: what surrounding space and letter case they forgive.
use mathlib.Core.List.{append-nil}
use agentops_open_course.Prelude.{
  ℕ, ◌<◌, true, false, not, [], ◌∷◌, ◌++◌, some, map, ◌≡◌, ◌≢◌, refl, sym, ◌∙◌, subst, arith, all,
  Text, and-true, text_eq,
}
use agentops_open_course.Domain.Identifier.{
  parse_incident_id, parse_slug, Unicode, IsAscii, trim_left, trim_right, trim_space,
  normalize_incident_id, normalize_slug,
}
use agentops_open_course.Domain.Identifier.Shapes.{
  parse_incident_id_iff, parse_slug-safe, is_slug_char,
}

module _ (u : Unicode) where
  -- No character of the text is a space.
  abbrev pub IsSolid : Text → Type 0
  IsSolid s = all (λ c. not (u.is_space c)) s ≡ true

  trim_left_pad : (a s : Text) → all u.is_space a ≡ true → trim_left u (a ++ s) ≡ trim_left u s
  unfolding trim_left
  trim_left_pad [] s h = refl
  trim_left_pad (c ∷ a) s h =
      let (x, y) = and-true (u.is_space c) (all u.is_space a) h in rw x (trim_left_pad a s y)

  trim_left_solid : (s b : Text) → s ≢ [] → IsSolid s → trim_left u (s ++ b) ≡ s ++ b
  unfolding trim_left
  trim_left_solid [] b ne h = absurd (ne refl)
  trim_left_solid (c ∷ s) b ne h = ground arith

  trim_right_spaces : (b : Text) → all u.is_space b ≡ true → trim_right u b ≡ []
  unfolding trim_right text_eq
  trim_right_spaces [] h = refl
  trim_right_spaces (c ∷ b) h =
      let (x, y) = and-true (u.is_space c) (all u.is_space b) h in rw (trim_right_spaces b y, x)

  trim_right_pad : (s b : Text) → IsSolid s → all u.is_space b ≡ true → trim_right u (s ++ b) ≡ s
  unfolding trim_right
  trim_right_pad [] b h k = trim_right_spaces b k
  trim_right_pad (c ∷ s) b h k =
      let (x, y) = and-true (not (u.is_space c)) (all (λ d. not (u.is_space d)) s) h in
      rw (trim_right_pad s b y k) (ground arith)

  trim_space_pad :
      (a s b : Text)
      → all u.is_space a ≡ true
      → all u.is_space b ≡ true
      → s ≢ []
      → IsSolid s
      → trim_space u (a ++ (s ++ b)) ≡ s
  unfolding trim_space
  trim_space_pad a s b h k ne solid =
      rw (trim_left_pad a (s ++ b) h, trim_left_solid s b ne solid) (trim_right_pad s b solid k)

map-ne-nil : (f : ℕ → ℕ) (s t : Text) → map f s ≡ t → t ≢ [] → s ≢ []
map-ne-nil f [] t e ne h = ne (sym e)
map-ne-nil f (c ∷ s) t e ne h = cc

-- `NormalizeIncidentID` accepts every spelling that its upper-casing turns into a canonical
-- identifier, with any space around it, and returns the canonical identifier.
pub normalize_incident_id_lenient :
    (u : Unicode) (a s b t : Text)
    → all u.is_space a ≡ true
    → all u.is_space b ≡ true
    → IsSolid u s
    → map u.to_upper s ≡ t
    → parse_incident_id t ≡ some t
    → normalize_incident_id u (a ++ (s ++ b)) ≡ some t
unfolding normalize_incident_id
normalize_incident_id_lenient u a s b t h k solid e good =
    let (_, (digits, shape, _, _)) = (parse_incident_id_iff t t).0 good in
    let full : t ≢ [] = λ z. cc in
    rw (trim_space_pad u a s b h k (map-ne-nil u.to_upper s t e full) solid, e) good

-- The same for `NormalizeSlug` and lower-casing.
pub normalize_slug_lenient :
    (u : Unicode) (a s b t : Text)
    → all u.is_space a ≡ true
    → all u.is_space b ≡ true
    → IsSolid u s
    → map u.to_lower s ≡ t
    → parse_slug t ≡ some t
    → normalize_slug u (a ++ (s ++ b)) ≡ some t
unfolding normalize_slug
normalize_slug_lenient u a s b t h k solid e good =
    let full = (parse_slug-safe t t good).0 in
    rw (trim_space_pad u a s b h k (map-ne-nil u.to_lower s t e full) solid, e) good

-- A character that lower-casing keeps and that is no space.
slug_char_keeps :
    (u : Unicode) (c : ℕ)
    → IsAscii u
    → is_slug_char c ≡ true
    → (u.to_lower c ≡ c) × (u.is_space c ≡ false)
slug_char_keeps u c v h =
    let small : c < 128 = ground arith in
    (v.lower c small ∙ ground arith, v.space c small ∙ ground arith)

slug_keeps :
    (u : Unicode) (s : Text)
    → IsAscii u
    → all is_slug_char s ≡ true
    → (map u.to_lower s ≡ s) × IsSolid u s
slug_keeps u [] v h = (refl, refl)
slug_keeps u (c ∷ s) v h =
    let (x, y) = and-true (is_slug_char c) (all is_slug_char s) h in
    let (low, solid) = slug_char_keeps u c v x in
    let (lows, solids) = slug_keeps u s v y in (rw (low, lows), rw (solid, solids))

slug_of_parse : (s t : Text) → parse_slug s ≡ some t → parse_slug t ≡ some t
unfolding parse_slug
slug_of_parse s t h = ground arith

-- Normalising a slug again gives the same slug.
pub normalize_slug_twice :
    (u : Unicode) (s t : Text)
    → IsAscii u
    → normalize_slug u s ≡ some t
    → normalize_slug u t ≡ some t
unfolding normalize_slug
normalize_slug_twice u s t v h =
    let good = slug_of_parse _ t h in
    let (lows, solid) = slug_keeps u t v (parse_slug-safe t t good).1 in
    subst (λ x. normalize_slug u x ≡ some t) (append-nil t)
      (normalize_slug_lenient u [] t [] t refl refl solid lows good)
