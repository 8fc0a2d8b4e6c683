-- ===== src/Domain/Identifier.antt =====
-- agents/go/domain/identifier.go. A text is its sequence of code points. The tables of Unicode
-- that `strings.TrimSpace`, `ToUpper` and `ToLower` read are a parameter; `none` is the error.
pub mod Shapes
pub mod Normal
use agentops_open_course.Prelude.{
  ℕ, Bool, true, false, ◌&&◌, ◌||◌, List, [], ◌∷◌, Option, none, some, map, leb, ltb, ◌==◌, ◌-◌,
  ◌+◌, ◌<◌, ◌≡◌, if◌then◌else◌, Text, codes, text_eq,
}
use agentops_open_course.Prelude.Regex.{Regex, eps, class, seq, alt, star, matches}

abbrev pub is_digit : ℕ → Bool
is_digit c = leb b'0' c && leb c b'9'

abbrev pub is_lower : ℕ → Bool
is_lower c = leb b'a' c && leb c b'z'

-- `[a-z0-9]`.
abbrev pub is_word : ℕ → Bool
is_word c = is_lower c || is_digit c

abbrev pub plus : Regex → Regex
plus r = seq r (star r)

abbrev pub literal : Text → Regex
literal [] = eps
literal (c ∷ s) = seq (class (λ x. x == c)) (literal s)

-- `^INC-[0-9]+$`.
abbrev pub incident_id_pattern : Regex
incident_id_pattern = seq (literal (codes "INC-")) (plus (class is_digit))

-- `^[a-z0-9]+(?:-[a-z0-9]+)*$`.
abbrev pub slug_pattern : Regex
slug_pattern =
    seq (plus (class is_word)) (star (seq (class (λ x. x == b'-')) (plus (class is_word))))

unfoldable pub parse_incident_id : Text → Option Text
parse_incident_id value = if matches incident_id_pattern value then some value else none

unfoldable pub parse_slug : Text → Option Text
parse_slug value = if matches slug_pattern value then some value else none

-- `unicode.IsSpace`, `unicode.ToUpper` and `unicode.ToLower`.
pub record Unicode : Type 0 where
  pub is_space : ℕ → Bool
  pub to_upper : ℕ → ℕ
  pub to_lower : ℕ → ℕ

-- What their documentation says of ASCII.
pub record IsAscii (u : Unicode) : Type 0 where
  pub space : (c : ℕ) → c < 128 → u.is_space c ≡ (c == 32 || (leb 9 c && leb c 13))
  pub upper : (c : ℕ) → c < 128 → u.to_upper c ≡ (if is_lower c then c - 32 else c)
  pub lower : (c : ℕ) → c < 128 → u.to_lower c ≡ (if leb b'A' c && leb c b'Z' then c + 32 else c)

module _ (u : Unicode) where
  trim_left : Text → Text
  trim_left [] = []
  trim_left (c ∷ s) = let rest = trim_left s in if u.is_space c then rest else c ∷ s

  trim_right : Text → Text
  trim_right [] = []
  trim_right (c ∷ s) =
      let rest = trim_right s in if text_eq rest [] && u.is_space c then [] else c ∷ rest

  unfoldable pub trim_space : Text → Text
  unfolding trim_left trim_right
  trim_space s = trim_right (trim_left s)

  unfoldable pub normalize_incident_id : Text → Option Text
  unfolding trim_space parse_incident_id
  normalize_incident_id value = parse_incident_id (map u.to_upper (trim_space value))

  unfoldable pub normalize_slug : Text → Option Text
  unfolding trim_space parse_slug
  normalize_slug value = parse_slug (map u.to_lower (trim_space value))

-- `requireNonEmpty`, as its test: the field is reported when the value is empty.
unfoldable pub require_non_empty {ℓ} : {A : Type ℓ} → A → Text → Option A
require_non_empty field value = if text_eq value [] then some field else none
