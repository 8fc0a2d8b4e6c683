-- ===== src/Domain/Identifier/Shapes.antt =====
-- What the two patterns accept.
use agentops_open_course.Prelude.{
  ℕ, Bool, true, ◌||◌, List, [], ◌∷◌, ◌++◌, none, some, ◌≡◌, ◌≢◌, ◌↔◌, inl, inr, refl, ap, ◌∙◌,
  arith, all, All, ◌==◌, Bool-cases, if◌then◌else◌, Text, codes, and-true,
}
use agentops_open_course.Prelude.Regex.{
  Regex, class, seq, star, Matches, of_eps, of_class, of_seq, of_none, of_more, matches,
  matches_iff, inv_class, inv_seq,
}
use agentops_open_course.Domain.Identifier.{
  is_digit, is_word, plus, literal, incident_id_pattern, slug_pattern, parse_incident_id,
  parse_slug,
}

-- A star of one class is a text of that class.
star_class : {p : ℕ → Bool} {s : Text} → Matches (star (class p)) s → all p s ≡ true
star_class {p} (of_none e) = rw e
star_class {p} (of_more a t e m rest) =
    let (c, ea, h) = inv_class m in rw (e, ea, h) (star_class rest)

class_star : (p : ℕ → Bool) (s : Text) → all p s ≡ true → Matches (star (class p)) s
class_star p [] h = of_none refl
class_star p (c ∷ s) h =
    let (x, y) = and-true (p c) (all p s) h in
    of_more (c ∷ []) s refl (of_class c refl x) (class_star p s y)

plus_class : {p : ℕ → Bool} {s : Text} → Matches (plus (class p)) s → (s ≢ []) × (all p s ≡ true)
plus_class {p} m =
    let (a, b, e, ma, mb) = inv_seq m in
    let (c, ea, h) = inv_class ma in rw (e, ea) (λ z. cc, rw h (star_class mb))

class_plus : (p : ℕ → Bool) (s : Text) → s ≢ [] → all p s ≡ true → Matches (plus (class p)) s
class_plus p [] ne h = absurd (ne refl)
class_plus p (c ∷ s) ne h =
    let (x, y) = and-true (p c) (all p s) h in
    of_seq (c ∷ []) s refl (of_class c refl x) (class_star p s y)

literal_sound : (w : Text) {s : Text} → Matches (literal w) s → s ≡ w
literal_sound [] (of_eps e) = e
literal_sound (c ∷ w) m =
    let (a, b, e, ma, mb) = inv_seq m in
    let (d, ea, h) = inv_class ma in
    let same : d ≡ c = ground arith in rw (e, ea, same, literal_sound w mb)

literal_self : (w : Text) → Matches (literal w) w
literal_self [] = of_eps refl
literal_self (c ∷ w) = of_seq (c ∷ []) w refl (of_class c refl (ground arith)) (literal_self w)

parse_cases :
    (r : Regex) (s t : Text)
    → ((if matches r s then some s else none) ≡ some t) ↔ ((t ≡ s) × Matches r s)
parse_cases r s t = elim (Bool-cases (matches r s)) [
  | inl y ↦ (λ h. (ground arith, (matches_iff r s).0 y), λ (e, m). rw y (ground arith))
  | inr n ↦ (λ h. absurd (ground arith), λ (e, m). absurd (ground (arith, (matches_iff r s).1 m)))
]

-- `ParseIncidentID` accepts exactly "INC-" followed by one or more ASCII digits, and returns the
-- text unchanged.
pub parse_incident_id_iff :
    (s t : Text)
    → (parse_incident_id s ≡ some t) ↔ (
        (t ≡ s)
        × ((digits : Text) × (s ≡ codes "INC-" ++ digits)
            × (digits ≢ [])
            × (all is_digit digits ≡ true)))
unfolding parse_incident_id
parse_incident_id_iff s t =
    let read = parse_cases incident_id_pattern s t in
    (
      λ h.
          let (same, m) = read.0 h in
          let (a, digits, e, ma, mb) = inv_seq m in
          let (ne, ok) = plus_class mb in
          (same, (digits, e ∙ ap (λ x. x ++ digits) (literal_sound (codes "INC-") ma), ne, ok)),
      λ (same, (digits, e, ne, ok)). read.1 (
        same,
        of_seq (codes "INC-") digits e (literal_self (codes "INC-"))
            (class_plus is_digit digits ne ok),
      ),
    )

-- Further segments, each behind a hyphen.
abbrev pub hyphenated : List Text → Text
hyphenated [] = []
hyphenated (w ∷ ws) = b'-' ∷ (w ++ hyphenated ws)

abbrev pub IsSegment : Text → Type 0
IsSegment w = (w ≢ []) × (all is_word w ≡ true)

abbrev segment_pattern : Regex
segment_pattern = seq (class (λ x. x == b'-')) (plus (class is_word))

star_segments :
    {u : Text}
    → Matches (star segment_pattern) u
    → (ws : List Text) × All IsSegment ws × (u ≡ hyphenated ws)
star_segments (of_none e) = ([], tt, e)
star_segments (of_more a t e m rest) =
    let (ws, good, te) = star_segments rest in
    let (h, w, ae, mh, mw) = inv_seq m in
    let (c, he, hc) = inv_class mh in
    let hyphen : c ≡ b'-' = ground arith in
    (w ∷ ws, (plus_class mw, good), rw (e, ae, he, hyphen, te))

segments_star : (ws : List Text) → All IsSegment ws → Matches (star segment_pattern) (hyphenated ws)
segments_star [] good = of_none refl
segments_star (w ∷ ws) (g, good) =
    of_more (b'-' ∷ w) (hyphenated ws) refl
      (of_seq (b'-' ∷ []) w refl (of_class b'-' refl refl) (class_plus is_word w g.0 g.1))
      (segments_star ws good)

-- `ParseSlug` accepts exactly one or more non-empty segments of lower-case ASCII letters and
-- digits, with one hyphen between each two, and returns the text unchanged.
pub parse_slug_iff :
    (s t : Text)
    → (parse_slug s ≡ some t) ↔ (
        (t ≡ s)
        × ((w : Text) × (ws : List Text) × IsSegment w
            × All IsSegment ws
            × (s ≡ w ++ hyphenated ws)))
unfolding parse_slug
parse_slug_iff s t =
    let read = parse_cases slug_pattern s t in
    (
      λ h.
          let (same, m) = read.0 h in
          let (w, u, e, mw, mu) = inv_seq m in
          let (ws, good, ue) = star_segments mu in
          (same, (w, ws, plus_class mw, good, e ∙ ap (◌++◌ w) ue)),
      λ (same, (w, ws, g, good, e)).
          read.1 (
            same,
            of_seq w (hyphenated ws) e (class_plus is_word w g.0 g.1) (segments_star ws good),
          ),
    )

abbrev pub is_slug_char : ℕ → Bool
is_slug_char c = is_word c || c == b'-'

word-slug_char : (s : Text) → all is_word s ≡ true → all is_slug_char s ≡ true
word-slug_char [] h = refl
word-slug_char (c ∷ s) h = ground (arith, word-slug_char s)

all-append : (p : ℕ → Bool) (s t : Text) → all p s ≡ true → all p t ≡ true → all p (s ++ t) ≡ true
all-append p [] t h k = k
all-append p (c ∷ s) t h k = let (x, y) = and-true (p c) (all p s) h in rw x (all-append p s t y k)

hyphenated-slug_char : (ws : List Text) → All IsSegment ws → all is_slug_char (hyphenated ws) ≡ true
hyphenated-slug_char [] good = refl
hyphenated-slug_char (w ∷ ws) (g, good) =
    all-append is_slug_char w (hyphenated ws) (word-slug_char w g.1) (hyphenated-slug_char ws good)

append-ne-nil : (s t : Text) → s ≢ [] → s ++ t ≢ []
append-ne-nil [] t h e = h refl
append-ne-nil (c ∷ s) t h e = cc

-- A slug is not empty and has no character but `a` to `z`, `0` to `9` and the hyphen, so no "/",
-- "." or other part of a path traversal.
pub parse_slug-safe : (s t : Text) → parse_slug s ≡ some t → (t ≢ []) × (all is_slug_char t ≡ true)
parse_slug-safe s t h =
    let (same, (w, ws, g, good, e)) = (parse_slug_iff s t).0 h in
    rw (same, e)
      (
        append-ne-nil w (hyphenated ws) g.0,
        all-append is_slug_char w (hyphenated ws) (word-slug_char w g.1)
            (hyphenated-slug_char ws good),
      )
