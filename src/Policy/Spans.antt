-- ===== src/Policy/Spans.antt =====
-- agents/go/policy/pii.go: the spans of detected entities and their masks. A text is its bytes. The
-- matches of a compiled regular expression are a parameter: a recognizer brings its own search.
pub mod Analysis
pub mod Masking
use agentops_open_course.Prelude.{
  ℕ, ◌+◌, ◌-◌, Bool, true, false, not, ◌&&◌, ◌||◌, List, [], ◌∷◌, ◌++◌, ltb, ◌==◌, any,
  if◌then◌else◌, Text, codes, take, drop, leb, text_lt,
}

pub data Entity : Type 0 where
  credit_card email iban ip mac phone ssn ca_sin : Entity

abbrev pub name_of : Entity → Text
name_of credit_card = codes "CREDIT_CARD"
name_of email = codes "EMAIL_ADDRESS"
name_of iban = codes "IBAN_CODE"
name_of ip = codes "IP_ADDRESS"
name_of mac = codes "MAC_ADDRESS"
name_of phone = codes "PHONE_NUMBER"
name_of ssn = codes "US_SSN"
name_of ca_sin = codes "CA_SIN"

abbrev pub mask : Entity → Text
mask e = b'<' ∷ (name_of e ++ b'>' ∷ [])

abbrev pub entity_eq : Entity → Entity → Bool
entity_eq credit_card credit_card = true
entity_eq email email = true
entity_eq iban iban = true
entity_eq ip ip = true
entity_eq mac mac = true
entity_eq phone phone = true
entity_eq ssn ssn = true
entity_eq ca_sin ca_sin = true
entity_eq _ _ = false

pub record Span : Type 0 where
  pub entity : Entity
  pub start : ℕ
  pub end : ℕ

abbrev pub overlaps : Span → Span → Bool
overlaps s other = ltb s.start other.end && ltb other.start s.end

abbrev pub overlaps_any : Span → List Span → Bool
overlaps_any s others = any (overlaps s) others

-- The entities that a redaction looks for.
abbrev pub persisted_policy : List Entity
persisted_policy = ca_sin ∷ credit_card ∷ email ∷ iban ∷ ip ∷ phone ∷ ssn ∷ []

abbrev pub boundary_policy : List Entity
boundary_policy = persisted_policy ++ mac ∷ []

abbrev pub wants : List Entity → Entity → Bool
wants entities name = any (entity_eq name) entities

-- A recognizer: what it looks for, all matches of its pattern, and the check of a match.
pub record Recognizer : Type 0 where
  pub entity : Entity
  pub find_all : Text → List Span
  pub validate : Text → Bool

abbrev pub slice : Text → ℕ → ℕ → Text
slice text from to = take (to - from) (drop from text)

-- The matches that pass the check, under the recognizer's entity.
found_by : Recognizer → Text → List Span → List Span
found_by r text [] = []
found_by r text (m ∷ ms) =
    let rest = found_by r text ms in
    if r.validate (slice text m.start m.end) then record m { entity = r.entity } ∷ rest else rest

unfoldable pub match_recognizers : List Recognizer → Text → (Entity → Bool) → List Span
unfolding found_by
match_recognizers [] text wanted = []
match_recognizers (r ∷ rs) text wanted =
    let rest = match_recognizers rs text wanted in
    if wanted r.entity then found_by r text (r.find_all text) ++ rest else rest

-- The domain-safe matches that lie in no container.
unfoldable pub protected_spans : List Span → List Span → List Span
protected_spans [] containers = []
protected_spans (m ∷ ms) containers =
    let rest = protected_spans ms containers in if overlaps_any m containers then rest else m ∷ rest

-- `index` is inside a span.
abbrev pub covered : ℕ → List Span → Bool
covered index spans = any (λ s. leb s.start index && ltb index s.end) spans

mask_from : ℕ → List Span → Text → Text
mask_from index protected [] = []
mask_from index protected (c ∷ text) =
    (if covered index protected then b'_' else c) ∷ mask_from (index + 1) protected text

unfoldable pub mask_protected : Text → List Span → Text
unfolding mask_from
mask_protected text protected = mask_from 0 protected text

-- The candidates that overlap neither a protected span nor a container.
unfoldable pub admissible : List Span → List Span → List Span → List Span
admissible [] protected containers = []
admissible (c ∷ cs) protected containers =
    let rest = admissible cs protected containers in
    if overlaps_any c protected || overlaps_any c containers then rest else c ∷ rest

-- The email addresses, which are recognized first.
abbrev pub containers_of : List Recognizer → List Entity → Text → List Span
containers_of rs policy text =
    if wants policy email then match_recognizers rs text (λ n. entity_eq n email) else []

-- `analyze`, for the recognizers and the bounded matches of the domain-safe pattern.
unfoldable pub analyze : List Recognizer → (Text → List Span) → List Entity → Text → List Span
unfolding match_recognizers protected_spans mask_protected admissible
analyze rs safe_matches policy text =
    let containers = containers_of rs policy text in
    let protected = protected_spans (safe_matches text) containers in
    let residual =
      match_recognizers rs (mask_protected text protected)
        (λ n. not (entity_eq n email) && wants policy n) in
    containers ++ admissible residual protected containers

-- Earliest first, then longest, then by the entity's name.
abbrev pub before : Span → Span → Bool
before l r =
    ltb l.start r.start
    || (l.start == r.start
        && (ltb r.end l.end || (l.end == r.end && text_lt (name_of l.entity) (name_of r.entity))))

unfoldable pub insert_span : Span → List Span → List Span
insert_span s [] = s ∷ []
insert_span s (t ∷ ts) = if before t s then t ∷ insert_span s ts else s ∷ t ∷ ts

unfoldable pub sort_spans : List Span → List Span
unfolding insert_span
sort_spans [] = []
sort_spans (s ∷ ss) = insert_span s (sort_spans ss)

-- The loop of `maskSpans` over the ordered spans, from the bytes `written`.
unfoldable pub mask_ordered : Text → ℕ → List Span → Text
mask_ordered text written [] = drop written text
mask_ordered text written (s ∷ ss) =
    let skipped = mask_ordered text written ss in
    let masked = slice text written s.start ++ (mask s.entity ++ mask_ordered text s.end ss) in
    if ltb s.start written then skipped else masked

unfoldable pub mask_spans : Text → List Span → Text
unfolding sort_spans mask_ordered
mask_spans text spans = mask_ordered text 0 (sort_spans spans)
