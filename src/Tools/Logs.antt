-- ===== src/Tools/Logs.antt =====
-- agents/go/tools/read.go: the search in the logs of a service. The log files, the directory of them
-- and the expiry of the context are a parameter; the texts of errors are left out.
pub mod Newest
use agentops_open_course.Prelude.{
  ℕ, zero, suc, ◌+◌, ◌-◌, ◌==◌, Bool, true, false, ◌&&◌, ◌||◌, List, [], ◌∷◌, ◌++◌, map, Option,
  none, some, if◌then◌else◌, Text, codes, text_eq, ℤ, pos, pos_part, ltb, ltb_ℤ, take, length,
  get_elem?,
}
use agentops_open_course.Domain.Identifier.{Unicode, trim_space, normalize_slug}

-- What `ReadServiceLogs` returns for a slug: an error, no file, or its lines.
pub data LogRead : Type 0 where
  unreadable absent : LogRead
  found : List Text → LogRead

-- `listed` is the names in the directory, none for one that does not exist, or its error.
pub record Logs : Type 0 where
  pub expired : Bool
  pub read : Text → LogRead
  pub listed : Option (List Text)

pub data LogResult : Type 0 where
  invalid_service invalid_limit read_expired read_failed list_failed : LogResult
  no_logs : (available : List Text) → LogResult
  matched : (service : Text) (count : ℕ) (lines : List Text) → LogResult

abbrev pub min_log_search_limit : ℕ
min_log_search_limit = 1

abbrev pub max_log_search_limit : ℕ
max_log_search_limit = 100

abbrev pub default_log_search_limit : ℕ
default_log_search_limit = 20

-- `strings.HasPrefix` and `strings.Contains`.
abbrev pub has_prefix : Text → Text → Bool
has_prefix [] s = true
has_prefix (c ∷ p) [] = false
has_prefix (c ∷ p) (x ∷ s) = c == x && has_prefix p s

unfoldable pub contains_text : Text → Text → Bool
contains_text needle [] = has_prefix needle []
contains_text needle (x ∷ s) = has_prefix needle (x ∷ s) || contains_text needle s

-- `strings.CutSuffix`: the name before the extension, if it has it.
unfoldable pub before_suffix : Text → Text → Option Text
before_suffix suffix [] = if text_eq [] suffix then some [] else none
before_suffix suffix (c ∷ s) =
    let rest = before_suffix suffix s in
    if text_eq (c ∷ s) suffix then some [] else elim rest [ none ↦ none | some t ↦ some (c ∷ t) ]

unfoldable pub available_logs : List Text → List Text
unfolding before_suffix
available_logs [] = []
available_logs (name ∷ names) = elim (before_suffix (codes ".log") name) [
  | none ↦ available_logs names
  | some stem ↦ stem ∷ available_logs names
]

abbrev pub append_if : Bool → List Text → Option Text → List Text
append_if test matches none = matches
append_if test matches (some line) = if test then matches ++ line ∷ [] else matches

abbrev pub accepted_line : (Text → Bool) → Option Text → Bool
accepted_line accepts none = false
accepted_line accepts (some line) = accepts line

-- The loop, from the line before `index` downwards.
unfoldable pub search_lines : (Text → Bool) → ℕ → List Text → ℕ → List Text → List Text
search_lines accepts limit lines zero matches = matches
search_lines accepts limit lines (suc index) matches =
    let line = get_elem? lines index in
    let rest =
      search_lines accepts limit lines index
        (append_if (accepted_line accepts line) matches line) in
    if ltb (length matches) limit then rest else matches

unfoldable pub accepts_line : Unicode → Text → Text → Bool
unfolding contains_text
accepts_line u query line =
    let needle = map u.to_lower (trim_space u query) in
    text_eq needle [] || contains_text needle (map u.to_lower line)

abbrev pub limit_of : Option ℤ → ℤ
limit_of none = pos default_log_search_limit
limit_of (some n) = n

unfoldable pub read_service_logs : Unicode → Logs → Text → Text → Option ℤ → LogResult
unfolding available_logs search_lines accepts_line
read_service_logs u logs service query limit = elim (normalize_slug u service) [
  | none ↦ invalid_service
  | some slug ↦
      let n = limit_of limit in
      if ltb_ℤ n (pos min_log_search_limit) || ltb_ℤ (pos max_log_search_limit) n
      then invalid_limit
      else if logs.expired
      then read_expired
      else elim (logs.read slug) [
        | unreadable ↦ read_failed
        | absent ↦ elim logs.listed [
          | none ↦ list_failed
          | some names ↦ no_logs (available_logs names)
        ]
        | found lines ↦
            let lines' = search_lines (accepts_line u query) (pos_part n) lines (length lines) [] in
            matched slug (length lines') lines'
      ]
]
