-- ===== src/Tools/Logs/Newest.antt =====
-- Which lines a search returns.
use agentops_open_course.Prelude.{
  append_assoc, append_nil, ◌||◌, ℤ, pos, ltb_ℤ, ℕ, zero, suc, ◌-◌, ◌≤◌, ◌≡◌, ◌∙◌, refl, sym, ap,
  arith, Bool, false, Bool-cases, Option-cases, inl, inr, List, [], ◌∷◌, ◌++◌, Option, none, some,
  if◌then◌else◌, Text, ltb, take, length, length-append, get_elem?,
}
use agentops_open_course.Domain.Identifier.{Unicode, normalize_slug}
use agentops_open_course.Tools.Logs.{
  Logs, found, matched, accepts_line, limit_of, read_service_logs, min_log_search_limit,
  max_log_search_limit, search_lines,
}

abbrev pub keep : (Text → Bool) → List Text → List Text
keep accepts [] = []
keep accepts (x ∷ xs) = if accepts x then x ∷ keep accepts xs else keep accepts xs

-- The lines below an index, the last one first.
unfoldable pub back_from : List Text → ℕ → List Text
back_from lines zero = []
back_from lines (suc i) = elim (get_elem? lines i) [
  | none ↦ back_from lines i
  | some line ↦ line ∷ back_from lines i
]

back-none :
    (lines : List Text) (i : ℕ)
    → get_elem? lines i ≡ none
    → back_from lines (suc i) ≡ back_from lines i
unfolding back_from
back-none lines i q = rw (back_from, q) refl

back-some :
    (lines : List Text) (i : ℕ) (line : Text)
    → get_elem? lines i ≡ some line
    → back_from lines (suc i) ≡ line ∷ back_from lines i
unfolding back_from
back-some lines i line q = rw (back_from, q) refl

take_nil : (n : ℕ) → take {A = Text} n [] ≡ []
take_nil zero = refl
take_nil (suc n) = refl

module _ (accepts : Text → Bool) (lines : List Text) where
  nothing : (n : ℕ) → take n (keep accepts (back_from lines zero)) ≡ []
  unfolding back_from
  nothing n = take_nil n

module _ (accepts : Text → Bool) (limit : ℕ) (lines : List Text) where
  search_lines_lem :
      (i : ℕ) (matches : List Text)
      → length matches ≤ limit
      → search_lines accepts limit lines i matches
        ≡ matches ++ take (limit - length matches) (keep accepts (back_from lines i))
  unfolding search_lines
  search_lines_lem zero matches h =
      sym (ap (◌++◌ matches) (nothing accepts lines (limit - length matches)) ∙ append_nil matches)
  search_lines_lem (suc i) matches h = elim (Bool-cases (ltb (length matches) limit)) [
    | inr full ↦
        let z : limit - length matches ≡ 0 = ground (arith, h, full) in
        rw (full, z) (sym (append_nil matches))
    | inl room ↦ elim (Option-cases (get_elem? lines i)) [
      | inl q ↦ rw (room, q, back-none lines i q) (search_lines_lem i matches h)
      | inr (line, q) ↦ elim (Bool-cases (accepts line)) [
        | inr fails ↦ rw (room, q, back-some lines i line q, fails) (search_lines_lem i matches h)
        | inl fits ↦
            let more = matches ++ line ∷ [] in
            let one = length-append matches (line ∷ []) in
            let less : limit - length matches ≡ suc (limit - length more) =
              ground (arith, room, one) in
            let tail = take (limit - length more) (keep accepts (back_from lines i)) in
            let ih = search_lines_lem i more (ground (arith, room, one)) in
            rw (room, q, back-some lines i line q, fits, less)
              (ih ∙ append_assoc matches (line ∷ []) tail)
      ]
    ]
  ]

-- The lines from the last to the first.
unfoldable pub newest_first : List Text → List Text
newest_first [] = []
newest_first (x ∷ xs) = newest_first xs ++ x ∷ []

back_from-cons :
    (x : Text) (xs : List Text) (i : ℕ) → back_from (x ∷ xs) (suc i) ≡ back_from xs i ++ x ∷ []
unfolding back_from
back_from-cons x xs zero = refl
back_from-cons x xs (suc i) = elim (Option-cases (get_elem? xs i)) [
  | inl q ↦
      back-none (x ∷ xs) (suc i) q
      ∙ back_from-cons x xs i
      ∙ ap (λ (ls : List Text). ls ++ x ∷ []) (sym (back-none xs i q))
  | inr (y, q) ↦
      back-some (x ∷ xs) (suc i) y q
      ∙ ap (◌∷◌ y) (back_from-cons x xs i)
      ∙ ap (λ (ls : List Text). ls ++ x ∷ []) (sym (back-some xs i y q))
]

back_from-end : (lines : List Text) → back_from lines (length lines) ≡ newest_first lines
unfolding back_from newest_first
back_from-end [] = refl
back_from-end (x ∷ xs) =
    back_from-cons x xs (length xs) ∙ ap (λ (ls : List Text). ls ++ x ∷ []) (back_from-end xs)

search_lines-newest :
    (accepts : Text → Bool) (limit : ℕ) (lines : List Text)
    → search_lines accepts limit lines (length lines) []
      ≡ take limit (keep accepts (newest_first lines))
search_lines-newest accepts limit lines =
    let zero_taken : limit - 0 ≡ limit = omega arith in
    search_lines_lem accepts limit lines (length lines) [] (omega arith)
    ∙ ap (λ (ls : List Text). take (limit - 0) (keep accepts ls)) (back_from-end lines)
    ∙ ap (λ (n : ℕ). take n (keep accepts (newest_first lines))) zero_taken

-- A search in the log of a service that has one, with a limit from 1 to 100, or none for 20, in a
-- context that has not expired, returns the lines that hold the query in any case, or all
-- lines for a blank query, the last ones of the log first, up to the limit, and their number.
pub read_service_logs_lem :
    (u : Unicode) (logs : Logs) (service slug query : Text) (limit : Option ℤ) (n : ℕ)
    (lines : List Text)
    → normalize_slug u service ≡ some slug
    → limit_of limit ≡ pos n
    → 1 ≤ n
    → n ≤ 100
    → logs.expired ≡ false
    → logs.read slug ≡ found lines
    → read_service_logs u logs service query limit
      ≡ matched slug
          (length (take n (keep (accepts_line u query) (newest_first lines))))
          (take n (keep (accepts_line u query) (newest_first lines)))
unfolding read_service_logs
read_service_logs_lem u logs service slug query limit n lines named limited low high live here =
    let inside : (ltb_ℤ (pos n) (pos min_log_search_limit)
          || ltb_ℤ (pos max_log_search_limit) (pos n))
        ≡ false =
      ground (arith, low, high) in
    rw (read_service_logs, named, limited, inside, live, here, limited)
      (ap (λ (ls : List Text). matched slug (length ls) ls)
        (search_lines-newest (accepts_line u query) n lines))
