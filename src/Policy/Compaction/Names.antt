-- ===== src/Policy/Compaction/Names.antt =====
-- The names of the tools that a compaction notes.
use agentops_open_course.Prelude.{
  Text, List, ◌∷◌, Option, text_eq, ◌++◌, ◌≡◌, Bool, [], true, ◌||◌, false, any, some, arith,
  text_eq_iff, text_eq_ne, subst, none, text_ne, ◌∙◌, refl, sym, Option-cases, inl, inr, Bool-cases,
  contains,
}
use agentops_open_course.Policy.Compaction.{
  tool_names, earlier_tool_names, names_of_parts, Content, Part, called_name, add_name,
}

-- No name stands twice.
abbrev pub Distinct : List Text → Type 0
Distinct [] = Unit {0}
Distinct (n ∷ names) = (contains names n ≡ false) × Distinct names

contains-append :
    (names : List Text) (m n : Text)
    → contains (names ++ m ∷ []) n ≡ (contains names n || text_eq n m)
contains-append [] m n = ground arith
contains-append (k ∷ names) m n = ground (arith, contains-append names m n)

text_eq_sym : (m n : Text) → text_eq m n ≡ false → text_eq n m ≡ false
text_eq_sym m n h = text_eq_ne n m (λ e. text_ne m n h (sym e))

Distinct-add :
    (names : List Text) (n : Text)
    → Distinct names
    → contains names n ≡ false
    → Distinct (names ++ n ∷ [])
Distinct-add [] n h k = (refl, tt)
Distinct-add (m ∷ names) n (h, hs) k =
    let other = text_eq_sym n m (ground (arith, k)) in
    (contains-append names n m ∙ rw (h, other) refl, Distinct-add names n hs (ground (arith, k)))

contains_self :
    (names : List Text) (m n : Text)
    → contains names m ≡ true
    → text_eq n m ≡ true
    → contains names n ≡ true
contains_self names m n h k =
    let (to, from) = text_eq_iff n m in subst (λ t. contains names t ≡ true) (sym (to k)) h

-- Whether a part, or a message, calls the tool.
abbrev name_is : Text → Option Text → Bool
name_is n none = false
name_is n (some m) = text_eq n m

abbrev part_calls : Text → Option Part → Bool
part_calls n part = name_is n (called_name part)

abbrev pub calls : Text → Option Content → Bool
calls n none = false
calls n (some content) = any (part_calls n) content.parts

add_some :
    (names : List Text) (m n : Text)
    → contains (add_name names (some m)) n ≡ (contains names n || text_eq n m)
add_some names m n = elim (Bool-cases (contains names m)) [
  | inr k ↦ rw k (contains-append names m n)
  | inl k ↦ elim (Bool-cases (text_eq n m)) [
    | inl same ↦ ground (arith, k, same, contains_self names m n k same)
    | inr other ↦ ground (arith, k, other)
  ]
]

add_name-contains :
    (names : List Text) (name : Option Text) (n : Text)
    → contains (add_name names name) n ≡ (contains names n || name_is n name)
add_name-contains names none n = ground arith
add_name-contains names (some m) n = add_some names m n

add_name-Distinct :
    (names : List Text) (part : Option Part)
    → Distinct names
    → Distinct (add_name names (called_name part))
add_name-Distinct names part d = elim (Option-cases (called_name part)) [
  | inl h ↦ rw h d
  | inr (m, h) ↦ rw h (elim (Bool-cases (contains names m)) [
    | inl k ↦ rw k d
    | inr k ↦ rw k (Distinct-add names m d k)
  ])
]

names_of_parts_lem :
    (parts : List (Option Part)) (names : List Text)
    → Distinct names
    → Distinct (names_of_parts parts names)
      × ((n : Text)
          → contains (names_of_parts parts names) n
            ≡ (contains names n || any (part_calls n) parts))
unfolding names_of_parts
names_of_parts_lem [] names d = (d, λ n. ground arith)
names_of_parts_lem (p ∷ parts) names d =
    let (a, b) =
      names_of_parts_lem parts (add_name names (called_name p)) (add_name-Distinct names p d) in
    (a, λ n. ground (arith, b n, add_name-contains names (called_name p) n))

tool_names_lem :
    (contents : List (Option Content)) (names : List Text)
    → Distinct names
    → Distinct (tool_names contents names)
      × ((n : Text)
          → contains (tool_names contents names) n ≡ (contains names n || any (calls n) contents))
unfolding tool_names
tool_names_lem [] names d = (d, λ n. ground arith)
tool_names_lem (none ∷ rest) names d =
    let (a, b) = tool_names_lem rest names d in (a, λ n. ground (arith, b n))
tool_names_lem (some content ∷ rest) names d =
    let (e, f) = names_of_parts_lem content.parts names d in
    let (a, b) = tool_names_lem rest (names_of_parts content.parts names) e in
    (a, λ n. ground (arith, b n, f n))

-- The names that a compaction notes are those of the tools called in the messages it takes out, each
-- of them once.
pub earlier_tool_names_lem :
    (contents : List (Option Content))
    → Distinct (earlier_tool_names contents)
      × ((name : Text) → contains (earlier_tool_names contents) name ≡ any (calls name) contents)
unfolding earlier_tool_names
earlier_tool_names_lem contents = tool_names_lem contents [] tt
