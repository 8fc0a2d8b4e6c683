-- ===== src/Policy/Compaction.antt =====
-- agents/go/policy/compaction.go: the bound on the messages of a request. A message or a part of one
-- may be missing, as a nil pointer is; of a function call only the name is read, of a function
-- response that it is there.
pub mod Window
pub mod Names
use agentops_open_course.Prelude.{
  List, ℕ, Text, Option, some, Bool, ◌∷◌, length, ◌+◌, [], codes, false, any, none, ◌++◌, ◌-◌, suc,
  if◌then◌else◌, ◌/◌, drop, leb, text_eq, true, ltb, take, ◌%◌, zero, contains,
}

pub record Part : Type 0 where
  pub text : Text
  pub function_call : Option Text
  pub function_response : Option Text

pub record Content : Type 0 where
  pub role : Text
  pub parts : List (Option Part)

abbrev marker_role : Text
marker_role = codes "user"

abbrev is_response : Option Part → Bool
is_response none = false
is_response (some part) = elim part.function_response [ some _ ↦ true | none ↦ false ]

abbrev pub has_function_response : Option Content → Bool
has_function_response none = false
has_function_response (some content) = any is_response content.parts

-- The name of a call, if the part is one that has a name.
abbrev pub called_name : Option Part → Option Text
called_name none = none
called_name (some part) = elim part.function_call [
  | none ↦ none
  | some name ↦ if text_eq name [] then none else some name
]

abbrev pub add_name : List Text → Option Text → List Text
add_name names none = names
add_name names (some name) = if contains names name then names else names ++ name ∷ []

unfoldable pub names_of_parts : List (Option Part) → List Text → List Text
names_of_parts [] names = names
names_of_parts (part ∷ rest) names = names_of_parts rest (add_name names (called_name part))

unfoldable pub tool_names : List (Option Content) → List Text → List Text
unfolding names_of_parts
tool_names [] names = names
tool_names (none ∷ rest) names = tool_names rest names
tool_names (some content ∷ rest) names = tool_names rest (names_of_parts content.parts names)

unfoldable pub earlier_tool_names : List (Option Content) → List Text
unfolding tool_names
earlier_tool_names contents = tool_names contents []

-- The decimal numeral, with as many steps as it has digits.
abbrev itoa_steps : ℕ → ℕ → Text
itoa_steps zero n = []
itoa_steps (suc steps) n =
    let front = itoa_steps steps (n / 10) in
    (if ltb n 10 then [] else front) ++ (b'0' + n % 10) ∷ []

abbrev itoa : ℕ → Text
itoa n = itoa_steps (n + 1) n

abbrev join : List Text → Text
join [] = []
join (name ∷ []) = name
join (name ∷ next ∷ names) = name ++ (codes ", " ++ join (next ∷ names))

abbrev tools_note : List Text → Text
tools_note [] = []
tools_note (name ∷ names) = codes "; tools used earlier: " ++ join (name ∷ names)

unfoldable pub compaction_marker : List (Option Content) → Content
unfolding earlier_tool_names
compaction_marker elided = record {
  role = marker_role;
  parts =
      some record {
        text =
            codes "[history compacted: "
            ++ (itoa (length elided)
                ++ (codes " earlier message(s) elided to bound context"
                    ++ (tools_note (earlier_tool_names elided) ++ codes "]")));
        function_call = none;
        function_response = none;
      }
      ∷ [];
}

-- How far the loop moves the cut, on the messages from the cut on: past function responses, but
-- never past the last message.
unfoldable pub advance : List (Option Content) → ℕ
advance [] = 0
advance (c ∷ []) = 0
advance (c ∷ d ∷ rest) = if has_function_response c then suc (advance (d ∷ rest)) else 0

unfoldable pub cut_of : List (Option Content) → ℕ → ℕ
unfolding advance
cut_of contents keep = let cut = length contents - keep in cut + advance (drop cut contents)

-- `CompactHistory`, as the change it makes to the messages of the request.
unfoldable pub compact_history :
    Option ℕ → Option (List (Option Content)) → Option (List (Option Content))
unfolding cut_of compaction_marker
compact_history none request = request
compact_history (some keep) none = none
compact_history (some keep) (some contents) =
    let cut = cut_of contents keep in
    if leb (length contents) keep
    then some contents
    else some (some (compaction_marker (take cut contents)) ∷ drop cut contents)
