-- ===== src/Policy/Tests.antt =====
-- The masks, the checksums and the compaction on small inputs.
use agentops_open_course.Prelude.{
  ◌≤◌, Text, Option, List, some, codes, ℕ, ◌∷◌, [], ◌≡◌, ◌++◌, refl, false, true, ◌<◌, arith, none,
  get_elem?, ◌↔◌, take, All, drop, ◌%◌, ◌-◌, ◌⊎◌, text_eq,
}
use agentops_open_course.Policy.Spans.{
  Span, mask_spans, sort_spans, analyze, Recognizer, phone, email, ip, boundary_policy,
  containers_of, protected_spans,
}
use agentops_open_course.Policy.Checksum.{
  is_valid_ssn, passes_luhn, passes_iban_checksum, passes_ca_sin_checksum,
}
use agentops_open_course.Policy.Compaction.{
  compact_history, Content, compaction_marker, has_function_response,
}
use agentops_open_course.Policy.Spans.Masking.{
  Spaced, Outside, mask_spans_hides, mask_spans_overlap,
}
use agentops_open_course.Policy.Checksum.Iban.{spelled, passes_iban_iff}
use agentops_open_course.Policy.Checksum.Luhn.{digit_changed}
use agentops_open_course.Policy.Spans.Analysis.{Apart, analyze-Apart}
use agentops_open_course.Policy.Compaction.Window.{compact_history_window}

abbrev call_text : Text
call_text = codes "call 415-555-2671 now"

abbrev other_text : Text
other_text = codes "call 212-555-0199 now"

abbrev number : Span
number = record { entity = phone; start = 5; end = 17 }

masked_call : mask_spans call_text (number ∷ []) ≡ codes "call <PHONE_NUMBER> now"
unfolding mask_spans
masked_call = refl

number-Spaced : Spaced 0 (sort_spans (number ∷ []))
unfolding sort_spans
number-Spaced = (omega arith, omega arith, tt)

agrees :
    (i : ℕ) → Outside i (sort_spans (number ∷ [])) → get_elem? call_text i ≡ get_elem? other_text i
unfolding sort_spans
agrees i (o, _) = ground (arith, o)

mask_spans_hides_example : mask_spans call_text (number ∷ []) ≡ mask_spans other_text (number ∷ [])
mask_spans_hides_example = mask_spans_hides call_text other_text (number ∷ []) number-Spaced agrees

-- A phone number that runs into a loose IPv6 address.
abbrev joined : Text
joined = codes "415-555-2671::1"

mask_spans_overlap_example :
    mask_spans joined (
      record { entity = phone; start = 0; end = 12 }
      ∷ record { entity = ip; start = 8; end = 15 }
      ∷ record { entity = ip; start = 4; end = 15 }
      ∷ [])
    ≡ mask_spans joined (record { entity = phone; start = 0; end = 12 } ∷ [])
mask_spans_overlap_example =
    mask_spans_overlap joined (record { entity = phone; start = 0; end = 12 })
      (record { entity = ip; start = 8; end = 15 }
        ∷ record { entity = ip; start = 4; end = 15 }
        ∷ [])
      ((omega arith, omega arith), ((omega arith, omega arith), tt))

-- A recognizer of addresses that sees one, and one of phone numbers.
abbrev finders : List Recognizer
finders =
    record {
      entity = email;
      find_all = λ t. record { entity = email; start = 0; end = 4 } ∷ [];
      validate = λ t. true;
    }
    ∷ record { entity = phone; find_all = λ t. number ∷ []; validate = λ t. true }
    ∷ []

analyze-Apart_example :
    (rest : List Span) × (analyze finders (λ t. []) boundary_policy call_text
      ≡ containers_of finders boundary_policy call_text ++ rest)
    × All
        (λ c.
          All
            (λ d. Apart d c)
            (protected_spans [] (containers_of finders boundary_policy call_text))
          × All (λ d. Apart d c) (containers_of finders boundary_policy call_text))
        rest
    × All
        (λ p. All (λ d. Apart d p) (containers_of finders boundary_policy call_text))
        (protected_spans [] (containers_of finders boundary_policy call_text))
analyze-Apart_example = analyze-Apart finders (λ t. []) boundary_policy call_text

digit_changed_example :
    (passes_luhn (codes "4111" ++ b'1' ∷ codes "11111111111") ≡ true
      → passes_luhn (codes "4111" ++ b'2' ∷ codes "11111111111") ≡ false)
    × (passes_ca_sin_checksum (codes "4111" ++ b'1' ∷ codes "11111111111") ≡ true
        → passes_ca_sin_checksum (codes "4111" ++ b'2' ∷ codes "11111111111") ≡ false)
digit_changed_example =
    digit_changed (codes "4111") (codes "11111111111") b'1' b'2' refl refl (omega arith)

card_passes : passes_luhn (codes "4111-1111 11111111") ≡ true
unfolding passes_luhn
card_passes = refl

ssn_refused : is_valid_ssn (codes "666-12-3456") ≡ false
unfolding is_valid_ssn
ssn_refused = refl

iban_passes : passes_iban_checksum (codes "GB82WEST12345698765432") ≡ true
unfolding passes_iban_checksum
iban_passes = refl

passes_iban_iff_example : (passes_iban_checksum (codes "GB82WEST12345698765432") ≡ true) ↔ (
    (15 ≤ 22)
    × (22 ≤ 34)
    × ((value : ℕ) × (spelled (codes "WEST12345698765432GB82") 0 ≡ some value) × (value % 97 ≡ 1)))
passes_iban_iff_example = passes_iban_iff (codes "GB82WEST12345698765432")

abbrev call : Option Content
call = some record {
  role = codes "model";
  parts =
      some
        record { text = []; function_call = some (codes "get_incident"); function_response = none }
      ∷ [];
}

abbrev response : Option Content
response = some record {
  role = codes "user";
  parts =
      some
        record { text = []; function_call = none; function_response = some (codes "get_incident") }
      ∷ [];
}

abbrev history : List (Option Content)
history = call ∷ response ∷ call ∷ response ∷ call ∷ []

compacted :
    compact_history (some 2) (some history)
    ≡ some (
        some record {
          role = codes "user";
          parts =
              some record {
                text =
                    codes
                      "[history compacted: 4 earlier message(s) elided to bound context; tools used earlier: get_incident]";
                function_call = none;
                function_response = none;
              }
              ∷ [];
        }
        ∷ call
        ∷ [])
unfolding compact_history text_eq
compacted = refl

compact_history_window_example :
    ((5 ≤ 2) → compact_history (some 2) (some history) ≡ some history)
    × ((2 < 5)
        → (cut : ℕ) × (3 ≤ cut)
          × (cut < 5)
          × (compact_history (some 2) (some history)
              ≡ some (some (compaction_marker (take cut history)) ∷ drop cut history))
          × All (λ c. has_function_response c ≡ true) (take (cut - 3) (drop 3 history))
          × ((c : Option Content) × (rest : List (Option Content)) × (drop cut history ≡ c ∷ rest)
              × ((has_function_response c ≡ false) ⊎ (rest ≡ []))))
compact_history_window_example = compact_history_window 2 history (omega arith)
