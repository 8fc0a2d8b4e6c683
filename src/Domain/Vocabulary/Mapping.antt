-- ===== src/Domain/Vocabulary/Mapping.antt =====
-- When one vocabulary maps to another, and back.
use agentops_open_course.Domain.Vocabulary.Duplicates.{
  occurrences, seen, text_eq_sym, increment-seen, duplicate_values-contains,
}
use agentops_open_course.Domain.Vocabulary.{
  ltb, increment, tally, Count, pair_up, insert_text, duplicate_values, Replacement, repeated,
  mapping, Vocabulary, values, mapped, duplicate_values_error, target_vocabulary, source_vocabulary,
  MappingResult, checked,
}
use agentops_open_course.Prelude.{
  List, Text, Bool, ◌≡◌, all, true, ◌&&◌, arith, ◌∷◌, leb, not, [], contains, refl, false,
  if◌then◌else◌, ◌↔◌, ◌∙◌,
}

-- No value stands twice.
abbrev pub distinct : List Text → Bool
distinct [] = true
distinct (v ∷ vs) = not (contains vs v) && distinct vs

fresh : List Count → List Text → Bool
fresh cs [] = true
fresh cs (v ∷ vs) = not (seen v cs) && fresh cs vs

positive : List Count → Bool
positive cs = all (λ c. leb 1 c.count) cs

few : List Count → Bool
few cs = all (λ c. leb c.count 1) cs

increment-positive :
    (cs : List Count) (v : Text) → positive cs ≡ true → positive (increment cs v) ≡ true
unfolding increment positive
increment-positive [] v h = ground (arith, h)
increment-positive (c ∷ cs) v h = ground (arith, h, increment-positive cs v)

increment-few :
    (cs : List Count) (v : Text)
    → positive cs ≡ true
    → few (increment cs v) ≡ (few cs && not (seen v cs))
unfolding increment positive few seen
increment-few [] v h = ground (arith, h)
increment-few (c ∷ cs) v h = ground (arith, h, increment-few cs v)

increment-fresh :
    (cs : List Count) (v : Text) (vs : List Text)
    → fresh (increment cs v) vs ≡ (fresh cs vs && not (contains vs v))
unfolding fresh
increment-fresh cs v [] = ground arith
increment-fresh cs v (w ∷ vs) =
    ground (arith, increment-seen cs v w, increment-fresh cs v vs, text_eq_sym v w)

tally-few :
    (cs : List Count) (vs : List Text)
    → positive cs ≡ true
    → few (tally cs vs) ≡ (few cs && (fresh cs vs && distinct vs))
unfolding tally fresh
tally-few cs [] h = ground (arith, h)
tally-few cs (v ∷ vs) h = ground (
  arith,
  tally-few (increment cs v) vs (increment-positive cs v h),
  increment-few cs v h,
  increment-fresh cs v vs,
)

is_empty : List Text → Bool
is_empty [] = true
is_empty _ = false

insert_text-empty : (v : Text) (vs : List Text) → is_empty (insert_text v vs) ≡ false
unfolding insert_text is_empty
insert_text-empty v [] = refl
insert_text-empty v (w ∷ vs) = ground arith

repeated-empty : (cs : List Count) → is_empty (repeated cs) ≡ few cs
unfolding repeated is_empty few
repeated-empty [] = refl
repeated-empty (c ∷ cs) = ground (arith, repeated-empty cs, insert_text-empty c.value (repeated cs))

fresh-nil : (vs : List Text) → fresh [] vs ≡ true
unfolding fresh seen
fresh-nil [] = refl
fresh-nil (v ∷ vs) = ground (arith, fresh-nil vs)

duplicate_values-empty : (vs : List Text) → is_empty (duplicate_values vs) ≡ distinct vs
unfolding duplicate_values few positive
duplicate_values-empty vs =
    ground (arith, repeated-empty (tally [] vs), tally-few [] vs refl, fresh-nil vs)

checked_lem :
    (a b : List Text) (p : MappingResult)
    → checked a b p ≡ (
        if is_empty a
        then (if is_empty b then p else duplicate_values_error target_vocabulary b)
        else duplicate_values_error source_vocabulary a)
unfolding is_empty
checked_lem [] [] p = refl
checked_lem [] (v ∷ b) p = refl
checked_lem (v ∷ a) b p = refl

empty_iff : (vs : List Text) → (is_empty vs ≡ true) ↔ (vs ≡ [])
unfolding is_empty
empty_iff [] = (λ h. refl, λ h. refl)
empty_iff (v ∷ vs) = ground arith

-- A mapping pairs the values of the two vocabularies by position, when no value stands twice in
-- either. Else it is the error of the first vocabulary that has a value twice, with a list of values in
-- which a value stands exactly when the vocabulary has it more than once, and which is not empty.
pub mapping_lem :
    (source target : Vocabulary)
    → (mapping source target ≡ (
        if distinct (values source)
        then (if distinct (values target)
            then mapped (pair_up (values source) (values target))
            else duplicate_values_error target_vocabulary (duplicate_values (values target)))
        else duplicate_values_error source_vocabulary (duplicate_values (values source))))
      × ((vs : List Text) (v : Text) → contains (duplicate_values vs) v ≡ ltb 1 (occurrences v vs))
      × ((vs : List Text) → (duplicate_values vs ≡ []) ↔ (distinct vs ≡ true))
unfolding mapping
mapping_lem source target = (
  checked_lem (duplicate_values (values source)) (duplicate_values (values target))
        (mapped (pair_up (values source) (values target)))
      ∙ rw (duplicate_values-empty (values source), duplicate_values-empty (values target)) refl,
  duplicate_values-contains,
  λ vs. ground (arith, empty_iff (duplicate_values vs), duplicate_values-empty vs),
)

abbrev pub swap : Replacement → Replacement
swap r = record { from = r.to; to = r.from }
