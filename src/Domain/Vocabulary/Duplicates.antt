-- ===== src/Domain/Vocabulary/Duplicates.antt =====
-- Which values are duplicates.
use agentops_open_course.Prelude.{
  ℕ, ◌+◌, ◌≡◌, refl, arith, ap, ◌∙◌, inl, inr, Bool, Bool-cases, true, false, not, any, ◌&&◌, ◌||◌,
  List, [], ◌∷◌, if◌then◌else◌, ltb, Text, text_eq, text_eq_iff, contains,
}
use agentops_open_course.Domain.Vocabulary.{
  Count, increment, tally, insert_text, repeated, duplicate_values,
}

-- How often a value stands in a list.
abbrev pub occurrences : Text → List Text → ℕ
occurrences v [] = 0
occurrences v (w ∷ ws) = (if text_eq v w then 1 else 0) + occurrences v ws

unfoldable pub seen : Text → List Count → Bool
seen v cs = any (λ c. text_eq v c.value) cs

pub text_eq_sym : (v w : Text) → text_eq v w ≡ text_eq w v
text_eq_sym v w = ground (arith, text_eq_iff v w, text_eq_iff w v)

pub increment-seen :
    (cs : List Count) (v w : Text) → seen w (increment cs v) ≡ (seen w cs || text_eq w v)
unfolding increment seen
increment-seen [] v w = ground arith
increment-seen (c ∷ cs) v w = elim (Bool-cases (text_eq v c.value)) [
  | inl same ↦
      let (to, from) = text_eq_iff v c.value in
      let e : text_eq w v ≡ text_eq w c.value = ap (text_eq w) (to same) in ground (arith, same, e)
  | inr other ↦ ground (arith, other, increment-seen cs v w)
]

count_of : Text → List Count → ℕ
count_of v [] = 0
count_of v (c ∷ cs) = if text_eq v c.value then c.count else count_of v cs

unique : List Count → Bool
unique [] = true
unique (c ∷ cs) = not (seen c.value cs) && unique cs

same_third : (u v w : Text) → text_eq u v ≡ true → text_eq u w ≡ text_eq v w
same_third u v w h = ap (λ x. text_eq x w) ((text_eq_iff u v).0 h)

increment-count_of :
    (cs : List Count) (v w : Text)
    → count_of v (increment cs w) ≡ (if text_eq v w then 1 else 0) + count_of v cs
unfolding increment count_of
increment-count_of [] v w = ground arith
increment-count_of (c ∷ cs) v w = elim (Bool-cases (text_eq v w)) [
  | inl e ↦ ground (arith, e, same_third v w c.value e, increment-count_of cs v w)
  | inr e ↦ elim (Bool-cases (text_eq w c.value)) [
    | inl k ↦
        let d : text_eq v w ≡ text_eq v c.value = ap (text_eq v) ((text_eq_iff w c.value).0 k) in
        ground (arith, e, k, d)
    | inr k ↦ ground (arith, e, k, increment-count_of cs v w)
  ]
]

increment-unique : (cs : List Count) (w : Text) → unique cs ≡ true → unique (increment cs w) ≡ true
unfolding increment unique seen
increment-unique [] w h = refl
increment-unique (c ∷ cs) w h = ground (
  arith,
  h,
  text_eq_sym w c.value,
  increment-seen cs w c.value,
  λ (q : unique cs ≡ true). increment-unique cs w q,
)

tally-count_of :
    (cs : List Count) (vs : List Text) (v : Text)
    → count_of v (tally cs vs) ≡ occurrences v vs + count_of v cs
unfolding tally
tally-count_of cs [] v = omega arith
tally-count_of cs (w ∷ vs) v =
    omega (arith, tally-count_of (increment cs w) vs v, increment-count_of cs v w)

tally-unique : (cs : List Count) (vs : List Text) → unique cs ≡ true → unique (tally cs vs) ≡ true
unfolding tally
tally-unique cs [] h = h
tally-unique cs (w ∷ vs) h = tally-unique (increment cs w) vs (increment-unique cs w h)

insert_text-contains :
    (ws : List Text) (v w : Text) → contains (insert_text w ws) v ≡ (text_eq v w || contains ws v)
unfolding insert_text
insert_text-contains [] v w = ground arith
insert_text-contains (x ∷ ws) v w = ground (arith, insert_text-contains ws v w)

unseen-count_of : (cs : List Count) (v : Text) → seen v cs ≡ false → count_of v cs ≡ 0
unfolding seen count_of
unseen-count_of [] v h = refl
unseen-count_of (c ∷ cs) v h = ground (arith, h, unseen-count_of cs v)

repeated-contains :
    (cs : List Count) (v : Text)
    → unique cs ≡ true
    → contains (repeated cs) v ≡ ltb 1 (count_of v cs)
unfolding repeated unique count_of
repeated-contains [] v h = refl
repeated-contains (c ∷ cs) v h = elim (Bool-cases (text_eq v c.value)) [
  | inl e ↦
      let once : seen v cs ≡ seen c.value cs = ap (λ x. seen x cs) ((text_eq_iff v c.value).0 e) in
      ground (
        arith,
        h,
        e,
        once,
        unseen-count_of cs v,
        insert_text-contains (repeated cs) v c.value,
        λ (q : unique cs ≡ true). repeated-contains cs v q,
      )
  | inr e ↦ ground (
    arith,
    h,
    e,
    insert_text-contains (repeated cs) v c.value,
    λ (q : unique cs ≡ true). repeated-contains cs v q,
  )
]

pub duplicate_values-contains :
    (vs : List Text) (v : Text) → contains (duplicate_values vs) v ≡ ltb 1 (occurrences v vs)
unfolding duplicate_values count_of unique
duplicate_values-contains vs v =
    let e : count_of v (tally [] vs) ≡ occurrences v vs = omega (arith, tally-count_of [] vs v) in
    repeated-contains (tally [] vs) v (tally-unique [] vs refl) ∙ ap (ltb 1) e
