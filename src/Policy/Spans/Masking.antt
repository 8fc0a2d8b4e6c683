-- ===== src/Policy/Spans/Masking.antt =====
-- What a masked text reveals.
use agentops_open_course.Policy.Spans.{
  before, insert_span, mask_spans, mask_ordered, Span, sort_spans, slice,
}
use agentops_open_course.Prelude.{
  Bool-cases, All, Text, ℕ, ◌<◌, get_elem?, ◌≤◌, List, ◌≡◌, drop, ◌∷◌, inl, [], ◌∙◌, ◌+◌, take, ◌⊎◌,
  arith, ap, ◌-◌, suc, sym, inr, refl, zero,
}

abbrev pub Outside : ℕ → List Span → Type 0
Outside i [] = Unit {0}
Outside i (s ∷ ss) = ((i < s.start) ⊎ (s.end ≤ i)) × Outside i ss

-- In this order each span begins where the one before has ended, or later.
abbrev pub Spaced : ℕ → List Span → Type 0
Spaced written [] = Unit {0}
Spaced written (s ∷ ss) = (written ≤ s.start) × (s.start ≤ s.end) × Spaced s.end ss

take_eq :
    (n : ℕ) (u v : Text) → ((i : ℕ) → i < n → get_elem? u i ≡ get_elem? v i) → take n u ≡ take n v
take_eq zero u v h = refl
take_eq (suc n) [] [] h = refl
take_eq (suc n) [] (y ∷ v) h = absurd (ground (arith, h 0 (omega arith)))
take_eq (suc n) (x ∷ u) [] h = absurd (ground (arith, h 0 (omega arith)))
take_eq (suc n) (x ∷ u) (y ∷ v) h =
    let head : x ≡ y = ground (arith, h 0 (omega arith)) in
    rw (head, take_eq n u v (λ i l. h (suc i) (omega arith)))

list_eq : (u v : Text) → ((i : ℕ) → get_elem? u i ≡ get_elem? v i) → u ≡ v
list_eq [] [] h = refl
list_eq [] (y ∷ v) h = absurd (ground (arith, h 0))
list_eq (x ∷ u) [] h = absurd (ground (arith, h 0))
list_eq (x ∷ u) (y ∷ v) h =
    let head : x ≡ y = ground (arith, h 0) in rw (head, list_eq u v (λ i. h (suc i)))

get_elem?-drop : (n i : ℕ) (u : Text) → get_elem? (drop n u) i ≡ get_elem? u (n + i)
get_elem?-drop zero i u = ap (get_elem? u) (omega arith)
get_elem?-drop (suc n) i [] = refl
get_elem?-drop (suc n) i (x ∷ u) =
    let e : suc (n + i) ≡ suc n + i = omega arith in get_elem?-drop n i u ∙ ap (get_elem? (x ∷ u)) e

slice_eq :
    (u v : Text) (a b : ℕ)
    → ((i : ℕ) → a ≤ i → i < b → get_elem? u i ≡ get_elem? v i)
    → slice u a b ≡ slice v a b
slice_eq u v a b h =
    take_eq (b - a) (drop a u) (drop a v) λ i l.
      get_elem?-drop a i u ∙ h (a + i) (omega arith) (omega arith) ∙ sym (get_elem?-drop a i v)

drop_eq :
    (u v : Text) (a : ℕ) → ((i : ℕ) → a ≤ i → get_elem? u i ≡ get_elem? v i) → drop a u ≡ drop a v
drop_eq u v a h =
    list_eq (drop a u) (drop a v)
      λ i. get_elem?-drop a i u ∙ h (a + i) (omega arith) ∙ sym (get_elem?-drop a i v)

-- What stands before the first span is outside all of them.
Outside-before : (i w : ℕ) (ss : List Span) → i < w → Spaced w ss → Outside i ss
Outside-before i w [] h sp = tt
Outside-before i w (s ∷ ss) h (a, b, sp) =
    (inl (omega arith), Outside-before i s.end ss (omega arith) sp)

mask_ordered_hides :
    (u v : Text) (w : ℕ) (ss : List Span)
    → Spaced w ss
    → ((i : ℕ) → w ≤ i → Outside i ss → get_elem? u i ≡ get_elem? v i)
    → mask_ordered u w ss ≡ mask_ordered v w ss
unfolding mask_ordered
mask_ordered_hides u v w [] sp h = drop_eq u v w (λ i l. h i l tt)
mask_ordered_hides u v w (s ∷ ss) (a, b, sp) h =
    let front =
      slice_eq u v w s.start (λ i l r. h i l (inl r, Outside-before i s.end ss (omega arith) sp)) in
    let back = mask_ordered_hides u v s.end ss sp (λ i l o. h i (omega arith) (inr l, o)) in
    ground (arith, front, back)

-- A masked text reveals nothing of the masked bytes: two texts that agree at every position
-- outside the spans are masked to the same text, when no two of the spans overlap.
pub mask_spans_hides :
    (u v : Text) (spans : List Span)
    → Spaced 0 (sort_spans spans)
    → ((i : ℕ) → Outside i (sort_spans spans) → get_elem? u i ≡ get_elem? v i)
    → mask_spans u spans ≡ mask_spans v spans
unfolding mask_spans
mask_spans_hides u v spans sp h = mask_ordered_hides u v 0 (sort_spans spans) sp (λ i l o. h i o)

-- A span that begins inside `first`, after its beginning.
abbrev pub BeginsInside : Span → Span → Type 0
BeginsInside first s = (first.start < s.start) × (s.start < first.end)

insert_span-All :
    (P : Span → Type 0) (s : Span) (ss : List Span) → P s → All P ss → All P (insert_span s ss)
unfolding insert_span
insert_span-All P s [] p ps = (p, tt)
insert_span-All P s (t ∷ ts) p (q, qs) = elim (Bool-cases (before t s)) [
  | inl e ↦ rw e (q, insert_span-All P s ts p qs)
  | inr e ↦ rw e (p, (q, qs))
]

sort_spans-All : (P : Span → Type 0) (ss : List Span) → All P ss → All P (sort_spans ss)
unfolding sort_spans
sort_spans-All P [] ps = tt
sort_spans-All P (s ∷ ss) (p, ps) = insert_span-All P s (sort_spans ss) p (sort_spans-All P ss ps)

insert_span-first :
    (first : Span) (ss : List Span)
    → All (BeginsInside first) ss
    → insert_span first ss ≡ first ∷ ss
unfolding insert_span
insert_span-first first [] h = refl
insert_span-first first (s ∷ ss) ((k, l), hs) = ground (arith, k, l)

mask_ordered_inside :
    (text : Text) (first : Span) (ss : List Span)
    → All (BeginsInside first) ss
    → mask_ordered text first.end ss ≡ drop first.end text
unfolding mask_ordered
mask_ordered_inside text first [] h = refl
mask_ordered_inside text first (s ∷ ss) ((k, l), hs) =
    ground (arith, k, l, mask_ordered_inside text first ss hs)

-- Spans that all begin inside one and the same span, after its beginning, are passed over whole,
-- however many they are, in whatever order, and wherever they end: masking them with it is masking
-- it alone, so what they cover past its end is copied.
pub mask_spans_overlap :
    (text : Text) (first : Span) (others : List Span)
    → All (BeginsInside first) others
    → mask_spans text (first ∷ others) ≡ mask_spans text (first ∷ [])
unfolding mask_spans mask_ordered sort_spans insert_span
mask_spans_overlap text first others h =
    let inside = sort_spans-All (BeginsInside first) others h in
    rw (insert_span-first first (sort_spans others) inside)
      (ground (arith, mask_ordered_inside text first (sort_spans others) inside))
