-- ===== src/Policy/Spans/Analysis.antt =====
-- What the analysis never reports.
use agentops_open_course.Policy.Spans.{
  admissible, Span, overlaps_any, overlaps, analyze, Recognizer, Entity, containers_of,
  protected_spans, match_recognizers, mask_protected, entity_eq, email, wants,
}
use agentops_open_course.Prelude.{
  List, All, ◌≡◌, false, ◌∷◌, Bool-cases, ◌||◌, inl, inr, arith, [], Text, ◌++◌, refl, not, ◌&&◌,
  ◌⊎◌, ◌≤◌,
}

-- One of the two ends where the other begins, or before.
abbrev pub Apart : Span → Span → Type 0
Apart c d = (c.end ≤ d.start) ⊎ (d.end ≤ c.start)

overlaps-Apart : (c d : Span) → overlaps c d ≡ false → Apart d c
overlaps-Apart c d h = ground (arith, h)

overlaps_any-Apart :
    (c : Span) (ds : List Span) → overlaps_any c ds ≡ false → All (λ d. Apart d c) ds
overlaps_any-Apart c [] h = tt
overlaps_any-Apart c (d ∷ ds) h =
    (overlaps-Apart c d (ground (arith, h)), overlaps_any-Apart c ds (ground (arith, h)))

admissible-Apart :
    (candidates protected containers : List Span)
    → All
        (λ c. All (λ d. Apart d c) protected × All (λ d. Apart d c) containers)
        (admissible candidates protected containers)
unfolding admissible
admissible-Apart [] protected containers = tt
admissible-Apart (c ∷ cs) protected containers =
    elim (Bool-cases (overlaps_any c protected || overlaps_any c containers)) [
      | inl hit ↦ rw hit (admissible-Apart cs protected containers)
      | inr free ↦ rw free (
        (
          overlaps_any-Apart c protected (ground (arith, free)),
          overlaps_any-Apart c containers (ground (arith, free)),
        ),
        admissible-Apart cs protected containers,
      )
    ]

protected-Apart :
    (matches containers : List Span)
    → All (λ p. All (λ d. Apart d p) containers) (protected_spans matches containers)
unfolding protected_spans
protected-Apart [] containers = tt
protected-Apart (m ∷ ms) containers = elim (Bool-cases (overlaps_any m containers)) [
  | inl hit ↦ rw hit (protected-Apart ms containers)
  | inr free ↦ rw free (overlaps_any-Apart m containers free, protected-Apart ms containers)
]

-- What an analysis reports is the email addresses, followed by spans each of which lies apart from
-- every email address and from every domain-safe token that is kept; and every such token lies
-- apart from every email address.
pub analyze-Apart :
    (rs : List Recognizer) (safe_matches : Text → List Span) (policy : List Entity) (text : Text)
    → (rest : List Span) × (analyze rs safe_matches policy text
        ≡ containers_of rs policy text ++ rest)
      × All
          (λ c.
            All
              (λ d. Apart d c)
              (protected_spans (safe_matches text) (containers_of rs policy text))
            × All (λ d. Apart d c) (containers_of rs policy text))
          rest
      × All
          (λ p. All (λ d. Apart d p) (containers_of rs policy text))
          (protected_spans (safe_matches text) (containers_of rs policy text))
unfolding analyze
analyze-Apart rs safe_matches policy text =
    let containers = containers_of rs policy text in
    let protected = protected_spans (safe_matches text) containers in
    let residual =
      match_recognizers rs (mask_protected text protected)
        (λ n. not (entity_eq n email) && wants policy n) in
    (
      admissible residual protected containers,
      refl,
      admissible-Apart residual protected containers,
      protected-Apart (safe_matches text) containers,
    )
