-- ===== src/Policy/Compaction/Window.antt =====
-- Which messages a compaction keeps.
use agentops_open_course.Prelude.{
  ◌⊎◌, List, Option, All, ◌≡◌, true, take, ◌<◌, length, drop, [], ◌∷◌, false, ℕ, arith, inl, ◌≤◌,
  inr, some, ◌-◌, Bool-cases, refl, length-drop, ◌+◌, sym, ap, suc, ◌∙◌, zero,
}
use agentops_open_course.Policy.Compaction.{
  advance, Content, has_function_response, compact_history, cut_of, compaction_marker,
}

-- The messages that the cut moves past carry tool results, all of them, and it stops at one that
-- carries none or at the last.
advance_lem :
    (contents : List (Option Content))
    → All (λ c. has_function_response c ≡ true) (take (advance contents) contents)
      × ((0 < length contents)
          → (advance contents < length contents)
            × ((c : Option Content) × (rest : List (Option Content)) × (drop
                    (advance contents)
                    contents
                  ≡ c ∷ rest)
                × ((has_function_response c ≡ false) ⊎ (rest ≡ []))))
unfolding advance
advance_lem [] = (tt, λ h. absurd (ground (arith, h)))
advance_lem (c ∷ []) = (tt, λ h. (ground arith, (c, [], refl, inr refl)))
advance_lem (c ∷ d ∷ rest) =
    let (a, b) = advance_lem (d ∷ rest) in
    let (l, e) = b (omega arith) in
    elim (Bool-cases (has_function_response c)) [
      | inl tool ↦ rw tool ((tool, a), λ h. (omega arith, e))
      | inr free ↦ rw free (tt, λ h. (omega arith, (c, d ∷ rest, refl, inl free)))
    ]

drop_nil : (n : ℕ) → drop {A = Option Content} n [] ≡ []
drop_nil zero = refl
drop_nil (suc n) = refl

drop-drop : (m n : ℕ) (xs : List (Option Content)) → drop n (drop m xs) ≡ drop (m + n) xs
drop-drop zero n xs = ap (λ k. drop k xs) (omega arith)
drop-drop (suc m) n [] = drop_nil n ∙ sym (drop_nil (suc m + n))
drop-drop (suc m) n (x ∷ xs) =
    let e : suc m + n ≡ suc (m + n) = omega arith in
    drop-drop m n xs ∙ ap (λ k. drop k (x ∷ xs)) (sym e)

-- A request of at most as many messages as the bound is left as it is. A longer one keeps its end,
-- of at least one message and at most as many as the bound, after a marker of all the others. The
-- end is shorter than the bound only where it would have begun with tool results, and it begins
-- with none unless it is the last message alone.
pub compact_history_window :
    (keep : ℕ) (contents : List (Option Content))
    → 0 < keep
    → ((length contents ≤ keep) → compact_history (some keep) (some contents) ≡ some contents)
      × ((keep < length contents)
          → (cut : ℕ) × (length contents - keep ≤ cut)
            × (cut < length contents)
            × (compact_history (some keep) (some contents)
                ≡ some (some (compaction_marker (take cut contents)) ∷ drop cut contents))
            × All
                (λ c. has_function_response c ≡ true)
                (take (cut - (length contents - keep)) (drop (length contents - keep) contents))
            × ((c : Option Content) × (rest : List (Option Content)) × (drop cut contents
                  ≡ c ∷ rest)
                × ((has_function_response c ≡ false) ⊎ (rest ≡ []))))
unfolding compact_history cut_of
compact_history_window keep contents pos =
    let cut = length contents - keep in
    let (a, b) = advance_lem (drop cut contents) in
    let size = length-drop cut contents in
    (
      λ h. ground (arith, h),
      λ h.
          let (l, (c, rest, e, f)) = b (omega (arith, size)) in
          let short : cut + advance (drop cut contents) - cut ≡ advance (drop cut contents) =
            omega arith in
          (
            cut_of contents keep,
            omega arith,
            omega (arith, size),
            ground (arith, h),
            rw short a,
            (c, rest, sym (drop-drop cut (advance (drop cut contents)) contents) ∙ e, f),
          ),
    )
