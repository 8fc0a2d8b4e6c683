-- ===== src/A2a/Listing/Order.antt =====
-- The order of a listing, and what a cursor leaves of it.
use agentops_open_course.Prelude.{
  eq_ℤ, eq_ℤ-true, eq_ℤ-self, ◌≡◌, refl, sym, ap, arith, ◌∙◌, ◌⊎◌, and-true, subst, Bool-cases,
  true, false, inl, inr, [], ◌∷◌, ◌++◌, if◌then◌else◌, text_eq, text_lt, ℤ, pos, negsuc, ltb_ℤ, All,
}
use agentops_open_course.Prelude.{text_lt_irrefl, text_lt_trans, text_lt_total}
use agentops_open_course.A2a.Tasks.{TaskRow, Tasks}
use agentops_open_course.A2a.Listing.{filter, newer, insert, order}

ltb_ℤ-trans : (a b c : ℤ) → ltb_ℤ a b ≡ true → ltb_ℤ b c ≡ true → ltb_ℤ a c ≡ true
ltb_ℤ-trans a b c h k = ground (arith, h, k)

ltb_ℤ-irrefl : (a : ℤ) → ltb_ℤ a a ≡ false
ltb_ℤ-irrefl a = ground arith

ltb_ℤ-total : (a b : ℤ) → ltb_ℤ a b ≡ false → eq_ℤ a b ≡ false → ltb_ℤ b a ≡ true
ltb_ℤ-total (pos a) (pos b) h k = ground (arith, h, k)
ltb_ℤ-total (negsuc a) (negsuc b) h k = ground (arith, h, k)
ltb_ℤ-total (pos a) (negsuc b) h k = ground (arith, h, k)
ltb_ℤ-total (negsuc a) (pos b) h k = ground (arith, h, k)

pub newer_irrefl : (a : TaskRow) → newer a a ≡ false
newer_irrefl a = ground (arith, ltb_ℤ-irrefl a.last_updated, text_lt_irrefl a.id)

newer-cases :
    (a b : TaskRow)
    → newer a b ≡ true
    → (ltb_ℤ b.last_updated a.last_updated ≡ true)
      ⊎ ((b.last_updated ≡ a.last_updated) × (text_lt b.id a.id ≡ true))
newer-cases a b h = elim (Bool-cases (ltb_ℤ b.last_updated a.last_updated)) [
  | inl x ↦ inl x
  | inr x ↦
      let (e, l) = and-true _ _ (rw x at h) in inr (eq_ℤ-true b.last_updated a.last_updated e, l)
]

later-newer : (a b : TaskRow) → ltb_ℤ b.last_updated a.last_updated ≡ true → newer a b ≡ true
later-newer a b h = rw h refl

tied-newer :
    (a b : TaskRow) → b.last_updated ≡ a.last_updated → text_lt b.id a.id ≡ true → newer a b ≡ true
tied-newer a b e l = rw (e, ltb_ℤ-irrefl a.last_updated, eq_ℤ-self a.last_updated, l) refl

pub newer_trans : (a b c : TaskRow) → newer a b ≡ true → newer b c ≡ true → newer a c ≡ true
newer_trans a b c h k = elim (newer-cases a b h) [
  | inl x ↦ elim (newer-cases b c k) [
    | inl y ↦ later-newer a c (ltb_ℤ-trans c.last_updated b.last_updated a.last_updated y x)
    | inr (e, l) ↦ later-newer a c (subst (λ t. ltb_ℤ t a.last_updated ≡ true) (sym e) x)
  ]
  | inr (e, l) ↦ elim (newer-cases b c k) [
    | inl y ↦ later-newer a c (subst (λ t. ltb_ℤ c.last_updated t ≡ true) e y)
    | inr (e', l') ↦ tied-newer a c (e' ∙ e) (text_lt_trans c.id b.id a.id l' l)
  ]
]

newer_asym : (a b : TaskRow) → newer a b ≡ true → newer b a ≡ false
newer_asym a b h = elim (Bool-cases (newer b a)) [
  | inl k ↦ absurd (ground (arith, newer_irrefl a, newer_trans a b a h k))
  | inr k ↦ k
]

newer_total : (a b : TaskRow) → text_eq b.id a.id ≡ false → newer a b ≡ false → newer b a ≡ true
newer_total a b n h = elim (Bool-cases (ltb_ℤ b.last_updated a.last_updated)) [
  | inl x ↦ absurd (ground (arith, h, x))
  | inr x ↦ elim (Bool-cases (eq_ℤ b.last_updated a.last_updated)) [
    | inr y ↦ later-newer b a (ltb_ℤ-total b.last_updated a.last_updated x y)
    | inl y ↦
        tied-newer b a (sym (eq_ℤ-true b.last_updated a.last_updated y))
          (text_lt_total b.id a.id n (rw (x, y) at h))
  ]
]

-- Each row newer than all that follow it.
abbrev pub Newest : Tasks → Type 0
Newest [] = Unit {0}
Newest (a ∷ rows) = All (λ b. newer a b ≡ true) rows × Newest rows

-- No two rows with one id.
abbrev pub DistinctIds : Tasks → Type 0
DistinctIds [] = Unit {0}
DistinctIds (a ∷ rows) = All (λ b. text_eq b.id a.id ≡ false) rows × DistinctIds rows

insert-All :
    (P : TaskRow → Type 0) (a : TaskRow) (rows : Tasks) → P a → All P rows → All P (insert a rows)
unfolding insert
insert-All P a [] p h = (p, tt)
insert-All P a (b ∷ rows) p (q, h) = elim (Bool-cases (newer a b)) [
  | inl n ↦ rw n (p, (q, h))
  | inr n ↦ rw n (q, insert-All P a rows p h)
]

pub order-All : (P : TaskRow → Type 0) (rows : Tasks) → All P rows → All P (order rows)
unfolding order
order-All P [] h = tt
order-All P (a ∷ rows) (p, h) = insert-All P a (order rows) p (order-All P rows h)

newer-All :
    (a b : TaskRow) (rows : Tasks)
    → newer a b ≡ true
    → All (λ c. newer b c ≡ true) rows
    → All (λ c. newer a c ≡ true) rows
newer-All a b [] n h = tt
newer-All a b (c ∷ rows) n (p, h) = (newer_trans a b c n p, newer-All a b rows n h)

insert-Newest :
    (a : TaskRow) (rows : Tasks)
    → All (λ b. text_eq b.id a.id ≡ false) rows
    → Newest rows
    → Newest (insert a rows)
unfolding insert
insert-Newest a [] d h = (tt, tt)
insert-Newest a (b ∷ rows) (n, d) (p, h) = elim (Bool-cases (newer a b)) [
  | inl k ↦ rw k ((k, newer-All a b rows k p), (p, h))
  | inr k ↦
      rw k (
        insert-All (λ c. newer b c ≡ true) a rows (newer_total a b n k) p,
        insert-Newest a rows d h,
      )
]

pub order-Newest : (rows : Tasks) → DistinctIds rows → Newest (order rows)
unfolding order
order-Newest [] d = tt
order-Newest (a ∷ rows) (n, d) =
    insert-Newest a (order rows) (order-All (λ b. text_eq b.id a.id ≡ false) rows n)
      (order-Newest rows d)

All-middle :
    (P : TaskRow → Type 0) (before after : Tasks) (c : TaskRow)
    → All P (before ++ (c ∷ after))
    → P c
All-middle P [] after c (p, h) = p
All-middle P (r ∷ before) after c (p, h) = All-middle P before after c h

module _ (c : TaskRow) where
  filter-insert :
      (a : TaskRow) (rows : Tasks)
      → filter (newer c) (insert a rows)
        ≡ (if newer c a then insert a (filter (newer c) rows) else filter (newer c) rows)
  unfolding filter insert
  filter-insert a [] = ground arith
  filter-insert a (b ∷ rows) = ground (arith, filter-insert a rows, newer_trans c a b)

  -- What follows a row in the order of a listing is what its cursor leaves.
  pub filter-order : (rows : Tasks) → filter (newer c) (order rows) ≡ order (filter (newer c) rows)
  unfolding filter order
  filter-order [] = refl
  filter-order (a ∷ rows) = ground (arith, filter-insert a (order rows), filter-order rows)

  filter-none : (rows : Tasks) → All (λ r. newer r c ≡ true) rows → filter (newer c) rows ≡ []
  unfolding filter
  filter-none [] h = refl
  filter-none (r ∷ rows) (p, h) = rw (newer_asym r c p) (filter-none rows h)

  filter-kept : (rows : Tasks) → All (λ r. newer c r ≡ true) rows → filter (newer c) rows ≡ rows
  unfolding filter
  filter-kept [] h = refl
  filter-kept (r ∷ rows) (p, h) = rw p (ap (◌∷◌ r) (filter-kept rows h))

  pub filter-after :
      (before after : Tasks)
      → Newest (before ++ (c ∷ after))
      → filter (newer c) (before ++ (c ∷ after)) ≡ after
  unfolding filter
  filter-after [] after (p, h) = rw (newer_irrefl c) (filter-kept after p)
  filter-after (r ∷ before) after (p, h) =
      rw (newer_asym r c (All-middle (λ b. newer r b ≡ true) before after c p))
        (filter-after before after h)
