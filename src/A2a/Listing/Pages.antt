-- ===== src/A2a/Listing/Pages.antt =====
-- One page of a listing.
pub mod Walk
use agentops_open_course.Prelude.{
  ℕ, zero, suc, ◌+◌, ◌-◌, ◌≤◌, ◌<◌, ◌≡◌, ◌≢◌, ◌∙◌, ◌⊎◌, inl, inr, refl, sym, ap, subst, arith, Bool,
  true, false, ◌&&◌, ◌||◌, Bool-cases, List, [], ◌∷◌, ◌++◌, map, Option, none, some, if◌then◌else◌,
  Text, text_eq, ℤ, pos, All, take, drop, length, take-append-drop,
}
use agentops_open_course.A2a.Metadata.{Task}
use agentops_open_course.A2a.Tasks.{
  TaskRow, Tasks, Point, World, Codec, Result, ok, err, in_write_transaction,
}
use agentops_open_course.A2a.Listing.{
  named, Request, Response, Tokens, TaskFilters, encode_page_token, decode_page_token,
  filters_without_cursor, list_filters, matches, past_cursor, filter, newer, order, count_tasks,
  list_tasks, trim_listed_task, page_loop, page_size_of, list_request, list_tx, list_store,
}
use agentops_open_course.A2a.Listing.Cursor.{
  IsTokens, decode-encode_page_token, encode_page_token-more,
}
use agentops_open_course.A2a.Listing.Order.{
  Newest, DistinctIds, order-All, order-Newest, filter-order, filter-after,
}

-- The request for the page that a token names.
abbrev pub with_token : Request → Text → Request
with_token req token = record req { page_token = token }

module _ (tokens : Tokens) where
  -- The token of a page that takes so many more rows, after one with that key.
  unfoldable next_token : ℕ → ℤ × Text → Tasks → Text
  next_token left last [] = []
  next_token zero (updated, id) (row ∷ rows) = encode_page_token tokens updated id
  next_token (suc left) last (row ∷ rows) = next_token left (row.last_updated, row.id) rows

  next_token-cases :
      (n : ℕ) (last : ℤ × Text) (rows : Tasks)
      → ((drop (suc n) rows ≡ []) × (next_token (suc n) last rows ≡ []))
        ⊎ ((before : Tasks) × (row : TaskRow) × (take (suc n) rows ≡ before ++ (row ∷ []))
            × (next_token (suc n) last rows ≡ encode_page_token tokens row.last_updated row.id))
  unfolding next_token
  next_token-cases n last [] = inl (refl, refl)
  next_token-cases zero last (row ∷ []) = inl (refl, refl)
  next_token-cases zero last (row ∷ r ∷ rows) = inr ([], row, refl, refl)
  next_token-cases (suc n) last (row ∷ rows) =
      elim (next_token-cases n (row.last_updated, row.id) rows) [
        | inl h ↦ inl h
        | inr (before, r, t, k) ↦ inr (row ∷ before, r, ap (◌∷◌ row) t, k)
      ]

filter-and :
    (p q : TaskRow → Bool) (rows : Tasks)
    → filter (λ row. p row && q row) rows ≡ filter q (filter p rows)
unfolding filter
filter-and p q [] = refl
filter-and p q (row ∷ rows) = ground (arith, filter-and p q rows)

All-filter :
    (P : TaskRow → Type 0) (p : TaskRow → Bool) (rows : Tasks) → All P rows → All P (filter p rows)
unfolding filter
All-filter P p [] h = tt
All-filter P p (row ∷ rows) (a, h) = elim (Bool-cases (p row)) [
  | inl e ↦ rw e (a, All-filter P p rows h)
  | inr e ↦ rw e (All-filter P p rows h)
]

DistinctIds-filter :
    (p : TaskRow → Bool) (rows : Tasks) → DistinctIds rows → DistinctIds (filter p rows)
unfolding filter
DistinctIds-filter p [] h = tt
DistinctIds-filter p (row ∷ rows) (a, h) = elim (Bool-cases (p row)) [
  | inl e ↦
      rw e (All-filter (λ b. text_eq b.id row.id ≡ false) p rows a, DistinctIds-filter p rows h)
  | inr e ↦ rw e (DistinctIds-filter p rows h)
]

module _ (codec : Codec) (tokens : Tokens) (w : World) (req : Request) (view : TaskRow → Task) where
  -- What a listing shows of a row.
  abbrev pub listed : TaskRow → Task
  listed row = trim_listed_task req (view row)

  page_loop_lem :
      (left : ℕ) (last : ℤ × Text) (rows : Tasks)
      → ((p : Point) → w.fails p ≡ false)
      → All (λ row. codec.decode row.document ≡ some (view row)) rows
      → page_loop codec tokens w req left last (take (suc left) rows)
        ≡ ok (map listed (take left rows), next_token tokens left last rows)
  unfolding page_loop next_token
  page_loop_lem zero last [] works d = refl
  page_loop_lem (suc left) last [] works d = refl
  page_loop_lem zero last (row ∷ rows) works d = refl
  page_loop_lem (suc left) last (row ∷ rows) works (d, ds) =
      rw (works Point.scan, d, page_loop_lem left (row.last_updated, row.id) rows works ds) refl

named-some : (owner : Text) → owner ≢ [] → named (some owner) ≡ ok owner
named-some [] h = absurd (h refl)
named-some (c ∷ s) h = refl

page_size_of-pos : (z : ℤ) (n : ℕ) → page_size_of z ≡ ok n → (m : ℕ) × (n ≡ suc m)
page_size_of-pos z zero h = absurd (ground (arith, h))
page_size_of-pos z (suc m) h = (m, refl)

-- The rows that a request with those filters asks for, from its cursor on.
abbrev wanted : TaskFilters → Tasks → Tasks
wanted f db = order (filter (λ row. matches f row && past_cursor f row) db)

module _ (codec : Codec) (tokens : Tokens) (w : World) (req : Request) (view : TaskRow → Task)
    (owner : Text) (db : Tasks) (n : ℕ) (works : (p : Point) → w.fails p ≡ false)
    (decodes : All (λ row. codec.decode row.document ≡ some (view row)) db) (someone : owner ≢ [])
    (sized : page_size_of req.page_size ≡ ok (suc n)) where
  abbrev page_of : TaskFilters → Response
  page_of f = record {
    tasks = map (listed codec tokens w req view) (take (suc n) (wanted f db));
    total_size = count_tasks f db;
    page_size = suc n;
    next_page_token = next_token tokens (suc n) (pos 0, []) (wanted f db);
  }

  list_tasks_lem :
      (f : TaskFilters) → list_tasks f (suc n + 1) db ≡ take (suc (suc n)) (wanted f db)
  unfolding list_tasks
  list_tasks_lem f = ap (λ (k : ℕ). take k (wanted f db)) {y = suc (suc n)} (omega arith)

  list_tx_lem :
      (token : Text) (f : TaskFilters)
      → list_tx codec tokens w (with_token req token) (suc n) f db ≡ ok (page_of f, db)
  unfolding list_tx
  list_tx_lem token f =
      let shown = λ (row : TaskRow). codec.decode row.document ≡ some (view row) in
      let d =
        order-All shown _
          (All-filter shown (λ row. matches f row && past_cursor f row) db decodes) in
      rw
        (
          works Point.count,
          works Point.page,
          list_tasks_lem f,
          page_loop_lem codec tokens w (with_token req token) view (suc n) (pos 0, []) (wanted f db)
              works d,
          works Point.read,
        )
        refl

  list_store_lem :
      (token : Text) (f : TaskFilters)
      → list_filters tokens owner (with_token req token) ≡ ok f
      → list_store codec tokens w (some owner) (some (with_token req token)) db
        ≡ (ok (page_of f), db)
  unfolding list_store list_request in_write_transaction
  list_store_lem token f h =
      let r : list_request tokens (some owner) (some (with_token req token))
          ≡ ok (with_token req token, suc n, f) =
        rw (named-some owner someone, sized, h) refl in
      rw
        (
          list_store,
          named-some owner someone,
          sized,
          h,
          works Point.begin,
          list_tx_lem token f,
          works Point.commit,
        )
        refl
