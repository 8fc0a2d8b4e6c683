-- ===== src/A2a/Listing/Pages/Walk.antt =====
-- A client that follows the tokens of the pages.
use agentops_open_course.Prelude.{
  append_assoc, append_nil, length-append, ℕ, zero, suc, ◌<◌, ◌≡◌, ◌≢◌, ◌∙◌, ◌⊎◌, inl, inr, refl,
  sym, ap, subst, arith, true, false, List, [], ◌∷◌, ◌++◌, map, Option, none, some, Text, ℤ, pos,
  All, take, drop, length, take-append-drop,
}
use agentops_open_course.A2a.Metadata.{Task}
use agentops_open_course.A2a.Tasks.{TaskRow, Tasks, Point, World, Codec, ok, err}
use agentops_open_course.A2a.Listing.{
  Request, Response, Tokens, TaskFilters, encode_page_token, decode_page_token,
  filters_without_cursor, list_filters, matches, filter, newer, order, page_size_of, list_store,
}
use agentops_open_course.A2a.Listing.Cursor.{
  IsTokens, decode-encode_page_token, encode_page_token-more,
}
use agentops_open_course.A2a.Listing.Order.{
  Newest, DistinctIds, order-Newest, filter-order, filter-after,
}
use agentops_open_course.A2a.Listing.Pages.{
  with_token, next_token, next_token-cases, filter-and, DistinctIds-filter, listed,
  page_size_of-pos, wanted, page_of, list_store_lem,
}

-- The tasks of the pages from one on, until a page has no token; `none` when a request fails, or
-- after so many requests.
unfoldable pub walk :
    Codec → Tokens → World → Text → Request → Tasks → ℕ → Text → Option (List Task)
walk codec tokens w owner req db zero token = none
walk codec tokens w owner req db (suc fuel) token =
    elim (list_store codec tokens w (some owner) (some (with_token req token)) db).0 [
      | err e ↦ none
      | ok page ↦ elim page.next_page_token [
        | [] ↦ some page.tasks
        | c ∷ s ↦ elim (walk codec tokens w owner req db fuel (c ∷ s)) [
          | none ↦ none
          | some tasks ↦ some (page.tasks ++ tasks)
        ]
      ]
    ]

Text-cases : (s : Text) → (s ≡ []) ⊎ ((c : ℕ) × (r : Text) × (s ≡ c ∷ r))
Text-cases [] = inl refl
Text-cases (c ∷ r) = inr (c, r, refl)

map-append {ℓ κ} :
    {A : Type ℓ} {B : Type κ} (f : A → B) (xs ys : List A) → map f (xs ++ ys) ≡ map f xs ++ map f ys
map-append f [] ys = refl
map-append f (x ∷ xs) ys = ap (◌∷◌ (f x)) (map-append f xs ys)

filter-true : (rows : Tasks) → filter (λ row. true) rows ≡ rows
unfolding filter
filter-true [] = refl
filter-true (row ∷ rows) = ap (◌∷◌ row) (filter-true rows)

module _ (codec : Codec) (tokens : Tokens) (w : World) (req : Request) (owner : Text)
    (db : Tasks) where
  -- All that the request asks for, in its order.
  unfoldable pub all_wanted : Tasks
  all_wanted = order (filter (matches (filters_without_cursor owner req)) db)

  -- A token that stands for those rows.
  abbrev Sees : Text → Tasks → Type 0
  Sees token rest =
      (f : TaskFilters) × (list_filters tokens owner (with_token req token) ≡ ok f)
      × (wanted f db ≡ rest)

  walk-last :
      (fuel : ℕ) (token : Text) (page : Response)
      → list_store codec tokens w (some owner) (some (with_token req token)) db ≡ (ok page, db)
      → page.next_page_token ≡ []
      → walk codec tokens w owner req db (suc fuel) token ≡ some page.tasks
  unfolding walk
  walk-last fuel token page h e = rw (walk, h, e) refl

  walk-next :
      (fuel : ℕ) (token : Text) (page : Response) (tasks : List Task)
      → list_store codec tokens w (some owner) (some (with_token req token)) db ≡ (ok page, db)
      → page.next_page_token ≢ []
      → walk codec tokens w owner req db fuel page.next_page_token ≡ some tasks
      → walk codec tokens w owner req db (suc fuel) token ≡ some (page.tasks ++ tasks)
  unfolding walk
  walk-next fuel token page tasks h n k = elim (Text-cases page.next_page_token) [
    | inl e ↦ absurd (n e)
    | inr (c, s, e) ↦
        let k' : walk codec tokens w owner req db fuel (c ∷ s) ≡ some tasks = rw e at k in
        rw (walk, h, e, k') refl
  ]

  first-Sees : Sees [] all_wanted
  unfolding list_filters all_wanted
  first-Sees = (
    _,
    refl,
    ap order
        (filter-and (matches (filters_without_cursor owner req)) (λ row. true) db ∙ filter-true _),
  )

  cursor_list_filters :
      (token : Text) (t : ℤ) (id : Text)
      → token ≢ []
      → decode_page_token tokens token ≡ ok (t, id)
      → list_filters tokens owner (with_token req token)
        ≡ ok (record (filters_without_cursor owner req) {
          cursor_id = id;
          cursor_time = t;
          has_cursor = 1;
        })
  unfolding list_filters
  cursor_list_filters [] t id n h = absurd (n refl)
  cursor_list_filters (c ∷ s) t id n h = rw h refl

  next-Sees :
      (before after : Tasks) (row : TaskRow)
      → IsTokens tokens
      → DistinctIds db
      → all_wanted ≡ before ++ (row ∷ after)
      → Sees (encode_page_token tokens row.last_updated row.id) after
  unfolding all_wanted matches
  next-Sees before after row law distinct e =
      let token = encode_page_token tokens row.last_updated row.id in
      let more = encode_page_token-more tokens law row.last_updated row.id in
      let f =
        cursor_list_filters token row.last_updated row.id more
          (decode-encode_page_token tokens law row.last_updated row.id) in
      let mine = matches (filters_without_cursor owner req) in
      let sorted = order-Newest (filter mine db) (DistinctIds-filter mine db distinct) in
      (
        _,
        f,
        ap order (filter-and mine (newer row) db)
            ∙ sym (filter-order row (filter mine db))
            ∙ ap (filter (newer row)) e
            ∙ filter-after row before after (subst Newest e sorted),
      )

module _ (codec : Codec) (tokens : Tokens) (law : IsTokens tokens) (w : World) (req : Request)
    (view : TaskRow → Task) (owner : Text) (db : Tasks) (works : (p : Point) → w.fails p ≡ false)
    (decodes : All (λ row. codec.decode row.document ≡ some (view row)) db)
    (distinct : DistinctIds db) (someone : owner ≢ []) where
  walk_lem :
      (n fuel : ℕ) (token : Text) (before rest : Tasks)
      → page_size_of req.page_size ≡ ok (suc n)
      → all_wanted codec tokens w req owner db ≡ before ++ rest
      → Sees codec tokens w req owner db token rest
      → length rest < fuel
      → walk codec tokens w owner req db fuel token
        ≡ some (map (listed codec tokens w req view) rest)
  walk_lem n zero token before rest sized e sees le = absurd (omega (arith, le))
  walk_lem n (suc fuel) token before rest sized e (f, filters, shown) le =
      let page = page_of codec tokens w req view owner db n works decodes someone sized f in
      let one =
        list_store_lem codec tokens w req view owner db n works decodes someone sized token f
          filters in
      let shows = listed codec tokens w req view in
      let tasks_eq : page.tasks ≡ map shows (take (suc n) rest) = rw shown refl in
      let token_eq : page.next_page_token ≡ next_token tokens (suc n) (pos 0, []) rest =
        rw shown refl in
      elim (next_token-cases tokens n (pos 0, []) rest) [
        | inl (done, k) ↦
            let whole : take (suc n) rest ≡ rest =
              sym (append_nil (take (suc n) rest))
              ∙ ap (◌++◌ (take (suc n) rest)) (sym done)
              ∙ take-append-drop (suc n) rest in
            walk-last codec tokens w req owner db fuel token page one (token_eq ∙ k)
            ∙ ap some (tasks_eq ∙ ap (map shows) whole)
        | inr (taken, row, t, k) ↦
            let more = drop (suc n) rest in
            let split : rest ≡ taken ++ (row ∷ more) =
              sym (take-append-drop (suc n) rest)
              ∙ ap (λ (xs : Tasks). xs ++ more) t
              ∙ append_assoc taken (row ∷ []) more in
            let place : all_wanted codec tokens w req owner db ≡ (before ++ taken) ++ (row ∷ more) =
              e ∙ ap (◌++◌ before) split ∙ sym (append_assoc before taken (row ∷ more)) in
            let fewer : length more < fuel =
              omega (arith, le, ap length split, length-append {0} taken (row ∷ more)) in
            let rest_sees =
              next-Sees codec tokens w req owner db (before ++ taken) more row law distinct place in
            let rest_walk =
              walk_lem n fuel (encode_page_token tokens row.last_updated row.id)
                (before ++ take (suc n) rest) more sized
                (e
                  ∙ ap (◌++◌ before) (sym (take-append-drop (suc n) rest))
                  ∙ sym (append_assoc before (take (suc n) rest) more))
                rest_sees fewer in
            let tok : page.next_page_token ≡ encode_page_token tokens row.last_updated row.id =
              token_eq ∙ k in
            walk-next codec tokens w req owner db fuel token page (map shows more) one
              (λ z. encode_page_token-more tokens law row.last_updated row.id (sym tok ∙ z))
              (subst (λ s. walk codec tokens w owner req db fuel s ≡ some (map shows more))
                (sym tok) rest_walk)
            ∙ ap some (
                ap (λ (ts : List Task). ts ++ map shows more) tasks_eq
                ∙ sym (map-append shows (take (suc n) rest) more)
                ∙ ap (map shows) (take-append-drop (suc n) rest))
      ]

  -- A named client that follows the tokens of a listing, with a page size that is accepted, over a
  -- store that does not change, of whole documents under distinct ids, with no failure and
  -- with codecs that give back what they encode, sees the tasks that match, once each, newest first,
  -- trimmed as asked, whatever the size of the pages; and a page without a token comes after as
  -- many requests as there are such tasks, and one, at most.
  pub walk-all :
      (size : ℕ)
      → page_size_of req.page_size ≡ ok size
      → (walk codec tokens w owner req db (suc (length (all_wanted codec tokens w req owner db))) []
          ≡ some (map (listed codec tokens w req view) (all_wanted codec tokens w req owner db)))
        × Newest (all_wanted codec tokens w req owner db)
  unfolding all_wanted
  walk-all size sized =
      let (n, e) = page_size_of-pos req.page_size size sized in
      let mine = matches (filters_without_cursor owner req) in
      (
        walk_lem n _ [] [] _ (subst (λ m. page_size_of req.page_size ≡ ok m) e sized) refl
            (first-Sees codec tokens w req owner db) (omega arith),
        order-Newest (filter mine db) (DistinctIds-filter mine db distinct),
      )
