-- ===== src/A2a/Listing.antt =====
-- agents/go/a2aserver/taskstore.go: List, its two queries and the tokens of its pages.
pub mod Cursor
pub mod Order
pub mod Pages
use agentops_open_course.Prelude.{
  eq_ℤ, ℕ, zero, suc, ◌+◌, ◌-◌, ◌==◌, Bool, true, false, ◌&&◌, ◌||◌, List, [], ◌∷◌, ◌++◌, Option,
  none, some, if◌then◌else◌, Text, text_eq, text_lt, ℤ, pos, pos_part, leb_ℤ, ltb_ℤ, take, drop,
  length,
}
use agentops_open_course.A2a.Metadata.{Task}
use agentops_open_course.A2a.Tasks.{
  TaskRow, Tasks, count, page, scan, read, World, Codec, Error, unauthenticated, invalid_request,
  parse_error, no_request, not_decoded, Result, ok, err, ◌>>=◌, ◌>>◌, call, guard,
  in_write_transaction,
}
use agentops_open_course.A2a.Store.{required}

pub record Request : Type 0 where
  pub tenant : Text
  pub context_id : Text
  pub status : Text
  pub page_size : ℤ
  pub page_token : Text
  pub history_length : Option ℤ
  pub status_timestamp_after : Option ℤ
  pub include_artifacts : Bool

pub record Response : Type 0 where
  pub tasks : List Task
  pub total_size : ℕ
  pub page_size : ℕ
  pub next_page_token : Text

-- `base64.URLEncoding`, and the nanoseconds of a time in the layout `time.RFC3339Nano`.
pub record Tokens : Type 0 where
  pub encode_base64 : Text → Text
  pub decode_base64 : Text → Option Text
  pub format : ℤ → Text
  pub parse : Text → Option ℤ

abbrev pub default_page_size : ℕ
default_page_size = 50

abbrev pub max_page_size : ℕ
max_page_size = 100

abbrev pub default_max_history_length : ℤ
default_max_history_length = pos 100

-- `_`.
abbrev pub separator : ℕ
separator = 95

-- `strings.Cut` at one byte.
unfoldable pub cut : ℕ → Text → Option (Text × Text)
cut c [] = none
cut c (x ∷ s) = elim (x == c) [
  | true ↦ some ([], s)
  | false ↦ elim (cut c s) [ none ↦ none | some (before, after) ↦ some (x ∷ before, after) ]
]

unfoldable pub encode_page_token : Tokens → ℤ → Text → Text
encode_page_token tokens updated id =
    tokens.encode_base64 (tokens.format updated ++ (separator ∷ id))

unfoldable pub decode_page_token : Tokens → Text → Result (ℤ × Text)
unfolding cut
decode_page_token tokens token = do
  decoded ← required (tokens.decode_base64 token) parse_error
  (stamp, id) ← required (cut separator decoded) parse_error
  updated ← required (tokens.parse stamp) parse_error
  ok (updated, id)

pub record TaskFilters : Type 0 where
  pub owner : Text
  pub tenant : Text
  pub context_id : Text
  pub state : Text
  pub cursor_id : Text
  pub after : ℤ
  pub cursor_time : ℤ
  pub has_after : ℕ
  pub has_cursor : ℕ

abbrev pub filters_without_cursor : Text → Request → TaskFilters
filters_without_cursor owner req = record {
  owner = owner;
  tenant = req.tenant;
  context_id = req.context_id;
  state = req.status;
  cursor_id = [];
  after = elim req.status_timestamp_after [ none ↦ pos 0 | some t ↦ t ];
  cursor_time = pos 0;
  has_after = elim req.status_timestamp_after [ none ↦ 0 | some t ↦ 1 ];
  has_cursor = 0;
}

unfoldable pub list_filters : Tokens → Text → Request → Result TaskFilters
unfolding decode_page_token
list_filters tokens owner req = elim req.page_token [
  | [] ↦ ok (filters_without_cursor owner req)
  | c ∷ s ↦ do
    (cursor_time, cursor_id) ← decode_page_token tokens (c ∷ s)
    ok (record (filters_without_cursor owner req) {
      cursor_id = cursor_id;
      cursor_time = cursor_time;
      has_cursor = 1;
    })
]

-- `? = '' OR column = ?`.
abbrev pub unset_or : Text → Text → Bool
unset_or wanted column = text_eq wanted [] || text_eq column wanted

abbrev pub no_older : ℤ → Option ℤ → Bool
no_older after none = true
no_older after (some t) = leb_ℤ after t

-- `taskFilterClause` on a row.
unfoldable pub matches : TaskFilters → TaskRow → Bool
matches f row =
    text_eq row.owner f.owner
    && unset_or f.tenant row.tenant
    && unset_or f.context_id row.context_id
    && unset_or f.state row.state
    && (f.has_after == 0 || no_older f.after row.status_timestamp)

abbrev pub past_cursor : TaskFilters → TaskRow → Bool
past_cursor f row =
    f.has_cursor == 0
    || (ltb_ℤ row.last_updated f.cursor_time
        || (eq_ℤ row.last_updated f.cursor_time && text_lt row.id f.cursor_id))

unfoldable pub filter {ℓ} : {A : Type ℓ} → (A → Bool) → List A → List A
filter p [] = []
filter p (x ∷ xs) = if p x then x ∷ filter p xs else filter p xs

-- `ORDER BY last_updated_ns DESC, id DESC`.
abbrev pub newer : TaskRow → TaskRow → Bool
newer a b =
    ltb_ℤ b.last_updated a.last_updated || (eq_ℤ b.last_updated a.last_updated && text_lt b.id a.id)

unfoldable pub insert : TaskRow → Tasks → Tasks
insert a [] = a ∷ []
insert a (b ∷ rows) = let rest = insert a rows in if newer a b then a ∷ b ∷ rows else b ∷ rest

unfoldable pub order : Tasks → Tasks
unfolding insert
order [] = []
order (a ∷ rows) = insert a (order rows)

-- `countTasksQuery` and `listTasksQuery`.
unfoldable pub count_tasks : TaskFilters → Tasks → ℕ
unfolding matches filter
count_tasks f db = length (filter (matches f) db)

unfoldable pub list_tasks : TaskFilters → ℕ → Tasks → Tasks
unfolding matches filter order
list_tasks f limit db = take limit (order (filter (λ row. matches f row && past_cursor f row) db))

abbrev pub trim_history {ℓ} : {A : Type ℓ} → ℤ → List A → List A
trim_history (pos n) history = drop (length history - n) history
trim_history _ history = history

unfoldable pub trim_listed_task : Request → Task → Task
trim_listed_task req task = record task {
  history =
      trim_history (elim req.history_length [ none ↦ default_max_history_length | some n ↦ n ])
        task.history;
  artifacts = if req.include_artifacts then task.artifacts else [];
}

-- The loop over the rows: `left` is how many more the page takes, `last` the key of the last one taken.
unfoldable pub page_loop :
    Codec → Tokens → World → Request → ℕ → ℤ × Text → Tasks → Result (List Task × Text)
unfolding trim_listed_task encode_page_token
page_loop codec tokens w req left last [] = ok ([], [])
page_loop codec tokens w req zero (updated, id) (row ∷ rows) =
    ok ([], encode_page_token tokens updated id)
page_loop codec tokens w req (suc left) last (row ∷ rows) = do
  call w scan
  task ← required (codec.decode row.document) not_decoded
  (tasks, token) ← page_loop codec tokens w req left (row.last_updated, row.id) rows
  ok (trim_listed_task req task ∷ tasks, token)

abbrev pub page_size_of : ℤ → Result ℕ
page_size_of size =
    if eq_ℤ size (pos 0)
    then ok default_page_size
    else if ltb_ℤ size (pos 1) || ltb_ℤ (pos max_page_size) size
    then err invalid_request
    else ok (pos_part size)

abbrev pub named : Option Text → Result Text
named none = err unauthenticated
named (some []) = err unauthenticated
named (some (c ∷ s)) = ok (c ∷ s)

unfoldable pub list_request :
    Tokens → Option Text → Option Request → Result (Request × ℕ × TaskFilters)
unfolding list_filters
list_request tokens caller request = do
  req ← required request no_request
  owner ← named caller
  size ← page_size_of req.page_size
  filters ← list_filters tokens owner req
  ok (req, size, filters)

unfoldable pub list_tx :
    Codec → Tokens → World → Request → ℕ → TaskFilters → Tasks → Result (Response × Tasks)
unfolding count_tasks list_tasks page_loop
list_tx codec tokens w req size f db = do
  call w count
  call w page
  (tasks, token) ← page_loop codec tokens w req size (pos 0, []) (list_tasks f (size + 1) db)
  call w read
  ok (
    record {
      tasks = tasks;
      total_size = count_tasks f db;
      page_size = size;
      next_page_token = token;
    },
    db,
  )

-- `List`.
unfoldable pub list_store :
    Codec → Tokens → World → Option Text → Option Request → Tasks → Result Response × Tasks
unfolding list_request list_tx in_write_transaction
list_store codec tokens w caller request db = elim (list_request tokens caller request) [
  | err e ↦ (err e, db)
  | ok (req, size, f) ↦ in_write_transaction w (list_tx codec tokens w req size f) db
]
