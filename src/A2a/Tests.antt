-- ===== src/A2a/Tests.antt =====
-- The task store and the check of metadata at concrete inputs.
use agentops_open_course.Prelude.{
  ℕ, zero, suc, ◌==◌, ◌≡◌, ◌≢◌, refl, ap, arith, true, false, not, List, [], ◌∷◌, map, Option, none,
  some, if◌then◌else◌, Text, codes, text_eq, ℤ, pos, negsuc, all, length,
}
use agentops_open_course.A2a.Metadata.{
  Value, scalar, container, Memory, circular, Task, validate_meta, validate_meta_value,
  validate_task, validate_message, validate_artifact,
}
use agentops_open_course.A2a.Tasks.{
  TaskRow, Tasks, World, Codec, ok, in_write_transaction, has_task, select_task, update_task,
  tasks_affected,
}
use agentops_open_course.A2a.Store.{
  create, create_request, create_tx, update_store, update_request, update_tx, get,
}
use agentops_open_course.A2a.Store.Versions.{Write, creates, updates, apply, run}
use agentops_open_course.A2a.Store.Versions.Lost.{no_lost_update}
use agentops_open_course.A2a.Store.Reads.{read_back, write-get, write-foreign_get}
use agentops_open_course.A2a.Listing.{matches, filter, insert, order, Request, Tokens}
use agentops_open_course.A2a.Listing.Cursor.{IsTokens}
use agentops_open_course.A2a.Listing.Order.{Newest}
use agentops_open_course.A2a.Listing.Pages.{listed}
use agentops_open_course.A2a.Listing.Pages.Walk.{walk, all_wanted, walk-all}

abbrev a_task : Text → Text → Task
a_task id state = record {
  id = id;
  context_id = codes "ctx";
  state = state;
  timestamp = none;
  status_message = none;
  history = [];
  artifacts = [];
  metadata = Value.nothing;
  memory = [];
}

abbrev codec : Codec
codec = record { encode = λ t. some t.id; decode = λ s. some (a_task s []) }

abbrev fine : World
fine = record { fails = λ p. false; now = pos 5; tenant = codes "acme" }

abbrev ada : Text
ada = codes "ada"

abbrev bob : Text
bob = codes "bob"

abbrev t1 : Task
t1 = a_task (codes "t1") (codes "working")

abbrev created_before : List (World × Write)
created_before = (fine, creates (some ada) (some t1)) ∷ []

no_lost_update_example :
    (update_store codec fine (some ada) (some t1) (pos 1) (
      run codec
        ((fine, updates (some ada) (some t1) (pos 2)) ∷ [])
        (update_store codec fine (some ada) (some t1) (pos 1) (run codec created_before [])).1)).0
    ≢ ok (pos 2)
unfolding run create create_request create_tx update_store update_request update_tx
    in_write_transaction has_task select_task update_task tasks_affected validate_task
    validate_message validate_artifact validate_meta validate_meta_value text_eq
no_lost_update_example =
    no_lost_update codec created_before ((fine, updates (some ada) (some t1) (pos 2)) ∷ []) fine
      fine (some ada) (some ada) t1 t1 (pos 1) (pos 2) (pos 2) (ground arith) refl (omega arith)
      refl

write-get_example :
    get codec fine
      (some ada)
      (codes "t1")
      (apply codec fine (updates (some ada) (some t1) (pos 1)) (run codec created_before [])).1
    ≡ read_back codec (codes "t1") ada (pos 2)
unfolding run create create_request create_tx update_store update_request update_tx
    in_write_transaction has_task select_task update_task tasks_affected validate_task
    validate_message validate_artifact validate_meta validate_meta_value text_eq
write-get_example =
    write-get codec fine fine (updates (some ada) (some t1) (pos 1)) t1 ada (codes "t1") (pos 2)
      (run codec created_before []) refl refl refl refl refl

write-foreign_get_example :
    get codec fine
      (some ada)
      (codes "t1")
      (apply codec fine (updates (some bob) (some t1) (pos 0)) (run codec created_before [])).1
    ≡ get codec fine (some ada) (codes "t1") (run codec created_before [])
write-foreign_get_example =
    write-foreign_get codec fine fine (updates (some bob) (some t1) (pos 0)) bob ada (codes "t1")
      (run codec created_before []) refl (ground arith)

-- Two maps, one in the other.
abbrev nested : Memory
nested =
    record { identity = 16; elements = container 1 ∷ scalar ∷ [] }
    ∷ record { identity = 32; elements = scalar ∷ [] }
    ∷ []

-- A list that holds itself, and a list of two that holds its own first element as a list.
rejected_metadata :
    (validate_meta (record { identity = 16; elements = container 0 ∷ [] } ∷ []) (container 0)
      ≡ circular)
    × (validate_meta
          (record { identity = 16; elements = scalar ∷ container 1 ∷ [] }
            ∷ record { identity = 16; elements = scalar ∷ [] }
            ∷ [])
          (container 0)
        ≡ circular)
unfolding validate_meta validate_meta_value
rejected_metadata = (refl, refl)

ones : ℕ → Text
ones zero = []
ones (suc n) = 49 ∷ ones n

abbrev format : ℤ → Text
format (pos n) = 43 ∷ ones n
format (negsuc n) = 45 ∷ ones n

abbrev parse : Text → Option ℤ
parse [] = none
parse (c ∷ s) = if c == 43 then some (pos (length s)) else some (negsuc (length s))

abbrev tokens : Tokens
tokens = record {
  encode_base64 = λ s. 61 ∷ s;
  decode_base64 = λ s. elim s [ [] ↦ some [] | c ∷ r ↦ some r ];
  format = format;
  parse = parse;
}

length-ones : (n : ℕ) → length (ones n) ≡ n
unfolding ones
length-ones zero = refl
length-ones (suc n) = ap suc (length-ones n)

parse-format : (t : ℤ) → parse (format t) ≡ some t
parse-format (pos n) = ap (λ (k : ℕ). some (pos k)) (length-ones n)
parse-format (negsuc n) = ap (λ (k : ℕ). some (negsuc k)) (length-ones n)

ones-plain : (n : ℕ) → all (λ c. not (c == 95)) (ones n) ≡ true
unfolding ones
ones-plain zero = refl
ones-plain (suc n) = ones-plain n

format-plain : (t : ℤ) → all (λ c. not (c == 95)) (format t) ≡ true
format-plain (pos n) = ones-plain n
format-plain (negsuc n) = ones-plain n

tokens-IsTokens : IsTokens tokens
tokens-IsTokens = record {
  base64 = λ s. refl;
  stamp = parse-format;
  no_separator = format-plain;
  decode_empty = refl;
}

-- The id holds the separator of the tokens.
abbrev row : Text → Text → ℤ → TaskRow
row id owner t = record {
  id = id;
  context_id = codes "ctx";
  owner = owner;
  tenant = codes "acme";
  state = codes "working";
  version = pos 1;
  last_updated = t;
  status_timestamp = none;
  document = id;
}

abbrev three_rows : Tasks
three_rows =
    row (codes "t_1") ada (pos 2)
    ∷ row (codes "t_2") ada (pos 2)
    ∷ row (codes "t3") bob (pos 4)
    ∷ row (codes "t_4") ada (pos 1)
    ∷ []

abbrev two_a_page : Request
two_a_page = record {
  tenant = [];
  context_id = codes "ctx";
  status = [];
  page_size = pos 2;
  page_token = [];
  history_length = none;
  status_timestamp_after = none;
  include_artifacts = true;
}

abbrev view : TaskRow → Task
view r = a_task r.document []

walk-all_example :
    (walk codec tokens fine ada two_a_page three_rows
        (suc (length (all_wanted codec tokens fine two_a_page ada three_rows)))
        []
      ≡ some (
          map
            (listed codec tokens fine two_a_page view)
            (all_wanted codec tokens fine two_a_page ada three_rows)))
    × Newest (all_wanted codec tokens fine two_a_page ada three_rows)
unfolding text_eq
walk-all_example =
    walk-all codec tokens tokens-IsTokens fine two_a_page view ada three_rows (λ p. refl)
      (refl, (refl, (refl, (refl, tt))))
      ((refl, (refl, (refl, tt))), ((refl, (refl, tt)), ((refl, tt), (tt, tt)))) (ground arith) 2
      refl

-- The two newest, by id downwards, and then the oldest.
three_rows_wanted :
    map (λ (r : TaskRow). r.id) (all_wanted codec tokens fine two_a_page ada three_rows)
    ≡ codes "t_2" ∷ codes "t_1" ∷ codes "t_4" ∷ []
unfolding all_wanted order insert filter matches text_eq
three_rows_wanted = refl
