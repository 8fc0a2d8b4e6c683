-- ===== src/A2a/Store/Reads.antt =====
-- What a write makes of the tasks that a caller reads.
use agentops_open_course.Prelude.{
  eq_ℤ-self, subst, ◌≡◌, ◌≢◌, ◌∙◌, sym, refl, arith, true, false, Bool-cases, inl, inr, [], ◌∷◌,
  ◌++◌, Option, none, some, Text, text_eq_iff, text_eq_self, ℤ, pos,
}
use agentops_open_course.A2a.Metadata.{Task}
use agentops_open_course.A2a.Tasks.{
  TaskRow, Tasks, World, Codec, Result, ok, not_decoded, look_up, owned_row, versioned_row, set_row,
  select_task, update_task, ◌>>=◌,
}
use agentops_open_course.A2a.Store.{inc_int64, required, new_row, create, update_store, get}
use agentops_open_course.A2a.Store.Cases.{
  Asked, Creates, Updates, created, updated, create_cases, update_cases,
}
use agentops_open_course.A2a.Store.Versions.{Write, creates, updates, apply, select-absent}

abbrev pub caller_of : Write → Option Text
caller_of (creates caller task) = caller
caller_of (updates caller task prev) = caller

abbrev pub task_of : Write → Option Task
task_of (creates caller task) = task
task_of (updates caller task prev) = task

module _ (id owner : Text) (row : TaskRow) where
  select-append :
      (db : Tasks)
      → owned_row id owner row ≡ false
      → select_task id owner (db ++ row ∷ []) ≡ select_task id owner db
  unfolding select_task
  select-append [] h = rw h refl
  select-append (r ∷ db) h = ground (arith, h, select-append db h)

  select-appended :
      (db : Tasks)
      → select_task id owner db ≡ none
      → owned_row id owner row ≡ true
      → select_task id owner (db ++ row ∷ []) ≡ some row
  unfolding select_task
  select-appended [] s h = rw h refl
  select-appended (r ∷ db) s h = ground (arith, s, h, select-appended db)

module _ (w : World) (task : Task) (owner encoded : Text) (next : ℤ) where
  select-update_foreign :
      (id other : Text) (stored : ℤ) (db : Tasks)
      → owner ≢ other
      → select_task id other (update_task w task owner stored next encoded db)
        ≡ select_task id other db
  unfolding select_task update_task
  select-update_foreign id other stored [] n = refl
  select-update_foreign id other stored (row ∷ db) n = ground (
    arith,
    n,
    select-update_foreign id other stored db n,
    text_eq_iff row.owner owner,
    text_eq_iff row.owner other,
  )

  first :
      (row r : TaskRow) (db : Tasks)
      → owned_row task.id owner r ≡ true
      → select_task task.id owner (r ∷ db) ≡ some row
      → r ≡ row
  unfolding select_task
  first row r db b h = let k : ◌≡◌ {A = Option TaskRow} (some r) (some row) = rw b at h in cc

  later :
      (row r : TaskRow) (db : Tasks)
      → owned_row task.id owner r ≡ false
      → select_task task.id owner (r ∷ db) ≡ some row
      → select_task task.id owner db ≡ some row
  unfolding select_task
  later row r db b h = rw b at h

  select-updated :
      (row : TaskRow) (db : Tasks)
      → select_task task.id owner db ≡ some row
      → select_task task.id owner (update_task w task owner row.version next encoded db)
        ≡ some (set_row w task next encoded row)
  unfolding select_task update_task
  select-updated row [] h = absurd (cc)
  select-updated row (r ∷ db) h = elim (Bool-cases (owned_row task.id owner r)) [
    | inl b ↦
        let same : r ≡ row = first row r db b h in
        let v : versioned_row task.id owner r.version r ≡ true = rw (b, eq_ℤ-self r.version) refl in
        rw (sym same, v, b) refl
    | inr b ↦
        let v : versioned_row task.id owner row.version r ≡ false = rw b refl in
        rw (v, b) (select-updated row db (later row r db b h))
  ]

-- What `Get` makes of the row that a write has left, for its owner.
abbrev pub read_back : Codec → Text → Text → ℤ → Result (Task × ℤ × Text)
read_back codec encoded owner v = do
  task ← required (codec.decode encoded) not_decoded
  ok (task, v, owner)

get-found :
    (codec : Codec) (w : World) (id owner : Text) (row : TaskRow) (db : Tasks)
    → w.fails look_up ≡ false
    → select_task id owner db ≡ some row
    → get codec w (some owner) id db ≡ read_back codec row.document owner row.version
unfolding get
get-found codec w id owner row db f h = rw (f, h) refl

module _ (codec : Codec) (w w' : World) (caller : Option Text) (request : Option Task)
    (db : Tasks) where
  created-read :
      (task : Task) (owner encoded : Text) (v : ℤ) (r : Result ℤ × Tasks)
      → w'.fails look_up ≡ false
      → Creates codec w caller request db r
      → r.0 ≡ ok v
      → Asked codec caller request (task, owner, encoded)
      → get codec w' (some owner) task.id r.1 ≡ read_back codec encoded owner v
  created-read task owner encoded v r f (Creates.refused e) k a = absurd (cc)
  created-read task owner encoded v r f (created t o e (a, b, c) h) k (a', b', c') =
      let st : t ≡ task = cc in
      let so : o ≡ owner = cc in
      let se : e ≡ encoded = cc in
      let sv : pos 1 ≡ v = cc in
      let row = new_row w t o e in
      let own : owned_row t.id o row ≡ true = rw (text_eq_self t.id, text_eq_self o) refl in
      let s = select-appended t.id o row db (select-absent t.id o db h) own in
      rw (sym st, sym so, sym se, sym sv) (get-found codec w' t.id o row (db ++ row ∷ []) f s)

  updated-read :
      (task : Task) (owner encoded : Text) (prev v : ℤ) (r : Result ℤ × Tasks)
      → w'.fails look_up ≡ false
      → Updates codec w caller request prev db r
      → r.0 ≡ ok v
      → Asked codec caller request (task, owner, encoded)
      → get codec w' (some owner) task.id r.1 ≡ read_back codec encoded owner v
  updated-read task owner encoded prev v r f (Updates.refused e) k a = absurd (cc)
  updated-read task owner encoded prev v r f (updated t o e row (a, b, c) s i one) k (a', b', c') =
      let st : t ≡ task = cc in
      let so : o ≡ owner = cc in
      let se : e ≡ encoded = cc in
      let sv : inc_int64 row.version ≡ v = cc in
      let n = inc_int64 row.version in
      let db' = update_task w t o row.version n e db in
      rw (sym st, sym so, sym se, sym sv)
        (get-found codec w' t.id o (set_row w t n e row) db' f (select-updated w t o e n row db s))

-- After a write that is accepted, its caller reads back the task that it wrote, as the encoding
-- keeps it, with the version that the write returned, when the store can then be read: in any
-- store, whatever its writes were.
pub write-get :
    (codec : Codec) (w w' : World) (write : Write) (task : Task) (owner encoded : Text) (v : ℤ)
    (db : Tasks)
    → task_of write ≡ some task
    → caller_of write ≡ some owner
    → codec.encode task ≡ some encoded
    → w'.fails look_up ≡ false
    → (apply codec w write db).0 ≡ ok v
    → get codec w' (some owner) task.id (apply codec w write db).1 ≡ read_back codec encoded owner v
write-get codec w w' (creates caller request) task owner encoded v db a b c f k =
    created-read codec w w' caller request db task owner encoded v _ f
      (create_cases codec w caller request db) k (a, b, c)
write-get codec w w' (updates caller request prev) task owner encoded v db a b c f k =
    updated-read codec w w' caller request db task owner encoded prev v _ f
      (update_cases codec w caller request prev db) k (a, b, c)

module _ (codec : Codec) (w : World) (request : Option Task) (db : Tasks)
    (id owner other : Text) where
  created-foreign :
      (r : Result ℤ × Tasks)
      → Creates codec w (some owner) request db r
      → owner ≢ other
      → select_task id other r.1 ≡ select_task id other db
  created-foreign r (Creates.refused e) n = refl
  created-foreign r (created t o e (a, b, c) h) n =
      let so : o ≡ owner = cc in
      select-append id other (new_row w t o e) db (ground (arith, n, so, text_eq_iff o other))

  updated-foreign :
      (prev : ℤ) (r : Result ℤ × Tasks)
      → Updates codec w (some owner) request prev db r
      → owner ≢ other
      → select_task id other r.1 ≡ select_task id other db
  updated-foreign prev r (Updates.refused e) n = refl
  updated-foreign prev r (updated t o e row (a, b, c) s i one) n =
      let so : owner ≡ o = cc in
      select-update_foreign w t o e (inc_int64 row.version) id other row.version db
        (λ k. n (so ∙ k))

get-select :
    (codec : Codec) (w : World) (id owner : Text) (db db' : Tasks)
    → select_task id owner db' ≡ select_task id owner db
    → get codec w (some owner) id db' ≡ get codec w (some owner) id db
unfolding get
get-select codec w id owner db db' h = rw h refl

-- What one caller writes changes nothing of what another reads, under any id, their own and the same.
pub write-foreign_get :
    (codec : Codec) (w w' : World) (write : Write) (owner other id : Text) (db : Tasks)
    → caller_of write ≡ some owner
    → owner ≢ other
    → get codec w' (some other) id (apply codec w write db).1 ≡ get codec w' (some other) id db
write-foreign_get codec w w' (creates caller request) owner other id db a n =
    get-select codec w' id other db (create codec w caller request db).1 (
      created-foreign codec w request db id owner other _
        (subst (λ c. Creates codec w c request db (create codec w caller request db)) a
          (create_cases codec w caller request db))
        n)
write-foreign_get codec w w' (updates caller request prev) owner other id db a n =
    get-select codec w' id other db (update_store codec w caller request prev db).1 (
      updated-foreign codec w request db id owner other prev _
        (subst
          (λ c. Updates codec w c request prev db (update_store codec w caller request prev db)) a
          (update_cases codec w caller request prev db))
        n)
