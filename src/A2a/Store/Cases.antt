-- ===== src/A2a/Store/Cases.antt =====
-- What a write of the task store comes to.
use agentops_open_course.Prelude.{
  none, arith, ◌==◌, ==_iff, ◌≡◌, ◌⊎◌, inl, inr, refl, true, false, Bool-cases, Option-cases, [],
  ◌∷◌, ◌++◌, Option, some, Text, ℤ, pos, inc_int64,
}
use agentops_open_course.A2a.Metadata.{Task}
use agentops_open_course.A2a.Tasks.{
  TaskRow, Tasks, begin, look_up, insert, update, affected, commit, World, Codec, Error, Result, ok,
  err, store_failed, task_already_exists, task_not_found, concurrent_modification, wrong_count,
  in_write_transaction, has_task, select_task, update_task, tasks_affected,
}
use agentops_open_course.A2a.Store.{
  is_current, new_row, create_tx, create_request, create, update_tx, update_request, update_store,
}

pub Result-cases {ℓ} :
    {A : Type ℓ} (m : Result A) → ((e : Error) × (m ≡ err e)) ⊎ ((a : A) × (m ≡ ok a))
Result-cases (err e) = inl (e, refl)
Result-cases (ok a) = inr (a, refl)

-- What a request that comes to a transaction is: the caller's task, encoded.
abbrev pub Asked : Codec → Option Text → Option Task → Task × Text × Text → Type 0
Asked codec caller request (task, owner, encoded) =
    (request ≡ some task) × (caller ≡ some owner) × (codec.encode task ≡ some encoded)

-- A write is refused and changes nothing, or adds one row under an id that is new.
pub data Creates (codec : Codec) (w : World) (caller : Option Text) (request : Option Task)
    (db : Tasks) : Result ℤ × Tasks → Type 0 where
  refused : (e : Error) → Creates codec w caller request db (err e, db)
  created :
      (task : Task) (owner encoded : Text)
      → Asked codec caller request (task, owner, encoded)
      → has_task task.id db ≡ false
      → Creates codec w caller request db (ok (pos 1), db ++ new_row w task owner encoded ∷ [])

-- Or it sets the one row of its task, whose version it steps.
pub data Updates (codec : Codec) (w : World) (caller : Option Text) (request : Option Task)
    (prev : ℤ) (db : Tasks) : Result ℤ × Tasks → Type 0 where
  refused : (e : Error) → Updates codec w caller request prev db (err e, db)
  updated :
      (task : Task) (owner encoded : Text) (row : TaskRow)
      → Asked codec caller request (task, owner, encoded)
      → select_task task.id owner db ≡ some row
      → is_current prev row.version ≡ true
      → tasks_affected task.id owner row.version db ≡ 1
      → Updates codec w caller request prev db (
        ok (inc_int64 row.version),
        update_task w task owner row.version (inc_int64 row.version) encoded db,
      )

create_request-Asked :
    (codec : Codec) (caller : Option Text) (request : Option Task) (asked : Task × Text × Text)
    → create_request codec caller request ≡ ok asked
    → Asked codec caller request asked
unfolding create_request
create_request-Asked codec caller none asked h = ground (arith, h)
create_request-Asked codec none (some task) asked h = ground (arith, h)
create_request-Asked codec (some owner) (some task) asked h = ground (arith, h)

update_request-Asked :
    (codec : Codec) (caller : Option Text) (request : Option Task) (asked : Task × Text × Text)
    → update_request codec caller request ≡ ok asked
    → Asked codec caller request asked
unfolding update_request
update_request-Asked codec caller none asked h = ground (arith, h)
update_request-Asked codec none (some task) asked h = ground (arith, h)
update_request-Asked codec (some owner) (some task) asked h = ground (arith, h)

module _ {ℓ} {A : Type ℓ} (w : World) (body : Tasks → Result (A × Tasks)) (db : Tasks) where
  -- Nothing of a transaction is kept, or all of what its body has done.
  pub transaction_cases :
      ((e : Error) × (in_write_transaction w body db ≡ (err e, db)))
      ⊎ ((a : A) × (db' : Tasks) × (body db ≡ ok (a, db'))
          × (in_write_transaction w body db ≡ (ok a, db')))
  unfolding in_write_transaction
  transaction_cases = elim (Bool-cases (w.fails begin)) [
    | inl b ↦ inl (store_failed begin, rw b refl)
    | inr b ↦ elim (Result-cases (body db)) [
      | inl (e, h) ↦ inl (e, rw (b, h) refl)
      | inr ((a, db'), h) ↦ elim (Bool-cases (w.fails commit)) [
        | inl c ↦ inl (store_failed commit, rw (b, h, c) refl)
        | inr c ↦ inr (a, db', h, rw (b, h, c) refl)
      ]
    ]
  ]

module _ (w : World) (task : Task) (owner encoded : Text) (db : Tasks) where
  create_tx_cases :
      ((e : Error) × (create_tx w task owner encoded db ≡ err e))
      ⊎ ((has_task task.id db ≡ false)
          × (create_tx w task owner encoded db
              ≡ ok (pos 1, db ++ new_row w task owner encoded ∷ [])))
  unfolding create_tx
  create_tx_cases = elim (Bool-cases (w.fails look_up)) [
    | inl f ↦ inl (store_failed look_up, rw f refl)
    | inr f ↦ elim (Bool-cases (has_task task.id db)) [
      | inl h ↦ inl (task_already_exists, rw (f, h) refl)
      | inr h ↦ elim (Bool-cases (w.fails insert)) [
        | inl g ↦ inl (store_failed insert, rw (f, h, g) refl)
        | inr g ↦ inr (h, rw (f, h, g) refl)
      ]
    ]
  ]

  update_tx_cases :
      (prev : ℤ)
      → ((e : Error) × (update_tx w task prev owner encoded db ≡ err e))
        ⊎ ((row : TaskRow) × (select_task task.id owner db ≡ some row)
            × (is_current prev row.version ≡ true)
            × (tasks_affected task.id owner row.version db ≡ 1)
            × (update_tx w task prev owner encoded db
                ≡ ok (
                  inc_int64 row.version,
                  update_task w task owner row.version (inc_int64 row.version) encoded db,
                )))
  unfolding update_tx
  update_tx_cases prev = elim (Bool-cases (w.fails look_up)) [
    | inl f ↦ inl (store_failed look_up, rw f refl)
    | inr f ↦ elim (Option-cases (select_task task.id owner db)) [
      | inl s ↦ inl (task_not_found, rw (f, s) refl)
      | inr (row, s) ↦ elim (Bool-cases (is_current prev row.version)) [
        | inr c ↦ inl (concurrent_modification, rw (f, s, c) refl)
        | inl c ↦ elim (Bool-cases (w.fails update)) [
          | inl g ↦ inl (store_failed update, rw (f, s, c, g) refl)
          | inr g ↦ elim (Bool-cases (w.fails affected)) [
            | inl k ↦ inl (store_failed affected, rw (f, s, c, g, k) refl)
            | inr k ↦ elim (Bool-cases (tasks_affected task.id owner row.version db == 1)) [
              | inr n ↦ inl (
                wrong_count (tasks_affected task.id owner row.version db),
                rw (f, s, c, g, k, n) refl,
              )
              | inl n ↦ inr (
                row,
                s,
                c,
                (==_iff (tasks_affected task.id owner row.version db) 1).0 n,
                rw (f, s, c, g, k, n) refl,
              )
            ]
          ]
        ]
      ]
    ]
  ]

pub create_cases :
    (codec : Codec) (w : World) (caller : Option Text) (request : Option Task) (db : Tasks)
    → Creates codec w caller request db (create codec w caller request db)
unfolding create
create_cases codec w caller request db = elim (Result-cases (create_request codec caller request)) [
  | inl (e, h) ↦ rw (h, create) (Creates.refused e)
  | inr ((t, owner, encoded), h) ↦ elim (transaction_cases w (create_tx w t owner encoded) db) [
    | inl (e, k) ↦ rw (h, create, k) (Creates.refused e)
    | inr (v, db', b, k) ↦ elim (create_tx_cases w t owner encoded db) [
      | inl (e, c) ↦ absurd (cc)
      | inr (n, c) ↦
          let v_eq : v ≡ pos 1 = cc in
          let db_eq : db' ≡ db ++ new_row w t owner encoded ∷ [] = cc in
          rw (h, create, k, v_eq, db_eq)
            (created t owner encoded (create_request-Asked codec caller request _ h) n)
    ]
  ]
]

pub update_cases :
    (codec : Codec) (w : World) (caller : Option Text) (request : Option Task) (prev : ℤ)
    (db : Tasks)
    → Updates codec w caller request prev db (update_store codec w caller request prev db)
unfolding update_store
update_cases codec w caller request prev db =
    elim (Result-cases (update_request codec caller request)) [
      | inl (e, h) ↦ rw (h, update_store) (Updates.refused e)
      | inr ((t, owner, encoded), h) ↦
          elim (transaction_cases w (update_tx w t prev owner encoded) db) [
            | inl (e, k) ↦ rw (h, update_store, k) (Updates.refused e)
            | inr (v, db', b, k) ↦ elim (update_tx_cases w t owner encoded db prev) [
              | inl (e, c) ↦ absurd (cc)
              | inr (row, s, c, n, u) ↦
                  let v_eq : v ≡ inc_int64 row.version = cc in
                  let db_eq : db'
                      ≡ update_task w t owner row.version (inc_int64 row.version) encoded db =
                    cc in
                  rw (h, update_store, k, v_eq, db_eq)
                    (updated t owner encoded row (update_request-Asked codec caller request _ h) s c
                      n)
            ]
          ]
    ]
