-- ===== src/A2a/Store/Versions.antt =====
-- The versions of the tasks over a history of writes.
pub mod Lost
use agentops_open_course.Prelude.{
  eq_ℤ-true, ◌∙◌, ℕ, suc, ◌+◌, ◌≤◌, ◌<◌, ◌≡◌, ◌≢◌, inl, inr, refl, ap, sym, subst, arith, Bool,
  true, false, not, ◌&&◌, ◌||◌, Bool-cases, Option-cases, List, [], ◌∷◌, ◌++◌, Option, none, some,
  if◌then◌else◌, Text, text_eq, text_eq_iff, text_eq_self, ℤ, pos, negsuc, pos_part, inc_int64,
  max_int64, length,
}
use agentops_open_course.A2a.Metadata.{Task}
use agentops_open_course.A2a.Tasks.{
  TaskRow, Tasks, World, Codec, Error, Result, ok, err, owned_row, versioned_row, set_row, has_task,
  select_task, update_task, tasks_affected,
}
use agentops_open_course.A2a.Store.{is_current, version_missing, new_row, create, update_store}
use agentops_open_course.A2a.Store.Cases.{
  created, updated, Creates, Updates, create_cases, update_cases,
}

-- A write that a caller asks for.
pub data Write : Type 0 where
  creates : (caller : Option Text) (task : Option Task) → Write
  updates : (caller : Option Text) (task : Option Task) (prev : ℤ) → Write

abbrev pub apply : Codec → World → Write → Tasks → Result ℤ × Tasks
apply codec w (creates caller task) db = create codec w caller task db
apply codec w (updates caller task prev) db = update_store codec w caller task prev db

-- The writes in the order in which their transactions run.
unfoldable pub run : Codec → List (World × Write) → Tasks → Tasks
run codec [] db = db
run codec ((w, write) ∷ writes) db = run codec writes (apply codec w write db).1

-- One row for an id, and versions from 1 to n.
abbrev pub IsStore : ℕ → Tasks → Type 0
IsStore n [] = Unit {0}
IsStore n (row ∷ rows) =
    ((v : ℕ) × (row.version ≡ pos v) × (1 ≤ v) × (v ≤ n))
    × (has_task row.id rows ≡ false)
    × IsStore n rows

-- The version of a task, or 0.
unfoldable pub version_of : Text → Tasks → ℕ
version_of id [] = 0
version_of id (row ∷ rows) = if text_eq row.id id then pos_part row.version else version_of id rows

pub inc-pos : (v n : ℕ) → v ≤ n → n < max_int64 → inc_int64 (pos v) ≡ pos (suc v)
inc-pos v n h k = ground (arith, h, k)

tasks_affected-absent :
    (id owner : Text) (s : ℤ) (db : Tasks)
    → has_task id db ≡ false
    → tasks_affected id owner s db ≡ 0
unfolding has_task tasks_affected
tasks_affected-absent id owner s [] h = refl
tasks_affected-absent id owner s (row ∷ rows) h =
    ground (arith, h, tasks_affected-absent id owner s rows)

pub select-absent :
    (id owner : Text) (db : Tasks) → has_task id db ≡ false → select_task id owner db ≡ none
unfolding has_task select_task
select-absent id owner [] h = refl
select-absent id owner (row ∷ rows) h = ground (arith, h, select-absent id owner rows)

absent-version : (id : Text) (db : Tasks) → has_task id db ≡ false → version_of id db ≡ 0
unfolding has_task version_of
absent-version id [] h = refl
absent-version id (row ∷ rows) h = ground (arith, h, absent-version id rows)

pub select-version :
    (n : ℕ) (id owner : Text) (row : TaskRow) (db : Tasks)
    → IsStore n db
    → select_task id owner db ≡ some row
    → (row.version ≡ pos (version_of id db)) × (version_of id db ≤ n)
unfolding select_task version_of
select-version n id owner row [] s h = absurd (cc)
select-version n id owner row (r ∷ rows) ((v, e, p, q), u, s) h =
    elim (Bool-cases (text_eq r.id id)) [
      | inr i ↦ let ih = select-version n id owner row rows s in rw i (ih (ground (arith, h, i)))
      | inl i ↦
          let a : has_task id rows ≡ false =
            subst (λ t. has_task t rows ≡ false) ((text_eq_iff r.id id).0 i) u in
          ground (arith, h, i, e, p, q, select-absent id owner rows a)
    ]

module _ (n : ℕ) (w : World) (task : Task) (owner encoded : Text) (v : ℕ) where
  update-has_task :
      (id : Text) (s next : ℤ) (db : Tasks)
      → has_task id (update_task w task owner s next encoded db) ≡ has_task id db
  unfolding has_task update_task
  update-has_task id s next [] = refl
  update-has_task id s next (row ∷ rows) = ground (arith, update-has_task id s next rows)

  update-IsStore :
      (db : Tasks)
      → v ≤ n
      → IsStore n db
      → IsStore (suc n) (update_task w task owner (pos v) (pos (suc v)) encoded db)
  unfolding update_task
  update-IsStore [] le s = tt
  update-IsStore (row ∷ rows) le ((k, e, p, q), u, s) =
      let rest = update-IsStore rows le s in
      let same = update-has_task row.id (pos v) (pos (suc v)) rows in
      elim (Bool-cases (versioned_row task.id owner (pos v) row)) [
        | inl b ↦ rw b ((suc v, refl, omega arith, omega (arith, le)), same ∙ u, rest)
        | inr b ↦ rw b ((k, e, p, omega (arith, q)), same ∙ u, rest)
      ]

  update-grows :
      (id : Text) (db : Tasks)
      → version_of id db ≤ version_of id (update_task w task owner (pos v) (pos (suc v)) encoded db)
  unfolding update_task version_of
  update-grows id [] = omega arith
  update-grows id (row ∷ rows) = ground (arith, update-grows id rows, eq_ℤ-true row.version (pos v))

  pub update-version :
      (db : Tasks)
      → IsStore n db
      → tasks_affected task.id owner (pos v) db ≡ 1
      → version_of task.id (update_task w task owner (pos v) (pos (suc v)) encoded db) ≡ suc v
  unfolding update_task version_of tasks_affected
  update-version [] s h = absurd (omega (arith, h))
  update-version (row ∷ rows) (b, u, s) h = elim (Bool-cases (text_eq row.id task.id)) [
    | inr i ↦ ground (arith, h, i, update-version rows s)
    | inl i ↦
        let a : has_task task.id rows ≡ false =
          subst (λ t. has_task t rows ≡ false) ((text_eq_iff row.id task.id).0 i) u in
        ground (arith, h, i, tasks_affected-absent task.id owner (pos v) rows a)
  ]

append-has_task :
    (id : Text) (db rows : Tasks) → has_task id (db ++ rows) ≡ (has_task id db || has_task id rows)
unfolding has_task
append-has_task id [] rows = refl
append-has_task id (row ∷ db) rows = ground (arith, append-has_task id db rows)

append-IsStore :
    (n : ℕ) (row : TaskRow) (db : Tasks)
    → row.version ≡ pos 1
    → has_task row.id db ≡ false
    → IsStore n db
    → IsStore (suc n) (db ++ row ∷ [])
unfolding has_task
append-IsStore n row [] e h s = ((1, e, omega arith, omega arith), refl, tt)
append-IsStore n row (r ∷ db) e h ((k, f, p, q), u, s) = (
  (k, f, p, omega (arith, q)),
  ground (
    arith,
    append-has_task r.id db (row ∷ []),
    u,
    h,
    text_eq_iff row.id r.id,
    text_eq_iff r.id row.id,
  ),
  append-IsStore n row db e (ground (arith, h)) s,
)

append-grows : (id : Text) (db rows : Tasks) → version_of id db ≤ version_of id (db ++ rows)
unfolding version_of
append-grows id [] rows = omega arith
append-grows id (row ∷ db) rows = ground (arith, append-grows id db rows)

weaken : (n : ℕ) (db : Tasks) → IsStore n db → IsStore (suc n) db
weaken n [] s = tt
weaken n (row ∷ db) ((k, f, p, q), u, s) = ((k, f, p, omega (arith, q)), u, weaken n db s)

-- What a write does to the versions.
abbrev pub Grows : ℕ → Tasks → Result ℤ × Tasks → Type 0
Grows n db r = IsStore (suc n) r.1 × ((id : Text) → version_of id db ≤ version_of id r.1)

created-Grows :
    (codec : Codec) (caller : Option Text) (request : Option Task) (n : ℕ) (w : World) (db : Tasks)
    (r : Result ℤ × Tasks)
    → IsStore n db
    → Creates codec w caller request db r
    → Grows n db r
created-Grows codec caller request n w db r s (Creates.refused e) =
    (weaken n db s, λ id. omega arith)
created-Grows codec caller request n w db r s (created task owner encoded a h) = (
  append-IsStore n (new_row w task owner encoded) db refl h s,
  λ id. append-grows id db (new_row w task owner encoded ∷ []),
)

updated-Grows :
    (codec : Codec) (caller : Option Text) (request : Option Task) (n : ℕ) (w : World) (prev : ℤ)
    (db : Tasks) (r : Result ℤ × Tasks)
    → n < max_int64
    → IsStore n db
    → Updates codec w caller request prev db r
    → Grows n db r
updated-Grows codec caller request n w prev db r b s (Updates.refused e) =
    (weaken n db s, λ id. omega arith)
updated-Grows codec caller request n w prev db r b s (updated task owner encoded row a h c m) =
    let v = version_of task.id db in
    let (e, le) = select-version n task.id owner row db s h in
    rw (e, inc-pos v n le b)
      (
        update-IsStore n w task owner encoded v db le s,
        λ id. update-grows n w task owner encoded v id db,
      )

pub apply-Grows :
    (codec : Codec) (n : ℕ) (w : World) (write : Write) (db : Tasks)
    → n < max_int64
    → IsStore n db
    → Grows n db (apply codec w write db)
apply-Grows codec n w (creates caller task) db b s =
    created-Grows codec caller task n w db _ s (create_cases codec w caller task db)
apply-Grows codec n w (updates caller task prev) db b s =
    updated-Grows codec caller task n w prev db _ b s (update_cases codec w caller task prev db)

pub run-Grows :
    (codec : Codec) (n : ℕ) (writes : List (World × Write)) (db : Tasks)
    → n + length writes ≤ max_int64
    → IsStore n db
    → IsStore (n + length writes) (run codec writes db)
      × ((id : Text) → version_of id db ≤ version_of id (run codec writes db))
unfolding run
run-Grows codec n [] db b s = (subst (λ m. IsStore m db) (omega arith) s, λ id. omega arith)
run-Grows codec n ((w, write) ∷ writes) db b s =
    let (t, g) = apply-Grows codec n w write db (omega (arith, b)) s in
    let (u, k) = run-Grows codec (suc n) writes (apply codec w write db).1 (omega (arith, b)) t in
    (
      subst (λ m. IsStore m (run codec writes (apply codec w write db).1)) (omega arith) u,
      λ id. omega (arith, g id, k id),
    )
