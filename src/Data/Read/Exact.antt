-- ===== src/Data/Read/Exact.antt =====
-- What a read returns, against the table.
use agentops_open_course.Prelude.{
  pos, ◌∙◌, Bool-cases, inr, inl, ◌⊎◌, ◌≡◌, ◌↔◌, refl, sym, subst, arith, false, List, [], ◌∷◌, map,
  All,
}
use agentops_open_course.Domain.Record.{
  New, created, rejected, Incident, new_incident, incident_row, Service, new_service, service_row,
}
use agentops_open_course.Domain.Record.Rows.{incident_round_trip, service_round_trip}
use agentops_open_course.Data.Tables.{has_unsupported_iff, Database}
use agentops_open_course.Data.Read.{
  version_rows, has_unsupported, version_column, reject_future_audit_schema, Error, Field, Point,
  World, Result, ok, err, opening, query, columns, next, scan, closing, with_database, read_rows,
  queried, IncidentFilter, select_incidents, select_services, list_incidents, list_services,
}

pub New-cases {ℓ} :
    {A : Type ℓ} (n : New A) → ((a : A) × (n ≡ created a)) ⊎ ((fs : List Field) × (n ≡ rejected fs))
New-cases (created a) = inl (a, refl)
New-cases (rejected fs) = inr (fs, refl)

Result-cases {ℓ} :
    {A : Type ℓ} (m : Result A) → ((a : A) × (m ≡ ok a)) ⊎ ((e : Error) × (m ≡ err e))
Result-cases (ok a) = inl (a, refl)
Result-cases (err e) = inr (e, refl)

read_rows-step :
    {R A : Type 0} (w : World) (parse : R → New A) (row : R) (rows : List R) (xs : List A)
    → read_rows w parse (row ∷ rows) ≡ ok xs
    → (a : A) × (rest : List A) × (parse row ≡ created a)
      × (read_rows w parse rows ≡ ok rest)
      × (xs ≡ a ∷ rest)
unfolding read_rows
read_rows-step w parse row rows xs h = elim (Bool-cases (w.fails scan)) [
  | inl f ↦ absurd (ground (arith, f))
  | inr f ↦ elim (New-cases (parse row)) [
    | inr (fs, p) ↦ absurd (ground (arith, f, p))
    | inl (a, p) ↦ elim (Result-cases (read_rows w parse rows)) [
      | inr (e, q) ↦ absurd (ground (arith, f, p, q))
      | inl (rest, q) ↦ (a, rest, p, q, ground (arith, f, p, q))
    ]
  ]
]

module _ {R A : Type 0} (w : World) (parse : R → New A) (print : A → R)
    (back : (row : R) (a : A)
      → parse row ≡ created a
      → (print a ≡ row) × (parse (print a) ≡ created a)) where
  read_rows-print :
      (rows : List R) (xs : List A)
      → read_rows w parse rows ≡ ok xs
      → (map print xs ≡ rows) × All (λ a. parse (print a) ≡ created a) xs
  unfolding read_rows
  read_rows-print [] xs h = elim (Bool-cases (w.fails next)) [
    | inl f ↦ absurd (ground (arith, f))
    | inr f ↦ let e : [] ≡ xs = ground (arith, f) in rw (sym e) (refl, tt)
  ]
  read_rows-print (row ∷ rows) xs h =
      let (a, rest, p, q, e) = read_rows-step w parse row rows xs h in
      let (same, again) = back row a p in
      let (l, v) = read_rows-print rows rest q in rw e (cc, (again, v))

  print-read_rows :
      (xs : List A)
      → ((p : Point) → w.fails p ≡ false)
      → All (λ a. parse (print a) ≡ created a) xs
      → read_rows w parse (map print xs) ≡ ok xs
  unfolding read_rows
  print-read_rows [] works h = rw (works next) refl
  print-read_rows (x ∷ xs) works (p, h) = rw (works scan, p, print-read_rows xs works h) refl

-- Every entry of the audit log has the one schema version that there is.
abbrev pub IsSupported : Database → Type 0
IsSupported db = All (λ row. row.schema_version ≡ pos 1) db.audit_log

module _ {ℓ} {A : Type ℓ} (w : World) (db : Database) (body : Result A) (a : A) where
  database_ok :
      ((p : Point) → w.fails p ≡ false)
      → with_database w db (queried w body) ≡ ok a
      → IsSupported db × (body ≡ ok a)
  unfolding with_database reject_future_audit_schema
  database_ok works h = elim (Bool-cases (has_unsupported db.audit_log)) [
    | inl u ↦ absurd (ground (arith, u, works opening, works version_column, works version_rows))
    | inr s ↦ elim (Result-cases body) [
      | inl (b, q) ↦
          let e : ok b ≡ ok a = ground (
            arith,
            s,
            works opening,
            works version_column,
            works version_rows,
            works query,
            works columns,
            works closing,
            q,
          ) in
          ((has_unsupported_iff db.audit_log).0 s, q ∙ e)
      | inr (e, q) ↦ absurd (
          ground (
            arith,
            s,
            works opening,
            works version_column,
            works version_rows,
            works query,
            works columns,
            q,
          ))
    ]
  ]

  ok_database :
      ((p : Point) → w.fails p ≡ false)
      → IsSupported db
      → body ≡ ok a
      → with_database w db (queried w body) ≡ ok a
  unfolding with_database reject_future_audit_schema
  ok_database works s h =
      rw
        (
          works opening,
          works version_column,
          works version_rows,
          (has_unsupported_iff db.audit_log).1 s,
          works query,
          works columns,
          h,
          works closing,
        )
        refl

-- When no call of the engine fails, a list of incidents, or of services, is returned exactly when every
-- row of the audit log has schema version 1, the records of the list give back, one by one and in
-- order, the rows that the query selects, and each record is valid: one malformed row, or one audit
-- row of another version, makes the read fail whole, and nothing else does.
pub lists-Exact :
    (w : World) (f : IncidentFilter) (db : Database) (is : List Incident) (ss : List Service)
    → ((p : Point) → w.fails p ≡ false)
    → ((list_incidents w f db ≡ ok is) ↔ (
        IsSupported db
        × (map incident_row is ≡ select_incidents f db)
        × All (λ i. new_incident (incident_row i) ≡ created i) is))
      × ((list_services w db ≡ ok ss) ↔ (
          IsSupported db
          × (map service_row ss ≡ select_services db)
          × All (λ s. new_service (service_row s) ≡ created s) ss))
unfolding list_incidents list_services
lists-Exact w f db is ss works = (
  (
    (λ h.
        let (s, read) = database_ok w db _ is works h in
        let (e, v) = read_rows-print w new_incident incident_row incident_round_trip _ is read in
        (s, e, v)),
    λ (s, e, v). ok_database w db _ is works s (
        subst (λ rows. read_rows w new_incident rows ≡ ok is) e
          (print-read_rows w new_incident incident_row incident_round_trip is works v)),
  ),
  (
    (λ h.
        let (s, read) = database_ok w db _ ss works h in
        let (e, v) = read_rows-print w new_service service_row service_round_trip _ ss read in
        (s, e, v)),
    λ (s, e, v). ok_database w db _ ss works s (
        subst (λ rows. read_rows w new_service rows ≡ ok ss) e
          (print-read_rows w new_service service_row service_round_trip ss works v)),
  ),
)
