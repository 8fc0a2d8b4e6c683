-- ===== src/Data/Read/Again.antt =====
-- Reading a record after an audited write of it.
use agentops_open_course.Prelude.{
  ◌≡◌, inl, inr, refl, ap, sym, arith, true, false, Bool-cases, List, [], ◌∷◌, Option, none, some,
  if◌then◌else◌, Text, text_eq,
}
use agentops_open_course.Domain.Status.{service_operational, status_resolved}
use agentops_open_course.Domain.Record.{
  New, created, AuditEntry, ServiceRow, Service, new_service, IncidentRow, Incident, new_incident,
}
use agentops_open_course.Domain.Record.Changes.{operational_service, resolved_incident}
use agentops_open_course.Data.Tables.{
  Database, select_service, update_service, select_incident, update_incident, is_unresolved,
}
use agentops_open_course.Data.Transaction
use agentops_open_course.Data.Transaction.{AuditIdentity}
use agentops_open_course.Data.Write.Supported.{write-supported}
use agentops_open_course.Data.Write.{restarts, resolves, write}
use agentops_open_course.Data.Write.Effects.{Effect, write-Effect, restarted, resolved}
use agentops_open_course.Data.Read.{
  version_rows, version_column, has_unsupported, reject_future_audit_schema, Point, World, ok,
  opening, query, columns, scan, closing, with_database, read_row, queried, get_incident,
  get_service,
}
use agentops_open_course.Data.Read.Exact.{New-cases}

module _ {R A : Type 0} (w : World) (db : Database) (parse : R → New A) where
  row_read :
      (row : Option R) (a : A)
      → with_database w db (queried w (read_row w parse row)) ≡ ok (some a)
      → (r : R) × (has_unsupported db.audit_log ≡ false) × (row ≡ some r) × (parse r ≡ created a)
  unfolding with_database reject_future_audit_schema read_row
  row_read none a h = absurd (ground (arith, h))
  row_read (some r) a h = elim (New-cases (parse r)) [
    | inl (b, p) ↦
        let same : b ≡ a = ground (arith, h, p) in (r, ground (arith, h), refl, rw (sym same) p)
    | inr (fs, p) ↦ absurd (ground (arith, h, p))
  ]

  read_found :
      (row : R) (a : A)
      → ((p : Point) → w.fails p ≡ false)
      → has_unsupported db.audit_log ≡ false
      → parse row ≡ created a
      → with_database w db (queried w (read_row w parse (some row))) ≡ ok (some a)
  unfolding with_database reject_future_audit_schema read_row
  read_found row a works s p =
      rw
        (
          works opening,
          works version_column,
          works version_rows,
          s,
          works query,
          works columns,
          works scan,
          p,
          works closing,
        )
        refl

select-update_service :
    (name : Text) (rows : List ServiceRow) (row : ServiceRow)
    → select_service name rows ≡ some row
    → select_service name (update_service name rows)
      ≡ some (record row { status = service_operational })
unfolding select_service update_service
select-update_service name [] row h = absurd (ground (arith, h))
select-update_service name (r ∷ rows) row h = elim (Bool-cases (text_eq r.name name)) [
  | inl e ↦ let s : r ≡ row = ground (arith, h, e) in rw (e, e, s) refl
  | inr n ↦ rw (n, n) (select-update_service name rows row (rw n at h))
]

abbrev resolved_row : Text → Text → IncidentRow → IncidentRow
resolved_row now id row =
    if is_unresolved id row
    then record row { status = status_resolved; resolved_at = some now }
    else row

select-update_incident :
    (now id : Text) (rows : List IncidentRow) (row : IncidentRow)
    → select_incident id rows ≡ some row
    → select_incident id (update_incident now id rows) ≡ some (resolved_row now id row)
unfolding select_incident update_incident
select-update_incident now id [] row h = absurd (ground (arith, h))
select-update_incident now id (r ∷ rows) row h = elim (Bool-cases (text_eq r.id id)) [
  | inl e ↦
      let s : r ≡ row = ground (arith, h, e) in
      elim (Bool-cases (is_unresolved id r)) [
        | inl u ↦ rw (sym s, u, e) refl
        | inr u ↦ rw (sym s, u, e) refl
      ]
  | inr n ↦
      let u : is_unresolved id r ≡ false = rw n refl in
      rw (u, n) (select-update_incident now id rows row (rw n at h))
]

resolved_row-valid :
    (now id : Text) (row : IncidentRow) (i : Incident)
    → new_incident row ≡ created i
    → (j : Incident) × (new_incident (resolved_row now id row) ≡ created j)
resolved_row-valid now id row i h = elim (Bool-cases (is_unresolved id row)) [
  | inl u ↦ (
    record i { status = status_resolved; resolved_at = now; has_resolved_at = true },
    rw u (resolved_incident row i now h),
  )
  | inr u ↦ (i, rw u h)
]

-- The services after a restart, and the incidents after a resolution.
restart-services :
    (w : Transaction.World) (name : Text) (identity : AuditIdentity) (db db' : Database)
    (entry : AuditEntry)
    → Effect w db db' entry (restarts name identity)
    → db'.services ≡ update_service name db.services
restart-services w name identity db db' entry (restarted _ _ summary row sel app) =
    ap (λ (d : Database). d.services) app.db_is

resolve-incidents :
    (w : Transaction.World) (id : Text) (identity : AuditIdentity) (db db' : Database)
    (entry : AuditEntry)
    → Effect w db db' entry (resolves id identity)
    → db'.incidents ≡ update_incident w.update_now id db.incidents
resolve-incidents w id identity db db' entry (resolved _ _ summary row sel open_ app) =
    ap (λ (d : Database). d.incidents) app.db_is

module _ (reads reads' : World) (w : Transaction.World) (identity : AuditIdentity) (db : Database)
    (works : (p : Point) → reads'.fails p ≡ false) where
  pub service_again :
      (name : Text) (s : Service)
      → get_service reads name db ≡ ok (some s)
      → (s' : Service) × (get_service reads' name (write w (restarts name identity) db).1
          ≡ ok (some s'))
  unfolding get_service
  service_again name s h =
      let (row, sup, sel, valid) =
        row_read reads db new_service (select_service name db.services) s h in
      let db' = (write w (restarts name identity) db).1 in
      let sup' = write-supported w (restarts name identity) db sup in
      elim (write-Effect w (restarts name identity) db) [
        | inl same ↦ (s, rw (same, sel) (read_found reads' db new_service row s works sup valid))
        | inr (_, (entry, effect)) ↦
            let e = restart-services w name identity db _ entry effect in
            (
              record s { status = service_operational },
              rw (e, select-update_service name db.services row sel)
                  (read_found reads' db' new_service (record row { status = service_operational })
                    (record s { status = service_operational }) works sup'
                    (operational_service row s valid)),
            )
      ]

  pub incident_again :
      (id : Text) (i : Incident)
      → get_incident reads id db ≡ ok (some i)
      → (i' : Incident) × (get_incident reads' id (write w (resolves id identity) db).1
          ≡ ok (some i'))
  unfolding get_incident
  incident_again id i h =
      let (row, sup, sel, valid) =
        row_read reads db new_incident (select_incident id db.incidents) i h in
      let db' = (write w (resolves id identity) db).1 in
      let sup' = write-supported w (resolves id identity) db sup in
      elim (write-Effect w (resolves id identity) db) [
        | inl same ↦ (i, rw (same, sel) (read_found reads' db new_incident row i works sup valid))
        | inr (_, (entry, effect)) ↦
            let e = resolve-incidents w id identity db _ entry effect in
            let (j, valid') = resolved_row-valid w.update_now id row i valid in
            (
              j,
              rw (e, select-update_incident w.update_now id db.incidents row sel)
                  (read_found reads' db' new_incident _ j works sup' valid'),
            )
      ]
