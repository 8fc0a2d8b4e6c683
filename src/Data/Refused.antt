-- ===== src/Data/Refused.antt =====
-- A database that a newer version has written.
use agentops_open_course.Prelude.{
  ◌≡◌, refl, ap, ◌∙◌, Option, Bool-cases, true, List, [], ◌∷◌, Text, inl, inr,
}
use agentops_open_course.Domain.Record.{AuditEntry}
use agentops_open_course.Data.Tables.{Database, has_unsupported, has_unsupported_iff}
use agentops_open_course.Data.Transaction
use agentops_open_course.Data.Transaction.{TxResult, with_database}
use agentops_open_course.Data.Write.{Write, transaction, write}
use agentops_open_course.Data.Write.Atomic.{write-with_database}
use agentops_open_course.Data.Write.Log.{run_writes}
use agentops_open_course.Data.Read.{
  World, Result, Error, err, IncidentFilter, list_incidents, list_services, get_incident,
  get_service, reject_future_audit_schema,
}
use agentops_open_course.Data.Read
use agentops_open_course.Data.Read.Exact.{IsSupported}

-- A read that returns an error.
abbrev pub Refused {ℓ} : {A : Type ℓ} → Result A → Type ℓ
Refused r = (e : Error) × (r ≡ err e)

module _ (db : Database) (unsupported : has_unsupported db.audit_log ≡ true) where
  read-Refused : {A : Type 0} (w : World) (body : Result A) → Refused (Read.with_database w db body)
  unfolding Read.with_database reject_future_audit_schema
  read-Refused w body = elim (Bool-cases (w.fails Read.opening)) [
    | inl o ↦ (Read.failed Read.opening, rw o refl)
    | inr o ↦ elim (Bool-cases (w.fails Read.version_column)) [
      | inl c ↦ (Read.failed Read.version_column, rw (o, c) refl)
      | inr c ↦ elim (Bool-cases (w.fails Read.version_rows)) [
        | inl r ↦ (Read.failed Read.version_rows, rw (o, c, r) refl)
        | inr r ↦ (Read.unsupported_audit_schema, rw (o, c, r, unsupported) refl)
      ]
    ]
  ]

  with_database_refused :
      (w : Transaction.World) (fn : Database → TxResult)
      → (e : Transaction.Error) × (with_database w fn db ≡ (Transaction.err e, db))
  unfolding with_database
  with_database_refused w fn = elim (Bool-cases (w.fails Transaction.opening)) [
    | inl o ↦ (Transaction.failed Transaction.opening, rw o refl)
    | inr o ↦ (Transaction.unsupported_audit_schema, rw (o, unsupported) refl)
  ]

  write_refused :
      (w : Transaction.World) (r : Write)
      → (e : Transaction.Error) × (write w r db ≡ (Transaction.err e, db))
  write_refused w r =
      let (e, h) = with_database_refused w (transaction w r) in (e, write-with_database w r db ∙ h)

  run_writes_refused : (ws : List (Transaction.World × Write)) → run_writes ws db ≡ db
  unfolding run_writes
  run_writes_refused [] = refl
  run_writes_refused ((w, r) ∷ ws) =
      let (e, h) = write_refused w r in
      ap (λ (o : Transaction.Result (Option AuditEntry) × Database). run_writes ws o.1) h
      ∙ run_writes_refused ws

not_supported : (db : Database) → ¬ IsSupported db → has_unsupported db.audit_log ≡ true
not_supported db h = elim (Bool-cases (has_unsupported db.audit_log)) [
  | inl u ↦ u
  | inr s ↦ absurd (h ((has_unsupported_iff db.audit_log).0 s))
]

-- When not every row of the audit log has schema version 1, then, whatever else fails, each write
-- returns an error and leaves the database as it is, so that every history of writes does, and each
-- read of the incidents or of the services, of all or of one, returns an error.
pub unsupported-Refused :
    (db : Database)
    → ¬ IsSupported db
    → ((w : Transaction.World) (r : Write)
        → (e : Transaction.Error) × (write w r db ≡ (Transaction.err e, db)))
      × ((ws : List (Transaction.World × Write)) → run_writes ws db ≡ db)
      × ((w : World) (f : IncidentFilter) (key : Text)
          → Refused (list_incidents w f db)
            × Refused (list_services w db)
            × Refused (get_incident w key db)
            × Refused (get_service w key db))
unfolding list_incidents list_services get_incident get_service
unsupported-Refused db h =
    let u = not_supported db h in
    (
      write_refused db u,
      run_writes_refused db u,
      λ w f key. (
        read-Refused db u w _,
        read-Refused db u w _,
        read-Refused db u w _,
        read-Refused db u w _,
      ),
    )
