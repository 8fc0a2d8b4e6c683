-- ===== src/Data/Write/Effects.antt =====
-- What a write that changes the database has done to it.
use agentops_open_course.Prelude.{
  Bool-cases, true, false, Option, none, some, ◌≡◌, ◌⊎◌, inl, inr, arith, Text, text_eq,
  Option-cases,
}
use agentops_open_course.Domain.Status.{status_resolved}
use agentops_open_course.Domain.Record.{
  created, AuditEntryRow, AuditEntry, new_audit_entry, ServiceRow, IncidentRow,
}
use agentops_open_course.Data.Tables.{
  select_open_incidents, Database, select_audit, select_service, update_service, select_incident,
  update_incident,
}
use agentops_open_course.Data.Transaction.{
  Step-cases, AuditIdentity, AuditRequest, World, ok, append_row, audit_for_idempotency_key,
  Result-cases,
}
use agentops_open_course.Data.Write.{
  restart_fresh, resolve_fresh, restart_summary, resolution_summary, restart_tx, resolve_tx,
  restart_request, resolve_request, action_restart_service, action_resolve_incident, restarts,
  resolves, transaction, write, Write, appends, append_tx,
}
use agentops_open_course.Data.Write.Atomic.{
  write-with_database, with_database_effect, Appended, append_row-Appended, checked_cases,
}

-- The idempotency key of a write.
abbrev pub invocation_of : Write → Text
invocation_of (appends request) = request.invocation_id
invocation_of (restarts name identity) = identity.invocation_id
invocation_of (resolves id identity) = identity.invocation_id

abbrev pub action_of : Write → Text
action_of (appends request) = request.action
action_of (restarts name identity) = action_restart_service
action_of (resolves id identity) = action_resolve_incident

abbrev pub target_of : Write → Text
target_of (appends request) = request.target
target_of (restarts name identity) = name
target_of (resolves id identity) = id

-- The audit entry under the key of the write.
abbrev pub recorded_row : Write → Database → Option AuditEntryRow
recorded_row r db = select_audit (invocation_of r) (action_of r) (target_of r) db.audit_log

-- The change that a write makes when its key is new: an append inserts its entry; a restart sets
-- the status of the named service; a resolution sets the status and the time of the named
-- incident, which was not resolved. Each inserts one valid entry in the same step.
pub data Effect (w : World) (db db' : Database) (entry : AuditEntry) : Write → Type 0 where
  appended :
      (request : AuditRequest)
      → Appended w request db db' entry
      → Effect w db db' entry (appends request)
  restarted :
      (name : Text) (identity : AuditIdentity) (summary : Text) (row : ServiceRow)
      → select_service name db.services ≡ some row
      → Appended w
          (restart_request name identity summary)
          (record db { services = update_service name db.services })
          db'
          entry
      → Effect w db db' entry (restarts name identity)
  resolved :
      (id : Text) (identity : AuditIdentity) (summary : Text) (row : IncidentRow)
      → select_incident id db.incidents ≡ some row
      → text_eq row.status status_resolved ≡ false
      → Appended w
          (resolve_request id identity summary)
          (record db { incidents = update_incident w.update_now id db.incidents })
          db'
          entry
      → Effect w db db' entry (resolves id identity)

pub key_found :
    (w : World) (i a t : Text) (db : Database) (o : Option AuditEntry)
    → audit_for_idempotency_key w i a t db ≡ ok o
    → ((o ≡ none) × (select_audit i a t db.audit_log ≡ none))
      ⊎ ((row : AuditEntryRow) × (entry : AuditEntry) × (o ≡ some entry)
          × (select_audit i a t db.audit_log ≡ some row)
          × (new_audit_entry row ≡ created entry))
unfolding audit_for_idempotency_key
key_found w i a t db o h = elim (Option-cases (select_audit i a t db.audit_log)) [
  | inl q ↦ inl (ground (arith, q), q)
  | inr (row, q) ↦ elim (checked_cases (new_audit_entry row)) [
    | inl (entry, n) ↦ inr (row, entry, ground (arith, q, n), q, n)
    | inr (e, n) ↦ absurd (ground (arith, q, n))
  ]
]

-- What a committed transaction has done.
abbrev pub Commits : World → Write → Database → Database → Option AuditEntry → Type 0
Commits w r db db' entry =
    (recorded_row r db ≡ none) × ((a : AuditEntry) × (entry ≡ some a) × Effect w db db' a r)

append_tx-Commits :
    (w : World) (request : AuditRequest) (db db' : Database) (entry : Option AuditEntry)
    → append_tx w request db ≡ (ok (true, entry), db')
    → Commits w (appends request) db db' entry
unfolding append_tx
append_tx-Commits w request db db' entry h =
    elim (Result-cases
      (audit_for_idempotency_key w request.invocation_id request.action request.target db)) [
        | inr (e, q) ↦ absurd (ground (arith, q))
        | inl (o, q) ↦
            elim (key_found w request.invocation_id request.action request.target db o q) [
              | inr (row, a, oe, s, n) ↦ absurd (ground (arith, q, oe))
              | inl (oe, s) ↦ elim (Step-cases (append_row w request db)) [
                | inr (e, _, x) ↦ absurd (ground (arith, q, oe, x))
                | inl (a, db'', x) ↦
                    let same : db'' ≡ db' = ground (arith, q, oe, x) in
                    (
                      s,
                      (
                        a,
                        ground (arith, q, oe, x),
                        appended request (rw same at (append_row-Appended w request db db'' a x)),
                      ),
                    )
              ]
            ]
      ]

restart_tx-fresh :
    (w : World) (name : Text) (identity : AuditIdentity) (db db' : Database)
    (entry : Option AuditEntry)
    → restart_tx w name identity db ≡ (ok (true, entry), db')
    → (recorded_row (restarts name identity) db ≡ none)
      × (restart_fresh w name identity db ≡ (ok (true, entry), db'))
unfolding restart_tx
restart_tx-fresh w name identity db db' entry h =
    elim (Result-cases
      (audit_for_idempotency_key w identity.invocation_id action_restart_service name db)) [
        | inr (e, q) ↦ absurd (ground (arith, q))
        | inl (o, q) ↦
            elim (key_found w identity.invocation_id action_restart_service name db o q) [
              | inr (row, a, oe, s, n) ↦ absurd (ground (arith, q, oe))
              | inl (oe, s) ↦ (s, ground (arith, q, oe))
            ]
      ]

restart_fresh-Effect :
    (w : World) (name : Text) (identity : AuditIdentity) (db db' : Database)
    (entry : Option AuditEntry)
    → restart_fresh w name identity db ≡ (ok (true, entry), db')
    → (a : AuditEntry) × (entry ≡ some a) × Effect w db db' a (restarts name identity)
unfolding restart_fresh
restart_fresh-Effect w name identity db db' entry h =
    elim (Option-cases (select_service name db.services)) [
      | inl s ↦ absurd (ground (arith, s))
      | inr (row, s) ↦
          let updated : Database = record db { services = update_service name db.services } in
          let summary = restart_summary name row.status (select_open_incidents name db.incidents) in
          let request = restart_request name identity summary in
          elim (Step-cases (append_row w request updated)) [
            | inr (e, _, x) ↦ absurd (ground (arith, s, x))
            | inl (a, db'', x) ↦
                let same : db'' ≡ db' = ground (arith, s, x) in
                (
                  a,
                  ground (arith, s, x),
                  restarted name identity summary row s
                      (rw same at (append_row-Appended w request updated db'' a x)),
                )
          ]
    ]

resolve_tx-fresh :
    (w : World) (id : Text) (identity : AuditIdentity) (db db' : Database)
    (entry : Option AuditEntry)
    → resolve_tx w id identity db ≡ (ok (true, entry), db')
    → (recorded_row (resolves id identity) db ≡ none)
      × (resolve_fresh w id identity db ≡ (ok (true, entry), db'))
unfolding resolve_tx
resolve_tx-fresh w id identity db db' entry h =
    elim (Result-cases
      (audit_for_idempotency_key w identity.invocation_id action_resolve_incident id db)) [
        | inr (e, q) ↦ absurd (ground (arith, q))
        | inl (o, q) ↦ elim (key_found w identity.invocation_id action_resolve_incident id db o q) [
          | inr (row, a, oe, s, n) ↦ absurd (ground (arith, q, oe))
          | inl (oe, s) ↦ (s, ground (arith, q, oe))
        ]
      ]

resolve_fresh-Effect :
    (w : World) (id : Text) (identity : AuditIdentity) (db db' : Database)
    (entry : Option AuditEntry)
    → resolve_fresh w id identity db ≡ (ok (true, entry), db')
    → (a : AuditEntry) × (entry ≡ some a) × Effect w db db' a (resolves id identity)
unfolding resolve_fresh
resolve_fresh-Effect w id identity db db' entry h =
    elim (Option-cases (select_incident id db.incidents)) [
      | inl s ↦ absurd (ground (arith, s))
      | inr (row, s) ↦
          let updated : Database = record db {
            incidents = update_incident w.update_now id db.incidents;
          } in
          let request = resolve_request id identity (resolution_summary id row) in
          elim (Bool-cases (text_eq row.status status_resolved)) [
            | inl closed ↦ absurd (ground (arith, s, closed))
            | inr live ↦ elim (Step-cases (append_row w request updated)) [
              | inr (e, _, x) ↦ absurd (ground (arith, s, live, x))
              | inl (a, db'', x) ↦
                  let same : db'' ≡ db' = ground (arith, s, live, x) in
                  (
                    a,
                    ground (arith, s, live, x),
                    resolved id identity (resolution_summary id row) row s live
                        (rw same at (append_row-Appended w request updated db'' a x)),
                  )
            ]
          ]
    ]

pub transaction-Commits :
    (w : World) (r : Write) (db db' : Database) (entry : Option AuditEntry)
    → transaction w r db ≡ (ok (true, entry), db')
    → Commits w r db db' entry
unfolding transaction
transaction-Commits w (appends request) db db' entry h = append_tx-Commits w request db db' entry h
transaction-Commits w (restarts name identity) db db' entry h =
    let (s, f) = restart_tx-fresh w name identity db db' entry h in
    (s, restart_fresh-Effect w name identity db db' entry f)
transaction-Commits w (resolves id identity) db db' entry h =
    let (s, f) = resolve_tx-fresh w id identity db db' entry h in
    (s, resolve_fresh-Effect w id identity db db' entry f)

-- A write leaves the database as it was, or no entry had its key and it has made its change and
-- appended its one entry together.
pub write-Effect :
    (w : World) (r : Write) (db : Database)
    → ((write w r db).1 ≡ db)
      ⊎ ((recorded_row r db ≡ none) × ((a : AuditEntry) × Effect w db (write w r db).1 a r))
write-Effect w r db = rw write-with_database (elim (with_database_effect w (transaction w r) db) [
  | inl same ↦ inl same
  | inr (entry, q) ↦
      let (s, (a, _, effect)) = transaction-Commits w r db _ entry q in inr (s, (a, effect))
])
