-- ===== src/Data/Write.antt =====
-- agents/go/data/write.go: the three audited writes. Each runs in one transaction under the write
-- lock. The test hook `onRestartContext` is left out.
pub mod Effects
pub mod Atomic
pub mod Supported
pub mod Replay
pub mod Log
use agentops_open_course.Prelude.{
  ℕ, ◌+◌, Bool, true, false, not, ◌&&◌, ◌||◌, List, [], ◌∷◌, ◌++◌, Option, none, some, ◌==◌,
  if◌then◌else◌, Text, codes, text_eq,
}
use agentops_open_course.Domain.Status.{status_resolved}
use agentops_open_course.Domain.Record.{
  Field, New, created, rejected, ServiceRow, IncidentRow, AuditEntryRow, AuditEntry,
  new_audit_entry, current_audit_schema_version,
}
use agentops_open_course.Data.Transaction.{
  to_commit, continue, AuditIdentity, AuditRequest, World, Error, Result, ok, err, ◌>>=◌, ◌>>◌,
  call, key_query, context_query, update, affected, audit_for_idempotency_key, append_row, TxResult,
  with_database,
}
use agentops_open_course.Data.Tables.{
  Database, select_audit, select_service, update_service, services_affected, select_incident,
  update_incident, incidents_affected, select_open_incidents, join_with,
}

abbrev pub action_restart_service : Text
action_restart_service = codes "restart_service"

abbrev pub action_resolve_incident : Text
action_resolve_incident = codes "resolve_incident"

append_tx : World → AuditRequest → Database → TxResult
unfolding audit_for_idempotency_key append_row
append_tx w request db =
    continue (audit_for_idempotency_key w request.invocation_id request.action request.target db) db
      λ existing. elim existing [
        | some a ↦ (ok (false, some a), db)
        | none ↦ to_commit (append_row w request db)
      ]

unfoldable pub append_audit :
    World → AuditRequest → Database → Result (Option AuditEntry) × Database
unfolding append_tx with_database
append_audit w request = with_database w (append_tx w request)

restart_summary : Text → Text → List Text → Text
restart_summary name status ids =
    let open_ids : Text = elim ids [
      | [] ↦ codes "none"
      | i ∷ is ↦ join_with (codes ", ") (i ∷ is)
    ] in
    codes "service "
    ++ (name ++ (codes " was " ++ (status ++ (codes "; open incidents: " ++ open_ids))))

abbrev pub restart_request : Text → AuditIdentity → Text → AuditRequest
restart_request name identity summary = record {
  identity = identity;
  context_summary = summary;
  action = action_restart_service;
  target = name;
  detail = codes "service restarted and marked operational (mock)";
}

-- After the key has been looked up and not found.
restart_fresh : World → Text → AuditIdentity → Database → TxResult
unfolding append_row
restart_fresh w name identity db = continue (call w context_query) db λ _.
    elim (select_service name db.services) [
      | none ↦ (ok (false, none), db)
      | some row ↦ continue (call w update) db λ _.
          let updated : Database = record db { services = update_service name db.services } in
          let summary = restart_summary name row.status (select_open_incidents name db.incidents) in
          continue (call w affected) updated λ _.
            if services_affected name db.services == 0
            then (ok (false, none), updated)
            else to_commit (append_row w (restart_request name identity summary) updated)
    ]

restart_tx : World → Text → AuditIdentity → Database → TxResult
unfolding audit_for_idempotency_key restart_fresh
restart_tx w name identity db =
    continue (audit_for_idempotency_key w identity.invocation_id action_restart_service name db) db
      λ existing. elim existing [
        | some a ↦ (ok (false, some a), db)
        | none ↦ restart_fresh w name identity db
      ]

unfoldable pub restart_service_with_audit :
    World → Text → AuditIdentity → Database → Result (Option AuditEntry) × Database
unfolding restart_tx restart_summary with_database
restart_service_with_audit w name identity = with_database w (restart_tx w name identity)

resolution_summary : Text → IncidentRow → Text
resolution_summary id row =
    codes "incident "
    ++ (id
        ++ (codes " ("
            ++ (row.severity
                ++ (codes ", "
                    ++ (row.status
                        ++ (codes ") on "
                            ++ (row.service
                                ++ (codes ": "
                                    ++ (row.title ++ (codes "; runbook " ++ row.runbook))))))))))

abbrev pub resolve_request : Text → AuditIdentity → Text → AuditRequest
resolve_request id identity summary = record {
  identity = identity;
  context_summary = summary;
  action = action_resolve_incident;
  target = id;
  detail = codes "incident resolved (mock)";
}

resolve_fresh : World → Text → AuditIdentity → Database → TxResult
unfolding append_row
resolve_fresh w id identity db = continue (call w context_query) db λ _.
    elim (select_incident id db.incidents) [
      | none ↦ (ok (false, none), db)
      | some row ↦
          if text_eq row.status status_resolved
          then (ok (false, none), db)
          else (continue (call w update) db λ _.
              let updated : Database = record db {
                incidents = update_incident w.update_now id db.incidents;
              } in
              let request = resolve_request id identity (resolution_summary id row) in
              continue (call w affected) updated λ _.
                if incidents_affected id db.incidents == 0
                then (ok (false, none), updated)
                else to_commit (append_row w request updated))
    ]

resolve_tx : World → Text → AuditIdentity → Database → TxResult
unfolding audit_for_idempotency_key resolve_fresh
resolve_tx w id identity db =
    continue (audit_for_idempotency_key w identity.invocation_id action_resolve_incident id db) db
      λ existing. elim existing [
        | some a ↦ (ok (false, some a), db)
        | none ↦ resolve_fresh w id identity db
      ]

unfoldable pub resolve_incident_with_audit :
    World → Text → AuditIdentity → Database → Result (Option AuditEntry) × Database
unfolding resolve_tx resolution_summary with_database
resolve_incident_with_audit w id identity = with_database w (resolve_tx w id identity)

-- The three writes of the store.
pub data Write : Type 0 where
  appends : AuditRequest → Write
  restarts resolves : Text → AuditIdentity → Write

unfoldable pub transaction : World → Write → Database → TxResult
unfolding append_tx restart_tx restart_summary resolve_tx resolution_summary
transaction w (appends request) = append_tx w request
transaction w (restarts name identity) = restart_tx w name identity
transaction w (resolves id identity) = resolve_tx w id identity

unfoldable pub write : World → Write → Database → Result (Option AuditEntry) × Database
unfolding append_audit restart_service_with_audit resolve_incident_with_audit
write w (appends request) = append_audit w request
write w (restarts name identity) = restart_service_with_audit w name identity
write w (resolves id identity) = resolve_incident_with_audit w id identity
