-- ===== src/Tools/Action.antt =====
-- agents/go/tools/action.go: runRestartService and runResolveIncident, over the reads and the audited
-- writes of the store. The texts that a model is shown are left out.
pub mod Safety
pub mod Effects
pub mod Replay
use agentops_open_course.Prelude.{Bool, true, false, Option, none, some, if◌then◌else◌, Text}
use agentops_open_course.Domain.Identifier.{normalize_slug, normalize_incident_id}
use agentops_open_course.Domain.Record.{
  AuditEntry, AuditEntryRow, audit_entry_row, Service, Incident,
}
use agentops_open_course.Data.Tables.{Database}
use agentops_open_course.Data.Transaction.{AuditIdentity}
use agentops_open_course.Data.Transaction
use agentops_open_course.Data.Read
use agentops_open_course.Data.Write.{restart_service_with_audit, resolve_incident_with_audit}
use agentops_open_course.Tools.Approval.{
  Tools, Context, Refusal, writes_off, Checked, passed, refused, validated_approval,
}

-- The result of an action: done with its audit entry, an error that the model is told, or the error
-- that is returned.
pub data Outcome : Type 0 where
  done : AuditEntryRow → Outcome
  declined : Refusal → Outcome
  invalid_name unknown already_resolved : Outcome
  read_failed : Read.Error → Outcome
  write_failed : Transaction.Error → Outcome

abbrev pub outcome_of : Outcome → Transaction.Result (Option AuditEntry) → Outcome
outcome_of absent (Transaction.err e) = write_failed e
outcome_of absent (Transaction.ok none) = absent
outcome_of absent (Transaction.ok (some entry)) = done (audit_entry_row entry)

-- What follows the look-up of the target: the approval and then the write.
abbrev pub act {ℓ} :
    {A : Type ℓ}
    → Tools
    → Option Context
    → Read.Result (Option A)
    → Outcome
    → (AuditIdentity → Database → Transaction.Result (Option AuditEntry) × Database)
    → Database
    → Outcome × Database
act t context (Read.err e) absent change db = (read_failed e, db)
act t context (Read.ok none) absent change db = (unknown, db)
act t context (Read.ok (some target)) absent change db = elim (validated_approval t context) [
  | refused r ↦ (declined r, db)
  | passed identity ↦ let (result, db') = change identity db in (outcome_of absent result, db')
]

unfoldable pub run_restart_service :
    Tools → Read.World → Transaction.World → Option Context → Text → Database → Outcome × Database
unfolding validated_approval
run_restart_service t reads w context name db =
    if t.writes_disabled then (declined writes_off, db) else elim (normalize_slug t.unicode name) [
      | none ↦ (invalid_name, db)
      | some slug ↦
          act t context (Read.get_service reads slug db) unknown (restart_service_with_audit w slug)
            db
    ]

unfoldable pub run_resolve_incident :
    Tools → Read.World → Transaction.World → Option Context → Text → Database → Outcome × Database
unfolding validated_approval
run_resolve_incident t reads w context incident_id db =
    if t.writes_disabled
    then (declined writes_off, db)
    else elim (normalize_incident_id t.unicode incident_id) [
      | none ↦ (invalid_name, db)
      | some id ↦
          act t context (Read.get_incident reads id db) already_resolved
            (resolve_incident_with_audit w id) db
    ]
