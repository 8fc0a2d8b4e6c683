-- ===== src/Domain/Record.antt =====
-- agents/go/domain/record.go: rows of the dataset and the records parsed from them. A text is
-- its sequence of code points. The errors that `errors.Join` collects are named by their fields;
-- `MarshalJSON` and the accessors of single fields are left out.
pub mod Rows
pub mod Changes
use agentops_open_course.Prelude.{
  ℕ, Bool, true, false, ◌&&◌, ◌||◌, List, [], ◌∷◌, ◌++◌, Option, none, some, ltb, if◌then◌else◌,
  Text, text_eq, length, ℤ, pos, ltb_ℤ,
}
use agentops_open_course.Domain.Identifier.{parse_incident_id, parse_slug, require_non_empty}
use agentops_open_course.Domain.Status.{parse_incident_status, parse_severity, parse_service_status}

pub data Field : Type 0 where
  name description status owner id service title severity runbook opened_at summary : Field
  schema_version rationale : Field

-- `errors.Join` drops the nil errors.
abbrev pub join_errors : List (Option Field) → List Field
join_errors [] = []
join_errors (none ∷ es) = join_errors es
join_errors (some e ∷ es) = e ∷ join_errors es

-- The error of a parse, under the field's name.
abbrev pub parse_error {ℓ} : {A : Type ℓ} → Field → Option A → Option Field
parse_error field none = some field
parse_error field (some a) = none

-- A parse returns the empty text beside its error.
abbrev pub parsed : Option Text → Text
parsed none = []
parsed (some t) = t

pub data New {ℓ} (A : Type ℓ) : Type ℓ where
  created : A → New A
  rejected : List Field → New A

abbrev pub unless {ℓ} : {A : Type ℓ} → List Field → A → New A
unless [] a = created a
unless (e ∷ es) a = rejected (e ∷ es)

pub record ServiceRow : Type 0 where
  pub name : Text
  pub description : Text
  pub status : Text
  pub owner : Text

pub record Service : Type 0 where
  pub name : Text
  pub description : Text
  pub status : Text
  pub owner : Text

unfoldable pub new_service : ServiceRow → New Service
new_service row =
    let errs =
      parse_error name (parse_slug row.name)
      ∷ require_non_empty description row.description
      ∷ parse_error status (parse_service_status row.status)
      ∷ require_non_empty owner row.owner
      ∷ [] in
    unless (join_errors errs) (record {
      name = parsed (parse_slug row.name);
      description = row.description;
      status = parsed (parse_service_status row.status);
      owner = row.owner;
    })

unfoldable pub service_row : Service → ServiceRow
service_row s = record {
  name = s.name;
  description = s.description;
  status = s.status;
  owner = s.owner;
}

pub record IncidentRow : Type 0 where
  pub id : Text
  pub service : Text
  pub title : Text
  pub severity : Text
  pub status : Text
  pub runbook : Text
  pub opened_at : Text
  pub resolved_at : Option Text
  pub summary : Text

pub record Incident : Type 0 where
  pub id : Text
  pub service : Text
  pub title : Text
  pub severity : Text
  pub status : Text
  pub runbook : Text
  pub opened_at : Text
  pub resolved_at : Text
  pub summary : Text
  pub has_resolved_at : Bool

incident_errors : IncidentRow → List (Option Field)
incident_errors row =
    parse_error id (parse_incident_id row.id)
    ∷ parse_error service (parse_slug row.service)
    ∷ require_non_empty title row.title
    ∷ parse_error severity (parse_severity row.severity)
    ∷ parse_error status (parse_incident_status row.status)
    ∷ parse_error runbook (parse_slug row.runbook)
    ∷ require_non_empty opened_at row.opened_at
    ∷ require_non_empty summary row.summary
    ∷ []

incident_of : IncidentRow → Incident
incident_of row = record {
  id = parsed (parse_incident_id row.id);
  service = parsed (parse_slug row.service);
  title = row.title;
  severity = parsed (parse_severity row.severity);
  status = parsed (parse_incident_status row.status);
  runbook = parsed (parse_slug row.runbook);
  opened_at = row.opened_at;
  resolved_at = parsed row.resolved_at;
  summary = row.summary;
  has_resolved_at = elim row.resolved_at [ none ↦ false | some t ↦ true ];
}

unfoldable pub new_incident : IncidentRow → New Incident
unfolding incident_errors incident_of
new_incident row = unless (join_errors (incident_errors row)) (incident_of row)

unfoldable pub incident_row : Incident → IncidentRow
incident_row i = record {
  id = i.id;
  service = i.service;
  title = i.title;
  severity = i.severity;
  status = i.status;
  runbook = i.runbook;
  opened_at = i.opened_at;
  resolved_at = if i.has_resolved_at then some i.resolved_at else none;
  summary = i.summary;
}

pub record AuditEntryRow : Type 0 where
  pub ts : Text
  pub actor : Text
  pub approved_by : Text
  pub rationale : Text
  pub context_summary : Text
  pub session_id : Text
  pub invocation_id : Text
  pub action : Text
  pub target : Text
  pub detail : Text
  pub id : ℕ
  pub schema_version : ℤ

pub record AuditEntry : Type 0 where
  pub ts : Text
  pub actor : Text
  pub approved_by : Text
  pub rationale : Text
  pub context_summary : Text
  pub session_id : Text
  pub invocation_id : Text
  pub action : Text
  pub target : Text
  pub detail : Text
  pub id : ℕ
  pub schema_version : ℤ

abbrev pub max_audit_rationale_length : ℕ
max_audit_rationale_length = 500

abbrev pub current_audit_schema_version : ℤ
current_audit_schema_version = pos 1

audit_entry_of : AuditEntryRow → AuditEntry
audit_entry_of row = record {
  id = row.id;
  schema_version = row.schema_version;
  ts = row.ts;
  actor = row.actor;
  approved_by = row.approved_by;
  rationale = row.rationale;
  context_summary = row.context_summary;
  session_id = row.session_id;
  invocation_id = row.invocation_id;
  action = row.action;
  target = row.target;
  detail = row.detail;
}

unfoldable pub new_audit_entry : AuditEntryRow → New AuditEntry
unfolding audit_entry_of
new_audit_entry row =
    let outside =
      ltb_ℤ row.schema_version (pos 1) || ltb_ℤ current_audit_schema_version row.schema_version in
    let long = ltb max_audit_rationale_length (length row.rationale) in
    let errs =
      (if outside then some schema_version else none)
      ∷ require_non_empty rationale row.rationale
      ∷ (if long then some rationale else none)
      ∷ [] in
    unless (join_errors errs) (audit_entry_of row)

unfoldable pub audit_entry_row : AuditEntry → AuditEntryRow
audit_entry_row a = record {
  id = a.id;
  schema_version = a.schema_version;
  ts = a.ts;
  actor = a.actor;
  approved_by = a.approved_by;
  rationale = a.rationale;
  context_summary = a.context_summary;
  session_id = a.session_id;
  invocation_id = a.invocation_id;
  action = a.action;
  target = a.target;
  detail = a.detail;
}
