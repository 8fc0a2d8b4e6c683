-- ===== src/Domain/Tests.antt =====
-- Identifiers and rows of the seed dataset, and the theorems at them.
use agentops_open_course.Domain.Vocabulary.Duplicates.{occurrences}
use agentops_open_course.Domain.Identifier.{
  parse_incident_id, IsAscii, normalize_slug, parse_slug, Unicode, require_non_empty, is_lower,
}
use agentops_open_course.Domain.Record.{
  AuditEntry, ServiceRow, new_service, new_incident, AuditEntryRow, IncidentRow, Incident, Service,
  new_audit_entry, created, audit_entry_row,
}
use agentops_open_course.Prelude.{
  ltb, contains, [], refl, codes, ◌==◌, ◌≡◌, some, false, ◌||◌, pos, true, none, text_eq, leb, ◌∷◌,
  ◌&&◌, arith, if◌then◌else◌, ◌-◌, ◌+◌, List, Text, ◌↔◌,
}
use agentops_open_course.Domain.Status.{parse_service_status, parse_severity, parse_incident_status}
use agentops_open_course.Domain.Identifier.Shapes.{parse_slug_iff}
use agentops_open_course.Prelude.Regex.{matches}
use agentops_open_course.Domain.Record.Rows.{audit_entry_accepts}
use agentops_open_course.Domain.Vocabulary.{
  Vocabulary, mapping, Replacement, reference, pair_up, mapped, values, duplicate_values_error,
  target_vocabulary, duplicate_values, source_vocabulary,
}
use agentops_open_course.Domain.Vocabulary.Mapping.{distinct, mapping_lem}

accepted :
    (parse_slug (codes "api-gateway") ≡ some (codes "api-gateway"))
    × (parse_slug (codes "api--gateway") ≡ none)
    × (parse_slug (codes "-api") ≡ none)
    × (parse_slug (codes "../etc") ≡ none)
    × (parse_incident_id (codes "INC-002") ≡ some (codes "INC-002"))
    × (parse_incident_id (codes "INC-") ≡ none)
    × (parse_incident_id (codes "inc-002") ≡ none)
unfolding parse_slug parse_incident_id matches
accepted = (refl, refl, refl, refl, refl, refl, refl)

-- ASCII and nothing else.
abbrev ascii : Unicode
ascii = record {
  is_space = λ c. c == 32 || (leb 9 c && leb c 13);
  to_upper = λ c. if is_lower c then c - 32 else c;
  to_lower = λ c. if leb b'A' c && leb c b'Z' then c + 32 else c;
}

ascii-IsAscii : IsAscii ascii
ascii-IsAscii = record { space = λ c h. refl; upper = λ c h. refl; lower = λ c h. refl }

parse_slug_iff_example : parse_slug (codes "disk-full") ≡ some (codes "disk-full")
parse_slug_iff_example =
    (parse_slug_iff (codes "disk-full") (codes "disk-full")).1
      (refl, (codes "disk", codes "full" ∷ [], (λ e. cc, refl), ((λ e. cc, refl), tt), refl))

gateway : parse_slug (codes "api-gateway") ≡ some (codes "api-gateway")
gateway = accepted.0

shout_gateway : normalize_slug ascii (codes " API-Gateway") ≡ some (codes "api-gateway")
unfolding normalize_slug matches text_eq
shout_gateway = refl

abbrev gateway_row : IncidentRow
gateway_row = record {
  id = codes "INC-010";
  service = codes "api-gateway";
  title = codes "Memory";
  severity = codes "SEV2";
  status = codes "open";
  runbook = codes "memory-leak";
  opened_at = codes "2026-01-02T03:04:05Z";
  resolved_at = none;
  summary = codes "growing";
}

abbrev gateway_incident : Incident
gateway_incident = record {
  id = codes "INC-010";
  service = codes "api-gateway";
  title = codes "Memory";
  severity = codes "SEV2";
  status = codes "open";
  runbook = codes "memory-leak";
  opened_at = codes "2026-01-02T03:04:05Z";
  resolved_at = [];
  summary = codes "growing";
  has_resolved_at = false;
}

gateway_created : new_incident gateway_row ≡ created gateway_incident
unfolding new_incident parse_slug parse_incident_id parse_severity parse_incident_status
    require_non_empty matches text_eq
gateway_created = refl

abbrev checkout_row : ServiceRow
checkout_row = record {
  name = codes "checkout";
  description = codes "pays";
  status = codes "degraded";
  owner = codes "web";
}

abbrev checkout : Service
checkout = record {
  name = codes "checkout";
  description = codes "pays";
  status = codes "degraded";
  owner = codes "web";
}

checkout_created : new_service checkout_row ≡ created checkout
unfolding new_service parse_slug parse_service_status require_non_empty matches text_eq
checkout_created = refl

abbrev entry_row : AuditEntryRow
entry_row = record {
  ts = [];
  actor = [];
  approved_by = [];
  rationale = codes "ok";
  context_summary = [];
  session_id = [];
  invocation_id = [];
  action = [];
  target = [];
  detail = [];
  id = 1;
  schema_version = pos 1;
}

abbrev entry : AuditEntry
entry = record {
  ts = [];
  actor = [];
  approved_by = [];
  rationale = codes "ok";
  context_summary = [];
  session_id = [];
  invocation_id = [];
  action = [];
  target = [];
  detail = [];
  id = 1;
  schema_version = pos 1;
}

entry_printed : audit_entry_row entry ≡ entry_row
unfolding audit_entry_row
entry_printed = refl

audit_entry_accepts_example : new_audit_entry entry_row ≡ created entry
audit_entry_accepts_example =
    (audit_entry_accepts entry_row entry).1 (refl, omega arith, omega arith, entry_printed)

-- The reference with the gateway under its own name.
abbrev renamed : Vocabulary
renamed = record reference { services = record reference.services { gateway = codes "gateway" } }

abbrev replacements : List Replacement
replacements = pair_up (values reference) (values renamed)

mapping_lem_example :
    (mapping reference renamed ≡ (
      if distinct (values reference)
      then (if distinct (values renamed)
          then mapped (pair_up (values reference) (values renamed))
          else duplicate_values_error target_vocabulary (duplicate_values (values renamed)))
      else duplicate_values_error source_vocabulary (duplicate_values (values reference))))
    × ((vs : List Text) (v : Text) → contains (duplicate_values vs) v ≡ ltb 1 (occurrences v vs))
    × ((vs : List Text) → (duplicate_values vs ≡ []) ↔ (distinct vs ≡ true))
mapping_lem_example = mapping_lem reference renamed
