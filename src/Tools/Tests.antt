-- ===== src/Tools/Tests.antt =====
-- The principals and the actions at concrete inputs.
use agentops_open_course.Prelude.{
  arith, take, length, pos, ◌==◌, ◌≡◌, ◌↔◌, ◌⊎◌, refl, true, false, [], ◌∷◌, Option, none, some,
  Text, codes, text_eq,
}
use agentops_open_course.Domain.Identifier.{
  Unicode, trim_space, require_non_empty, normalize_slug, parse_slug,
}
use agentops_open_course.Domain.Status.{parse_service_status}
use agentops_open_course.Prelude.Regex.{matches}
use agentops_open_course.Domain.Record.{
  AuditEntry, AuditEntryRow, audit_entry_row, new_audit_entry, new_service,
}
use agentops_open_course.Data.Tables.{
  has_unsupported, Database, select_audit, select_service, update_service, services_affected,
  select_open_incidents,
}
use agentops_open_course.Data.Transaction.{
  AuditIdentity, with_database, append_row, audit_for_idempotency_key, in_write_transaction,
}
use agentops_open_course.Data.Transaction
use agentops_open_course.Data.Read
use agentops_open_course.Data.Write.Effects.{recorded_row, Effect}
use agentops_open_course.Tools.Logs.{Logs, found, matched, accepts_line, read_service_logs}
use agentops_open_course.Tools.Logs.Newest.{keep, newest_first, read_service_logs_lem}
use agentops_open_course.Tools.Action.{done, run_restart_service}
use agentops_open_course.Tools.Action.Replay.{run_action_replayed}
use agentops_open_course.Data.Write.{restart_service_with_audit}
use agentops_open_course.Tools.Principal.{new_authenticated, bind_network, network}
use agentops_open_course.Tools.Approval.{
  Tools, Context, Confirmation, RationaleValue, object, passed, identity_of, validated_approval,
  owns, missing_identities, rationale_from,
}
use agentops_open_course.Tools.Action.Safety.{Authorized, validated_approval_iff}
use agentops_open_course.Tools.Action.Effects.{
  restart, run_action, target_of, write_of, run_action-Authorized,
}

abbrev unicode : Unicode
unicode = record { is_space = λ c. c == 32; to_upper = λ c. c; to_lower = λ c. c }

abbrev tools : Tools
tools = record { writes_disabled = false; redact = λ s. s; unicode = unicode }

abbrev approval : Confirmation
approval = record {
  confirmed = true;
  payload = object (RationaleValue.string (codes " disk is full "));
}

abbrev context : Context
context = record {
  confirmation = some approval;
  user_id = codes "ana ";
  session_id = codes "s1";
  invocation_id = codes "i1";
  boundary = bind_network (codes "ana");
}

abbrev approved : AuditIdentity
approved = record {
  actor = codes "agentops-agent";
  approved_by = codes "ana";
  rationale = codes "disk is full";
  session_id = codes "s1";
  invocation_id = codes "i1";
}

approved_by_ana : validated_approval tools (some context) ≡ passed approved
unfolding validated_approval owns network missing_identities rationale_from trim_space text_eq
approved_by_ana = refl

validated_approval_iff_example : (validated_approval tools (some context) ≡ passed approved) ↔ (
    (c : Context) × (k : Confirmation) × (◌≡◌ {A = Option Context} (some context) (some c))
    × Authorized tools c k
    × (approved ≡ identity_of tools c k))
validated_approval_iff_example = validated_approval_iff tools (some context) approved

abbrev reads : Read.World
reads = record { fails = λ p. false }

abbrev steady : Transaction.World
steady = record { fails = λ p. false; update_now = codes "t1"; audit_now = codes "t2" }

abbrev dataset : Database
dataset = record {
  services =
      record {
        name = codes "cache";
        description = codes "c";
        status = codes "down";
        owner = codes "o";
      }
      ∷ [];
  incidents = [];
  audit_log = [];
  last_id = 0;
}

run_action-Authorized_example :
    ((run_action tools reads steady (some context) (restart (codes " cache")) dataset).1 ≡ dataset)
    ⊎ ((c : Context) × (k : Confirmation) × (target : Text) × (entry : AuditEntry) × (◌≡◌
          {A = Option Context}
          (some context)
          (some c))
        × (tools.writes_disabled ≡ false)
        × Authorized tools c k
        × (target_of tools (restart (codes " cache")) ≡ some target)
        × (recorded_row (write_of (restart (codes " cache")) target (identity_of tools c k)) dataset
            ≡ none)
        × Effect steady dataset
            (run_action tools reads steady (some context) (restart (codes " cache")) dataset).1
            entry
            (write_of (restart (codes " cache")) target (identity_of tools c k)))
run_action-Authorized_example =
    run_action-Authorized tools reads steady (some context) dataset (restart (codes " cache"))

spaced_subject : new_authenticated unicode (codes "a b") ≡ none
unfolding new_authenticated trim_space text_eq
spaced_subject = refl

abbrev cache_entry : AuditEntryRow
cache_entry = record {
  id = 1;
  schema_version = pos 1;
  ts = codes "t2";
  actor = codes "agentops-agent";
  approved_by = codes "ana";
  rationale = codes "disk is full";
  context_summary = codes "service cache was down; open incidents: none";
  session_id = codes "s1";
  invocation_id = codes "i1";
  action = codes "restart_service";
  target = codes "cache";
  detail = codes "service restarted and marked operational (mock)";
}

cache_done :
    (run_action tools reads steady (some context) (restart (codes " cache")) dataset).0
    ≡ done cache_entry
unfolding run_action run_restart_service Read.get_service Read.with_database Read.read_row
    restart_service_with_audit with_database select_audit select_service update_service
    services_affected select_open_incidents new_audit_entry audit_entry_row require_non_empty
    append_row audit_for_idempotency_key has_unsupported in_write_transaction validated_approval
    owns network missing_identities rationale_from trim_space text_eq normalize_slug parse_slug
    new_service parse_service_status matches
cache_done = refl

run_action_replayed_example :
    run_action tools reads steady
      (some context)
      (restart (codes " cache"))
      (run_action tools reads steady (some context) (restart (codes " cache")) dataset).1
    ≡ (
      done cache_entry,
      (run_action tools reads steady (some context) (restart (codes " cache")) dataset).1,
    )
run_action_replayed_example =
    run_action_replayed tools reads reads steady steady (some context) (restart (codes " cache"))
      dataset cache_entry cache_done (λ p. refl) (λ p. refl)

abbrev logs : Logs
logs = record {
  expired = false;
  read = λ slug. found (codes "up" ∷ codes "disk full" ∷ codes "disk ok" ∷ []);
  listed = none;
}

read_service_logs_lem_example :
    read_service_logs unicode logs (codes " cache") (codes "disk ") (some (pos 1))
    ≡ matched
        (codes "cache")
        (length (
          take 1 (
            keep
              (accepts_line unicode (codes "disk "))
              (newest_first (codes "up" ∷ codes "disk full" ∷ codes "disk ok" ∷ [])))))
        (take 1 (
          keep
            (accepts_line unicode (codes "disk "))
            (newest_first (codes "up" ∷ codes "disk full" ∷ codes "disk ok" ∷ []))))
unfolding normalize_slug parse_slug trim_space text_eq matches
read_service_logs_lem_example =
    read_service_logs_lem unicode logs (codes " cache") (codes "cache") (codes "disk ")
      (some (pos 1)) 1 (codes "up" ∷ codes "disk full" ∷ codes "disk ok" ∷ []) refl refl
      (omega arith) (omega arith) refl refl
