-- ===== src/Data/Tests.antt =====
-- A restart, its replay, and a failed one, on a small dataset.
use agentops_open_course.Data.Refused.{unsupported-Refused}
use agentops_open_course.Data.Read
use agentops_open_course.Data.Read.Exact.{IsSupported, lists-Exact}
use agentops_open_course.Data.Transaction.{
  World, AuditIdentity, ok, failed, commit, append_row, audit_for_idempotency_key, err,
}
use agentops_open_course.Data.Write.Log.{IsLog, run_writes, run_writes-IsLog}
use agentops_open_course.Data.Write.{Write, write, restarts}
use agentops_open_course.Data.Tables.{
  has_unsupported, Database, select_audit, select_service, update_service, services_affected,
  select_open_incidents,
}
use agentops_open_course.Domain.Record.{
  audit_entry_row, new_incident, incident_row, Service, new_service, service_row, created,
  AuditEntry, new_audit_entry,
}
use agentops_open_course.Prelude.{
  List, map, All, ◌↔◌, arith, codes, ◌≡◌, pos, false, ◌⊎◌, ◌∷◌, some, [], none, true, text_eq, refl,
}
use agentops_open_course.Data.Write.Effects.{recorded_row, Effect, write-Effect}
use agentops_open_course.Data.Write.Replay.{write_replayed}
use agentops_open_course.Domain.Identifier.{require_non_empty}

abbrev steady : World
steady = record { fails = λ p. false; update_now = codes "t1"; audit_now = codes "t2" }

-- The commit fails.
abbrev breaking : World
breaking = record steady { fails = λ p. elim p [ commit ↦ true | _ ↦ false ] }

abbrev dataset : Database
dataset = record {
  services =
      record {
        name = codes "cache";
        description = codes "c";
        status = codes "down";
        owner = codes "o";
      }
      ∷ [];
  incidents = [];
  audit_log = [];
  last_id = 0;
}

abbrev identity : AuditIdentity
identity = record {
  actor = codes "agent";
  approved_by = codes "ana";
  rationale = codes "stuck";
  session_id = codes "s";
  invocation_id = codes "i1";
}

abbrev restart : Write
restart = restarts (codes "cache") identity

abbrev entry : AuditEntry
entry = record {
  id = 1;
  schema_version = pos 1;
  ts = codes "t2";
  actor = codes "agent";
  approved_by = codes "ana";
  rationale = codes "stuck";
  context_summary = codes "service cache was down; open incidents: none";
  session_id = codes "s";
  invocation_id = codes "i1";
  action = codes "restart_service";
  target = codes "cache";
  detail = codes "service restarted and marked operational (mock)";
}

restart_returns : (write steady restart dataset).0 ≡ ok (some entry)
unfolding write select_audit select_service update_service services_affected select_open_incidents
    new_audit_entry require_non_empty text_eq append_row audit_for_idempotency_key has_unsupported
restart_returns = refl

restart_fails : (write breaking restart dataset).0 ≡ err (failed commit)
unfolding write select_audit select_service update_service services_affected select_open_incidents
    new_audit_entry require_non_empty text_eq append_row audit_for_idempotency_key has_unsupported
restart_fails = refl

dataset-IsLog : IsLog dataset
dataset-IsLog = record { unique = tt; rises = omega arith }

write-Effect_example :
    ((write steady restart dataset).1 ≡ dataset)
    ⊎ ((recorded_row restart dataset ≡ none)
        × ((a : AuditEntry) × Effect steady dataset (write steady restart dataset).1 a restart))
write-Effect_example = write-Effect steady restart dataset

run_writes-IsLog_example : IsLog (run_writes ((steady, restart) ∷ (breaking, restart) ∷ []) dataset)
run_writes-IsLog_example =
    (run_writes-IsLog ((steady, restart) ∷ (breaking, restart) ∷ []) dataset dataset-IsLog).0

-- The same key with another rationale.
abbrev again : Write
again = restarts (codes "cache") (record identity { rationale = codes "still stuck" })

write_replayed_example :
    write steady again (write steady restart dataset).1
    ≡ (ok (some entry), (write steady restart dataset).1)
write_replayed_example =
    write_replayed steady steady restart again dataset entry restart_returns refl refl refl refl
      refl refl refl

abbrev reads : Read.World
reads = record { fails = λ p. false }

abbrev cached : List Service
cached =
    record {
      name = codes "cache";
      description = codes "c";
      status = codes "down";
      owner = codes "o";
    }
    ∷ []

lists-Exact_example :
    ((Read.list_incidents reads (record { status = []; service = [] }) dataset ≡ Read.ok []) ↔ (
      IsSupported dataset
      × (map incident_row [] ≡ Read.select_incidents (record { status = []; service = [] }) dataset)
      × All (λ i. new_incident (incident_row i) ≡ created i) []))
    × ((Read.list_services reads dataset ≡ Read.ok cached) ↔ (
        IsSupported dataset
        × (map service_row cached ≡ Read.select_services dataset)
        × All (λ s. new_service (service_row s) ≡ created s) cached))
lists-Exact_example =
    lists-Exact reads (record { status = []; service = [] }) dataset [] cached (λ p. refl)

-- The dataset with an audit row of a version to come.
abbrev future : Database
future = record dataset {
  audit_log = record (audit_entry_row entry) { schema_version = pos 2 } ∷ [];
}

unsupported-Refused_example :
    run_writes ((steady, restart) ∷ (breaking, restart) ∷ []) future ≡ future
unsupported-Refused_example =
    (unsupported-Refused future (λ h. ground (arith, h))).1
      ((steady, restart) ∷ (breaking, restart) ∷ [])
