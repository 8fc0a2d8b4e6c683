-- ===== src/Tools/Action/Effects.antt =====
-- What the actions do to the database.
use agentops_open_course.Prelude.{
  arith, ◌≢◌, ◌≡◌, ◌⊎◌, inl, inr, refl, sym, ◌∙◌, Bool-cases, Option-cases, false, Option, none,
  some, Text,
}
use agentops_open_course.Domain.Identifier.{normalize_slug, normalize_incident_id}
use agentops_open_course.Domain.Record.{Incident, Service, AuditEntryRow, AuditEntry}
use agentops_open_course.Data.Tables.{Database}
use agentops_open_course.Data.Transaction.{AuditIdentity}
use agentops_open_course.Data.Transaction
use agentops_open_course.Data.Read
use agentops_open_course.Data.Write.{
  Write, restarts, resolves, write, restart_service_with_audit, resolve_incident_with_audit,
}
use agentops_open_course.Data.Write.Effects.{recorded_row, Effect, write-Effect}
use agentops_open_course.Tools.Approval.{
  Tools, Context, Confirmation, Checked, passed, refused, identity_of, validated_approval,
}
use agentops_open_course.Tools.Action.{
  invalid_name, writes_off, declined, read_failed, done, outcome_of, Outcome, unknown,
  already_resolved, act, run_restart_service, run_resolve_incident,
}
use agentops_open_course.Tools.Action.Safety.{Authorized, approval-Authorized}

-- The two actions, with the name or the id that the model gives.
pub data Action : Type 0 where
  restart resolve : Text → Action

unfoldable pub run_action :
    Tools → Read.World → Transaction.World → Option Context → Action → Database → Outcome × Database
unfolding run_restart_service run_resolve_incident
run_action t reads w context (restart name) db = run_restart_service t reads w context name db
run_action t reads w context (resolve id) db = run_resolve_incident t reads w context id db

abbrev pub target_of : Tools → Action → Option Text
target_of t (restart name) = normalize_slug t.unicode name
target_of t (resolve id) = normalize_incident_id t.unicode id

abbrev pub write_of : Action → Text → AuditIdentity → Write
write_of (restart _) target identity = restarts target identity
write_of (resolve _) target identity = resolves target identity

Checked-cases :
    (m : Checked AuditIdentity)
    → ((r : _) × (m ≡ refused r)) ⊎ ((i : AuditIdentity) × (m ≡ passed i))
Checked-cases (refused r) = inl (r, refl)
Checked-cases (passed i) = inr (i, refl)

abbrev pub absent_of : Action → Outcome
absent_of (restart _) = unknown
absent_of (resolve _) = already_resolved

-- What the write of an action makes of the call.
abbrev pub written :
    Transaction.World → Action → Text → AuditIdentity → Database → Outcome × Database
written w action target identity db = (
  outcome_of (absent_of action) (write w (write_of action target identity) db).0,
  (write w (write_of action target identity) db).1,
)

-- The target of the action is read, and is there.
abbrev pub Finds : Read.World → Database → Action → Text → Type 0
Finds reads db (restart _) target =
    (s : Service) × (Read.get_service reads target db ≡ Read.ok (some s))
Finds reads db (resolve _) target =
    (i : Incident) × (Read.get_incident reads target db ≡ Read.ok (some i))

module _ {ℓ} {A : Type ℓ} (t : Tools) (context : Option Context) (absent : Outcome)
    (change : AuditIdentity → Database → Transaction.Result (Option AuditEntry) × Database)
    (db : Database) where
  act_cases :
      (found : Read.Result (Option A))
      → ((o : Outcome) × (act t context found absent change db ≡ (o, db))
          × ((row : AuditEntryRow) → o ≢ done row))
        ⊎ ((i : AuditIdentity) × ((x : A) × (found ≡ Read.ok (some x)))
            × (validated_approval t context ≡ passed i)
            × (act t context found absent change db
                ≡ (outcome_of absent (change i db).0, (change i db).1)))
  act_cases (Read.err e) = inl (read_failed e, refl, λ row k. ground (arith, k))
  act_cases (Read.ok none) = inl (unknown, refl, λ row k. ground (arith, k))
  act_cases (Read.ok (some a)) = elim (Checked-cases (validated_approval t context)) [
    | inl (r, e) ↦ inl (declined r, rw (act, e) refl, λ row k. ground (arith, k))
    | inr (i, e) ↦ inr (i, (a, refl), e, rw (act, e) refl)
  ]

module _ (t : Tools) (reads : Read.World) (w : Transaction.World) (context : Option Context)
    (db : Database) where
  -- Nothing was done, or what the audited write under the approval has done.
  pub action_cases :
      (action : Action)
      → ((o : Outcome) × (run_action t reads w context action db ≡ (o, db))
          × ((row : AuditEntryRow) → o ≢ done row))
        ⊎ ((target : Text) × (i : AuditIdentity) × (t.writes_disabled ≡ false)
            × (target_of t action ≡ some target)
            × Finds reads db action target
            × (validated_approval t context ≡ passed i)
            × (run_action t reads w context action db ≡ written w action target i db))
  unfolding run_action run_restart_service run_resolve_incident write
  action_cases (restart name) = elim (Bool-cases t.writes_disabled) [
    | inl off ↦
        inl (declined writes_off, rw (run_restart_service, off) refl, λ row k. ground (arith, k))
    | inr on ↦ elim (Option-cases (normalize_slug t.unicode name)) [
      | inl e ↦ inl (invalid_name, rw (run_restart_service, on, e) refl, λ row k. ground (arith, k))
      | inr (slug, e) ↦
          let run : run_restart_service t reads w context name db
              ≡ act t context (Read.get_service reads slug db) unknown
                  (restart_service_with_audit w slug) db =
            rw (run_restart_service, on, e) refl in
          elim (act_cases t context unknown (restart_service_with_audit w slug) db
            (Read.get_service reads slug db)) [
              | inl (o, a, n) ↦ inl (o, run ∙ a, n)
              | inr (i, f, v, a) ↦ inr (slug, i, on, e, f, v, run ∙ a)
            ]
    ]
  ]
  action_cases (resolve id) = elim (Bool-cases t.writes_disabled) [
    | inl off ↦
        inl (declined writes_off, rw (run_resolve_incident, off) refl, λ row k. ground (arith, k))
    | inr on ↦ elim (Option-cases (normalize_incident_id t.unicode id)) [
      | inl e ↦
          inl (invalid_name, rw (run_resolve_incident, on, e) refl, λ row k. ground (arith, k))
      | inr (n, e) ↦
          let run : run_resolve_incident t reads w context id db
              ≡ act t context (Read.get_incident reads n db) already_resolved
                  (resolve_incident_with_audit w n) db =
            rw (run_resolve_incident, on, e) refl in
          elim (act_cases t context already_resolved (resolve_incident_with_audit w n) db
            (Read.get_incident reads n db)) [
              | inl (o, a, k) ↦ inl (o, run ∙ a, k)
              | inr (i, f, v, a) ↦ inr (n, i, on, e, f, v, run ∙ a)
            ]
    ]
  ]

  pub run_action-written :
      (action : Action) (target : Text) (i : AuditIdentity)
      → t.writes_disabled ≡ false
      → target_of t action ≡ some target
      → Finds reads db action target
      → validated_approval t context ≡ passed i
      → run_action t reads w context action db ≡ written w action target i db
  unfolding run_action run_restart_service run_resolve_incident write
  run_action-written (restart name) target i on e (s, f) v =
      rw (run_restart_service, on, e, f, act, v) refl
  run_action-written (resolve id) target i on e (s, f) v =
      rw (run_resolve_incident, on, e, f, act, v) refl

  -- An action changes nothing, or writes are on, a human has approved the call, and the database has
  -- exactly the change of the audited write of the target under that approval: the entry
  -- names the approver and the redacted rationale, and is new under its key.
  pub run_action-Authorized :
      (action : Action)
      → ((run_action t reads w context action db).1 ≡ db)
        ⊎ ((c : Context) × (k : Confirmation) × (target : Text) × (entry : AuditEntry) × (context
              ≡ some c)
            × (t.writes_disabled ≡ false)
            × Authorized t c k
            × (target_of t action ≡ some target)
            × (recorded_row (write_of action target (identity_of t c k)) db ≡ none)
            × Effect w db
                (run_action t reads w context action db).1
                entry
                (write_of action target (identity_of t c k)))
  run_action-Authorized action = elim (action_cases action) [
    | inl (o, e, _) ↦ inl (rw e refl)
    | inr (target, i, on, n, _, v, e) ↦
        let (c, k, here, a, same) = approval-Authorized t context i v in
        elim (write-Effect w (write_of action target i) db) [
          | inl u ↦ inl (rw e u)
          | inr (fresh, (entry, effect)) ↦
              inr
                (c, k, target, entry, here, on, a, n, rw (sym same) fresh, rw (e, sym same) effect)
        ]
  ]
