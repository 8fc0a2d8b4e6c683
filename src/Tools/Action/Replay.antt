-- ===== src/Tools/Action/Replay.antt =====
-- An approved action that is delivered again.
use agentops_open_course.Prelude.{
  ◌≡◌, inl, inr, refl, ap, sym, ◌∙◌, subst, arith, false, Option, none, some, Text,
}
use agentops_open_course.Domain.Record.{AuditEntry, AuditEntryRow, audit_entry_row}
use agentops_open_course.Data.Tables.{Database}
use agentops_open_course.Data.Transaction.{AuditIdentity}
use agentops_open_course.Data.Transaction
use agentops_open_course.Data.Read
use agentops_open_course.Data.Read.Again.{service_again, incident_again}
use agentops_open_course.Data.Write.{write}
use agentops_open_course.Data.Write.Replay.{write_replayed}
use agentops_open_course.Tools.Approval.{Tools, Context}
use agentops_open_course.Tools.Action.{Outcome, done, outcome_of}
use agentops_open_course.Tools.Action.Effects.{
  Action, restart, resolve, run_action, write_of, absent_of, written, Finds, action_cases,
  run_action-written,
}

Finds-again :
    (reads reads' : Read.World) (w : Transaction.World) (db : Database) (action : Action)
    (target : Text) (i : AuditIdentity)
    → ((p : Read.Point) → reads'.fails p ≡ false)
    → Finds reads db action target
    → Finds reads' (write w (write_of action target i) db).1 action target
Finds-again reads reads' w db (restart _) target i works (s, f) =
    service_again reads reads' w i db works target s f
Finds-again reads reads' w db (resolve _) target i works (s, f) =
    incident_again reads reads' w i db works target s f

outcome_of-done :
    (action : Action) (r : Transaction.Result (Option AuditEntry)) (row : AuditEntryRow)
    → outcome_of (absent_of action) r ≡ done row
    → (a : AuditEntry) × (r ≡ Transaction.ok (some a))
outcome_of-done action (Transaction.err e) row h = absurd (ground (arith, h))
outcome_of-done (restart _) (Transaction.ok none) row h = absurd (ground (arith, h))
outcome_of-done (resolve _) (Transaction.ok none) row h = absurd (ground (arith, h))
outcome_of-done action (Transaction.ok (some a)) row h = (a, refl)

-- An action that is done, and is delivered again in the same call, with the same approval, gives the
-- same audit entry and changes nothing, when the database can then be read, opened, locked and closed.
pub run_action_replayed :
    (t : Tools) (reads reads' : Read.World) (w w' : Transaction.World) (context : Option Context)
    (action : Action) (db : Database) (row : AuditEntryRow)
    → (run_action t reads w context action db).0 ≡ done row
    → ((p : Read.Point) → reads'.fails p ≡ false)
    → ((p : Transaction.Point) → w'.fails p ≡ false)
    → run_action t reads' w' context action (run_action t reads w context action db).1
      ≡ (done row, (run_action t reads w context action db).1)
run_action_replayed t reads reads' w w' context action db row h reads_work works =
    elim (action_cases t reads w context db action) [
      | inl (o, e, n) ↦ absurd (n row (sym (ap (λ (p : Outcome × Database). p.0) e) ∙ h))
      | inr (target, i, on, named, f, v, e) ↦
          let r = write_of action target i in
          let after = (write w r db).1 in
          let d : outcome_of (absent_of action) (write w r db).0 ≡ done row = rw e at h in
          let (a, q) = outcome_of-done action (write w r db).0 row d in
          let again =
            run_action-written t reads' w' context after action target i on named
              (Finds-again reads reads' w db action target i reads_work f) v in
          let same =
            write_replayed w w' r r db a q refl refl refl (works Transaction.opening)
              (works Transaction.begin) (works Transaction.key_query) (works Transaction.closing) in
          let gone : done (audit_entry_row a) ≡ done row =
            subst (λ m. outcome_of (absent_of action) m ≡ done row) q d in
          let second : written w' action target i after ≡ (done row, after) =
            ap
              (λ (m : Transaction.Result (Option AuditEntry) × Database).
                (outcome_of (absent_of action) m.0, m.1))
              same
            ∙ ap (λ (o : Outcome). (o, after)) gone in
          rw e (again ∙ second)
    ]
