-- ===== src/Data/Write/Log.antt =====
-- The audit log over a history of writes.
use mathlib.Core.List.{append-nil, append_assoc}
use agentops_open_course.Prelude.{
  ℕ, ◌+◌, ◌≤◌, ◌<◌, false, List, [], ◌∷◌, ◌++◌, none, ◌≡◌, inl, inr, refl, sym, subst, ap, ◌∙◌,
  arith, Text, Bool-cases, text_eq_iff,
}
use agentops_open_course.Domain.Record.{AuditEntryRow, AuditEntry}
use agentops_open_course.Data.Tables.{Database, select_audit, has_key}
use agentops_open_course.Data.Transaction.{World, inserted_row}
use agentops_open_course.Data.Write.{Write, write}
use agentops_open_course.Data.Write.Effects.{
  Effect, appended, restarted, resolved, write-Effect, recorded_row,
}

-- No later row has the key of an earlier one: the unique index of the table.
abbrev pub IsUnique : List AuditEntryRow → Type 0
IsUnique [] = Unit {0}
IsUnique (row ∷ rows) =
    (select_audit row.invocation_id row.action row.target rows ≡ none) × IsUnique rows

-- The ids rise from above `low`, and stay within `high`.
abbrev pub Rises : ℕ → List AuditEntryRow → ℕ → Type 0
Rises low [] high = low ≤ high
Rises low (row ∷ rows) high = (low < row.id) × Rises row.id rows high

pub record IsLog (db : Database) : Type 0 where
  pub unique : IsUnique db.audit_log
  pub rises : Rises 0 db.audit_log db.last_id

select_audit-append_none :
    (i a t : Text) (rows : List AuditEntryRow) (new : AuditEntryRow)
    → select_audit i a t rows ≡ none
    → has_key i a t new ≡ false
    → select_audit i a t (rows ++ new ∷ []) ≡ none
unfolding select_audit
select_audit-append_none i a t [] new h k = rw k
select_audit-append_none i a t (row ∷ rows) new h k = elim (Bool-cases (has_key i a t row)) [
  | inl y ↦ absurd (ground (arith, y))
  | inr n ↦ rw n (select_audit-append_none i a t rows new (ground (arith, n)) k)
]

has_key_sym :
    (p q : AuditEntryRow)
    → has_key p.invocation_id p.action p.target q ≡ has_key q.invocation_id q.action q.target p
has_key_sym p q = ground (
  arith,
  text_eq_iff p.invocation_id q.invocation_id,
  text_eq_iff q.invocation_id p.invocation_id,
  text_eq_iff p.action q.action,
  text_eq_iff q.action p.action,
  text_eq_iff p.target q.target,
  text_eq_iff q.target p.target,
)

IsUnique-append :
    (rows : List AuditEntryRow) (new : AuditEntryRow)
    → IsUnique rows
    → select_audit new.invocation_id new.action new.target rows ≡ none
    → IsUnique (rows ++ new ∷ [])
unfolding select_audit
IsUnique-append [] new u h = (refl, tt)
IsUnique-append (row ∷ rows) new u h =
    elim (Bool-cases (has_key new.invocation_id new.action new.target row)) [
      | inl y ↦ absurd (ground (arith, y))
      | inr n ↦ (
        select_audit-append_none row.invocation_id row.action row.target rows new u.0
            (has_key_sym row new ∙ n),
        IsUnique-append rows new u.1 (ground (arith, n)),
      )
    ]

Rises-append :
    (rows : List AuditEntryRow) (new : AuditEntryRow) (low high : ℕ)
    → Rises low rows high
    → high < new.id
    → Rises low (rows ++ new ∷ []) new.id
Rises-append [] new low high r h = (omega arith, omega arith)
Rises-append (row ∷ rows) new low high r h = (r.0, Rises-append rows new row.id high r.1 h)

-- One entry more, under the next id, with a key that is new.
record Grows (db db' : Database) : Type 0 where
  new : AuditEntryRow
  log_is : db'.audit_log ≡ db.audit_log ++ new ∷ []
  id_is : db'.last_id ≡ db.last_id + 1
  new_id : new.id ≡ db.last_id + 1
  fresh : select_audit new.invocation_id new.action new.target db.audit_log ≡ none

Effect-Grows :
    (w : World) (db db' : Database) (a : AuditEntry) (r : Write)
    → recorded_row r db ≡ none
    → Effect w db db' a r
    → Grows db db'
Effect-Grows w db db' a r s (appended request x) = record {
  new = inserted_row w request (db.last_id + 1);
  log_is = ap (λ (d : Database). d.audit_log) x.db_is;
  id_is = ap (λ (d : Database). d.last_id) x.db_is;
  new_id = refl;
  fresh = s;
}
Effect-Grows w db db' a r s (restarted name identity summary row found x) = record {
  new = inserted_row w _ (db.last_id + 1);
  log_is = ap (λ (d : Database). d.audit_log) x.db_is;
  id_is = ap (λ (d : Database). d.last_id) x.db_is;
  new_id = refl;
  fresh = s;
}
Effect-Grows w db db' a r s (resolved id identity summary row found live x) = record {
  new = inserted_row w _ (db.last_id + 1);
  log_is = ap (λ (d : Database). d.audit_log) x.db_is;
  id_is = ap (λ (d : Database). d.last_id) x.db_is;
  new_id = refl;
  fresh = s;
}

Grows-IsLog : (db db' : Database) → IsLog db → Grows db db' → IsLog db'
Grows-IsLog db db' v g = record {
  unique = rw g.log_is (IsUnique-append db.audit_log g.new v.unique g.fresh);
  rises =
      rw (g.log_is, g.id_is, ← g.new_id)
        (Rises-append db.audit_log g.new 0 db.last_id v.rises (omega (arith, g.new_id)));
}

-- A history of writes, each under what the engine and the clock did then.
unfoldable pub run_writes : List (World × Write) → Database → Database
run_writes [] db = db
run_writes ((w, r) ∷ ws) db = run_writes ws (write w r db).1

-- Over any history of writes, with any failures, the log only grows at its end, no two entries
-- share an idempotency key, and the ids rise.
pub run_writes-IsLog :
    (ws : List (World × Write)) (db : Database)
    → IsLog db
    → IsLog (run_writes ws db)
      × ((new : List AuditEntryRow) × ((run_writes ws db).audit_log ≡ db.audit_log ++ new))
unfolding run_writes
run_writes-IsLog [] db v = (v, ([], sym (append-nil db.audit_log)))
run_writes-IsLog ((w, r) ∷ ws) db v = elim (write-Effect w r db) [
  | inl same ↦
      subst
        (λ d.
          IsLog (run_writes ws d)
          × ((new : List AuditEntryRow) × ((run_writes ws d).audit_log ≡ db.audit_log ++ new)))
        (sym same) (run_writes-IsLog ws db v)
  | inr (s, (a, effect)) ↦
      let g = Effect-Grows w db (write w r db).1 a r s effect in
      let (v', (new, e)) =
        run_writes-IsLog ws (write w r db).1 (Grows-IsLog db (write w r db).1 v g) in
      (
        v',
        (g.new ∷ new, e ∙ ap (λ x. x ++ new) g.log_is ∙ append_assoc db.audit_log (g.new ∷ []) new),
      )
]
