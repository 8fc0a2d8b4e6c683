-- ===== src/Data/Read.antt =====
-- agents/go/data/read.go: the incidents and services that are read, each parsed before it is returned.
-- `World` says which calls of the engine fail; the texts of errors are left out.
pub mod Exact
pub mod Again
use agentops_open_course.Prelude.{
  Bool, true, false, ◌&&◌, ◌||◌, List, [], ◌∷◌, Option, none, some, if◌then◌else◌, Text, text_eq,
  text_lt,
}
use agentops_open_course.Domain.Record.{
  Field, New, created, rejected, IncidentRow, Incident, new_incident, ServiceRow, Service,
  new_service,
}
use agentops_open_course.Data.Tables.{
  has_unsupported, Database, select_service, select_incident, latest_first,
}

pub data Point : Type 0 where
  opening version_column version_rows query columns next scan closing : Point

pub record World : Type 0 where
  pub fails : Point → Bool

pub data Error : Type 0 where
  failed : Point → Error
  unsupported_audit_schema : Error
  not_valid : List Field → Error

pub data Result {ℓ} (A : Type ℓ) : Type ℓ where
  ok : A → Result A
  err : Error → Result A

module _ {ℓ} {B : Type ℓ} where
  infixl 5 ◌>>=◌ ◌>>◌
  abbrev pub ◌>>=◌ {κ} : {A : Type κ} → Result A → (A → Result B) → Result B
  err e >>= f = err e
  ok a >>= f = f a

  abbrev pub ◌>>◌ : Result (Unit {0}) → Result B → Result B
  err e >> k = err e
  ok u >> k = k

abbrev pub call : World → Point → Result (Unit {0})
call w p = if w.fails p then err (failed p) else ok tt

abbrev pub valid {ℓ} : {A : Type ℓ} → New A → Result A
valid (created a) = ok a
valid (rejected fs) = err (not_valid fs)

-- `rejectFutureAuditSchema`: no row of the audit log may have a version that is not supported.
unfoldable pub reject_future_audit_schema : World → Database → Result (Unit {0})
reject_future_audit_schema w db = do
  call w version_column
  call w version_rows
  if has_unsupported db.audit_log then err unsupported_audit_schema else ok tt

-- `openForRead`, with its check of the audit log, and `closeWith`, whose error is joined to that of the
-- check or of the body.
unfoldable pub with_database {ℓ} : {A : Type ℓ} → World → Database → Result A → Result A
unfolding reject_future_audit_schema
with_database w db body =
    if w.fails opening
    then err (failed opening)
    else elim (do reject_future_audit_schema w db; body) [
      | err e ↦ err e
      | ok a ↦ if w.fails closing then err (failed closing) else ok a
    ]

-- The loop over the rows of a query; `next` is `rows.Err`.
unfoldable pub read_rows {ℓ κ} :
    {R : Type ℓ} {A : Type κ} → World → (R → New A) → List R → Result (List A)
read_rows w parse [] = do call w next; ok []
read_rows w parse (row ∷ rows) = do
  call w scan
  a ← valid (parse row)
  rest ← read_rows w parse rows
  ok (a ∷ rest)

-- `if !rows.Next() { … }`, and the one row.
unfoldable pub read_row {ℓ κ} :
    {R : Type ℓ} {A : Type κ} → World → (R → New A) → Option R → Result (Option A)
read_row w parse none = do call w next; ok none
read_row w parse (some row) = do call w scan; a ← valid (parse row); ok (some a)

abbrev pub queried {ℓ} : {A : Type ℓ} → World → Result A → Result A
queried w body = do call w query; call w columns; body

pub record IncidentFilter : Type 0 where
  pub status : Text
  pub service : Text

abbrev pub unset_or : Text → Text → Bool
unset_or wanted column = text_eq wanted [] || text_eq column wanted

-- `WHERE status = ? AND service = ?`, each clause only where its filter is set.
unfoldable pub filter_incidents : IncidentFilter → List IncidentRow → List IncidentRow
filter_incidents f [] = []
filter_incidents f (row ∷ rows) =
    if unset_or f.status row.status && unset_or f.service row.service
    then row ∷ filter_incidents f rows
    else filter_incidents f rows

unfoldable pub select_incidents : IncidentFilter → Database → List IncidentRow
unfolding filter_incidents
select_incidents f db = latest_first (filter_incidents f db.incidents)

-- `ORDER BY name`.
insert_by_name : ServiceRow → List ServiceRow → List ServiceRow
insert_by_name r [] = r ∷ []
insert_by_name r (q ∷ qs) = if text_lt q.name r.name then q ∷ insert_by_name r qs else r ∷ q ∷ qs

by_name : List ServiceRow → List ServiceRow
unfolding insert_by_name
by_name [] = []
by_name (r ∷ rs) = insert_by_name r (by_name rs)

unfoldable pub select_services : Database → List ServiceRow
unfolding by_name
select_services db = by_name db.services

unfoldable pub list_incidents : World → IncidentFilter → Database → Result (List Incident)
unfolding with_database read_rows select_incidents
list_incidents w f db =
    with_database w db (queried w (read_rows w new_incident (select_incidents f db)))

unfoldable pub list_services : World → Database → Result (List Service)
unfolding with_database read_rows select_services
list_services w db = with_database w db (queried w (read_rows w new_service (select_services db)))

unfoldable pub get_incident : World → Text → Database → Result (Option Incident)
unfolding with_database read_row
get_incident w id db =
    with_database w db (queried w (read_row w new_incident (select_incident id db.incidents)))

unfoldable pub get_service : World → Text → Database → Result (Option Service)
unfolding with_database read_row
get_service w name db =
    with_database w db (queried w (read_row w new_service (select_service name db.services)))
