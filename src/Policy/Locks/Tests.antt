-- ===== src/Policy/Locks/Tests.antt =====
-- Two callbacks of one session.
use agentops_open_course.Prelude.{ℕ, ◌≡◌, ◌≢◌, ◌↔◌, refl, arith, true, text_eq, none, some, codes}
use agentops_open_course.Policy.Locks.{
  SessionKey, update, Registry, lock_entry, waiting, inside, call, acquire, System, pick, start,
  Reach, started, later,
}
use agentops_open_course.Policy.Locks.Counts.{reference}
use agentops_open_course.Policy.Locks.Exclusion.{one_inside, entry_iff}

abbrev session : SessionKey
session = record { app_name = codes "ops"; user_id = codes "ana"; session_id = codes "s1" }

abbrev registered : Registry
registered = (lock_entry start.registry session).0

abbrev one_waits : System
one_waits = record { registry = registered; place = update start.place 0 (waiting session 0) }

abbrev two_wait : System
two_wait = record {
  registry = (lock_entry registered session).0;
  place = update one_waits.place 1 (waiting session 0);
}

abbrev one_in : System
one_in = record {
  registry = record two_wait.registry { held = update two_wait.registry.held 0 true };
  place = update two_wait.place 0 (inside session 0);
}

one_in-Reach : Reach 2 one_in
unfolding lock_entry text_eq
one_in-Reach =
    later
      (later (later started (pick 0 (omega arith) refl (call session)))
        (pick 1 (omega arith) refl (call session)))
      (pick 0 (omega arith) refl (acquire refl))

one_inside_example : one_in.place 1 ≢ inside session 0
one_inside_example = one_inside 2 one_in 0 1 session 0 0 one_in-Reach refl (ground arith)

entry_iff_example :
    (one_in.registry.locks session ≡ none)
    ↔ ((i e : ℕ) → reference (one_in.place i) ≢ some (session, e))
entry_iff_example = entry_iff 2 one_in session one_in-Reach
