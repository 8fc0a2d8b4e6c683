-- ===== src/State/Safety/Quiet.antt =====
-- The writing of a journal reports its errors as values.
use agentops_open_course.Prelude.{true, false, List, Option, none, some}
use agentops_open_course.State.Disk.{
  Machine, Event, Outcome, returned, raised, crashed, M, after, attempt, Problem, RestoreJournal,
  fsync_dir, return, ◌>>=◌, ◌>>◌,
}
use agentops_open_course.State.Journal.{
  write_restore_journal, write_created, create_temporary, write_and_sync, publish_temporary,
  remove_temporary,
}
use agentops_open_course.State.Safety.Unwind.{Quiet}

after-Quiet :
    {A B : Type 0} (o : Outcome A) (f : A → M B)
    → Quiet o
    → ((a : A) (m : Machine) (s : List Event) → Quiet (f a m s))
    → Quiet (after o f)
after-Quiet (returned a m s) f q k = k a m s
after-Quiet (raised e m s) f q k = absurd q
after-Quiet (crashed m) f q k = tt

attempt-Quiet : (p : M (Unit {0})) (m : Machine) (s : List Event) → Quiet (attempt p m s)
unfolding attempt
attempt-Quiet p m s = go (p m s)
  where
    go : (o : Outcome (Unit {0})) → Quiet (attempt (λ m' s'. o) m s)
    go (returned a m' s') = tt
    go (raised e m' s') = tt
    go (crashed m') = tt

branch-Quiet :
    {A : Type 0} (o : Option Problem) (f : Problem → M A) (g : M A) (m : Machine) (s : List Event)
    → ((e : Problem) → Quiet (f e m s))
    → Quiet (g m s)
    → Quiet ((elim o as (λ k. M A) [ some e ↦ f e | none ↦ g ]) m s)
branch-Quiet none f g m s h k = k
branch-Quiet (some e) f g m s h k = h e

-- The result is made of what the attempt comes to.
result-Quiet :
    {A : Type 0} (p : M (Unit {0})) (f : Option Problem → A) (m : Machine) (s : List Event)
    → Quiet ((attempt p >>= λ r. return (f r)) m s)
result-Quiet p f m s =
    after-Quiet (attempt p m s) (λ r. return (f r)) (attempt-Quiet p m s) (λ a k i. tt)

module _ (j : RestoreJournal) where
  write_created-Quiet : (m : Machine) (s : List Event) → Quiet (write_created j m s)
  unfolding write_created
  write_created-Quiet m s =
      after-Quiet _ _
        (attempt-Quiet (do write_and_sync j; fsync_dir; publish_temporary j.transaction) m s)
        λ staged m' s'.
          branch-Quiet staged _ _ m' s'
            (λ e.
              result-Quiet (remove_temporary j.transaction)
                (λ _. record { published = false; err = some e }) m' s')
            (result-Quiet fsync_dir (λ r. record { published = true; err = r }) m' s')

  pub write_restore_journal-Quiet :
      (m : Machine) (s : List Event) → Quiet (write_restore_journal j m s)
  unfolding write_restore_journal
  write_restore_journal-Quiet m s =
      after-Quiet _ _ (attempt-Quiet (create_temporary j.transaction) m s)
        λ created m' s'. branch-Quiet created _ _ m' s' (λ e. tt) (write_created-Quiet m' s')
