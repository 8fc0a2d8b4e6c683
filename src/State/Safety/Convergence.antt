-- ===== src/State/Safety/Convergence.antt =====
-- Recovery that is interrupted, however often, and then left to itself.
use agentops_open_course.Prelude.{Text, ◌≡◌, refl, List, [], ◌∷◌}
use agentops_open_course.State.Disk.{
  Files, Digest, Machine, Event, Outcome, returned, raised, crashed,
}
use agentops_open_course.State.Recovery.{recover_restore_locked}
use agentops_open_course.State.Logic.{View, machine, Ends, ends_returned, ends_raised, ends_crashed}
use agentops_open_course.State.Safety.Invariant.{Transaction, Generation, IsClean, Recoverable}

-- What a run leaves on the disk.
abbrev pub machine_after : {A : Type 0} → Outcome A → Machine
machine_after (returned a m s) = m
machine_after (raised e m s) = m
machine_after (crashed m) = m

module _ ⦃digest : Digest⦄ where
  -- One recovery after the other, each with its faults.
  unfoldable pub recoveries : List (List Event) → Machine → Machine
  unfolding recover_restore_locked
  recoveries [] m = m
  recoveries (s ∷ runs) m = recoveries runs (machine_after (recover_restore_locked m s))

-- What returns with these files, no residue and no event left.
abbrev pub Restores : Text → Files → Outcome (Unit {0}) → Type 0
Restores t files o = (v : View) × (o ≡ returned tt (machine t v) []) × IsClean files v

pub undisturbed :
    (t : Text) (files : Files) (Bad : View → Type 0) (s : List Event) (o : Outcome (Unit {0}))
    → s ≡ []
    → Ends t (λ _. IsClean files) Bad s o
    → Restores t files o
undisturbed t files Bad s o e (ends_returned a v s' q c) = (v, rw (q e) refl, c)
undisturbed t files Bad s o e (ends_raised f v s' q b) = absurd (q e)
undisturbed t files Bad s o e (ends_crashed v q b) = absurd (q e)

module _ ⦃digest : Digest⦄ (x : Transaction) (g : Generation) where
  abbrev Leaves : Machine → Type 0
  Leaves m = (v : View) × (m ≡ machine x.id v) × Recoverable x g v
