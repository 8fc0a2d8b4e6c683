-- ===== src/State/Safety/Unwind.antt =====
-- What the function that `publishRestore` defers does with an error.
use agentops_open_course.Prelude.{◌≡◌, ◌≢◌, refl, inl, inr, List, [], Option, none, some, Text}
use agentops_open_course.State.Disk.{
  Files, Digest, prepared, rolling_back, committed, Event, Problem, Outcome, returned, raised,
  crashed, M, after, attempt, raise_if, fsync_dir, in_staging, in_quarantine, remove_all,
}
use agentops_open_course.State.Evidence.{first_problem}
use agentops_open_course.State.Restore.{
  discard_directories, unwind_journal, unwind_restore, rethrow, unwinding,
}
use agentops_open_course.State.Logic.{
  View, machine, Ends, ends_returned, ends_raised, ends_crashed, bind-Ends, step-Ends, mono-Ends,
  fsync-Ends, later-Ends,
}
use agentops_open_course.State.Logic.Removal.{remove_all-Ends}
use agentops_open_course.State.Logic.Temporaries.{attempt-Ends}
use agentops_open_course.State.Safety.Invariant.{
  Transaction, Generation, old_generation, new_generation, IsPrepared, IsRolling, Recoverable,
  is_clean, is_prepared, is_rolling, journal_at,
}
use agentops_open_course.State.Safety.Checks.{validate_rollback_evidence_lem}
use agentops_open_course.State.Safety.Phases.{set_restore_phase-Ends, in_phase}
use agentops_open_course.State.Safety.Recover.{IsPrepared-with}
use agentops_open_course.State.Safety.Rollback.{rollback_restore-Ends}

-- The old generation is live, and no journal has its name yet.
pub record IsUntouched (fs : Files) (v : View) : Type 0 where
  pub live : v.live ≡ fs
  pub journal : v.journal ≡ none

module _ {t : Text} {fs : Files} where
  -- The removals change neither the live files nor the journal.
  remove_staging-Ends :
      (v : View) (s : List Event)
      → IsUntouched fs v
      → Ends t (λ _. IsUntouched fs) (IsUntouched fs) s (remove_all (in_staging t) (machine t v) s)
  remove_staging-Ends v s u =
      remove_all-Ends (λ _. Unit {0}) (λ n c g k. tt) (in_staging t) refl v
        (λ g k. record { live = u.live; journal = u.journal }) s (λ g e. tt) tt (λ e. u)
        (record { live = u.live; journal = u.journal })

  remove_quarantine-Ends :
      (v : View) (s : List Event)
      → IsUntouched fs v
      → Ends t
          (λ _. IsUntouched fs)
          (IsUntouched fs)
          s
          (remove_all (in_quarantine t) (machine t v) s)
  remove_quarantine-Ends v s u =
      remove_all-Ends (λ _. Unit {0}) (λ n c g k. tt) (in_quarantine t) refl v
        (λ g k. record { live = u.live; journal = u.journal }) s (λ g e. tt) tt (λ e. u)
        (record { live = u.live; journal = u.journal })

  -- An attempt of what changes neither changes neither.
  attempt-IsUntouched :
      (p : M (Unit {0})) (v : View) (s : List Event)
      → Ends t (λ _. IsUntouched fs) (IsUntouched fs) s (p (machine t v) s)
      → Ends t (λ r w. IsUntouched fs w) (IsUntouched fs) s (attempt p (machine t v) s)
  attempt-IsUntouched p v s h =
      mono-Ends (λ r w k. elim k [ inl (e, u) ↦ u | inr (e, f, n, u) ↦ u ]) (λ w u. u)
        (attempt-Ends p (machine t v) h)

  raise_if-Ends :
      (r : Option Problem) (v : View) (s s' : List Event)
      → s ≢ []
      → IsUntouched fs v
      → Ends t (λ _. IsUntouched fs) (IsUntouched fs) s (raise_if r (machine t v) s')
  raise_if-Ends none v s s' n u = ends_returned tt v s' (λ i. absurd (n i)) u
  raise_if-Ends (some e) v s s' n u = ends_raised e v s' n u

  pub discard_directories-Ends :
      (v : View) (s0 s : List Event)
      → s0 ≢ []
      → IsUntouched fs v
      → Ends t (λ _. IsUntouched fs) (IsUntouched fs) s0 (discard_directories t (machine t v) s)
  unfolding discard_directories
  discard_directories-Ends v s0 s n u =
      bind-Ends _
        (later-Ends (λ i. absurd (n i))
          (attempt-IsUntouched (remove_all (in_staging t)) v s (remove_staging-Ends v s u)))
        λ a v1 s1 q1 u1.
          bind-Ends _
            (later-Ends (λ i. absurd (n i))
              (attempt-IsUntouched (remove_all (in_quarantine t)) v1 s1
                (remove_quarantine-Ends v1 s1 u1)))
            λ b v2 s2 q2 u2.
              bind-Ends _
                (later-Ends (λ i. absurd (n i))
                  (attempt-IsUntouched fsync_dir v2 s2 (fsync-Ends v2 s2 u2 u2)))
                λ c v3 s3 q3 u3. raise_if-Ends (first_problem a (first_problem b c)) v3 s0 s3 n u3

-- An outcome that is no error.
abbrev pub Quiet {ℓ} : {A : Type ℓ} → Outcome A → Type 0
Quiet (returned a m s) = Unit {0}
Quiet (raised e m s) = ⊥
Quiet (crashed m) = Unit {0}

module _ ⦃digest : Digest⦄ where
  -- The deferred function leads from `Inner` to what may be left.
  abbrev pub Unwinds : Text → (View → Type 0) → (View → Type 0) → Type 0
  Unwinds t Bad Inner =
      (v : View) (s s' : List Event)
      → s ≢ []
      → Inner v
      → Ends t (λ _. Bad) Bad s (unwind_restore t (machine t v) s')

module _ ⦃digest : Digest⦄ {t : Text} {Bad : View → Type 0} where
  -- The first error stays the error.
  rethrow-Ends :
      {A : Type 0} {Post : A → View → Type 0} {s : List Event} {o : Outcome (Unit {0})}
      (e : Problem)
      → s ≢ []
      → Ends t (λ _. Bad) Bad s o
      → Ends t Post Bad s (rethrow e o)
  unfolding rethrow
  rethrow-Ends e n (ends_returned a v s' q b) = ends_raised e v s' n b
  rethrow-Ends e n (ends_raised f v s' q b) = ends_raised e v s' n b
  rethrow-Ends e n (ends_crashed v q b) = ends_crashed v n b

  pub end-Ends :
      {Inner : View → Type 0} {Next : Unit {0} → View → Type 0} {s : List Event}
      {o : Outcome (Unit {0})}
      → ((v : View) → Inner v → Bad v)
      → Unwinds t Bad Inner
      → Ends t Next Inner s o
      → Ends t Next Bad s (unwinding t o)
  unfolding unwinding
  end-Ends g u (ends_returned a v s' q p) = ends_returned a v s' q p
  end-Ends {s = s} g u (ends_raised e v s' q p) = rethrow-Ends e q (u v s s' q p)
  end-Ends g u (ends_crashed v q p) = ends_crashed v q (g v p)

  module _ {A : Type 0} {Post : A → View → Type 0} {Next : Unit {0} → View → Type 0}
      {s : List Event} (f : A → M (Unit {0})) where
    -- An error of the first part is unwound at once.
    pub unwinding-Ends :
        {Inner : View → Type 0} {o : Outcome A}
        → ((v : View) → Inner v → Bad v)
        → Unwinds t Bad Inner
        → Ends t Post Inner s o
        → ((a : A) (v : View) (s' : List Event)
            → (s ≡ [] → s' ≡ [])
            → Post a v
            → Ends t Next Bad s (unwinding t (f a (machine t v) s')))
        → Ends t Next Bad s (unwinding t (after o f))
    unfolding unwinding
    unwinding-Ends g u (ends_returned a v s' q p) k = k a v s' q p
    unwinding-Ends g u (ends_raised e v s' q p) k = rethrow-Ends e q (u v s s' q p)
    unwinding-Ends g u (ends_crashed v q p) k = ends_crashed v q (g v p)

    pub Quiet-unwinding-Ends :
        {o : Outcome A}
        → Quiet o
        → Ends t Post Bad s o
        → ((a : A) (v : View) (s' : List Event)
            → (s ≡ [] → s' ≡ [])
            → Post a v
            → Ends t Next Bad s (unwinding t (f a (machine t v) s')))
        → Ends t Next Bad s (unwinding t (after o f))
    unfolding unwinding
    Quiet-unwinding-Ends c (ends_returned a v s' q p) k = k a v s' q p
    Quiet-unwinding-Ends c (ends_raised e v s' q p) k = absurd c
    Quiet-unwinding-Ends c (ends_crashed v q p) k = ends_crashed v q p

module _ ⦃digest : Digest⦄ (x : Transaction) where
  -- What an interrupted restore leaves: the old generation, with or without a journal yet, or a
  -- directory that recovery takes to a generation.
  pub data Interrupted : View → Type 0 where
    still_old : {v : View} → IsUntouched x.old_files v → Interrupted v
    recoverable : {g : Generation} {v : View} → Recoverable x g v → Interrupted v

  -- Before the journal has its name, and the restore is still without one.
  pub record IsStaging (v : View) : Type 0 where
    pub untouched : IsUntouched x.old_files v
    pub held : v.held ≡ none

  -- After: the restore holds the journal of the disk, or one that it has not yet written.
  pub data Publishing : View → Type 0 where
    owing : {v : View} → IsPrepared x v → v.held ≡ some (journal_at x prepared) → Publishing v
    committing : {v : View} → IsPrepared x v → v.held ≡ some (journal_at x committed) → Publishing v
    settled :
        {v : View}
        → Recoverable x new_generation v
        → v.held ≡ some (journal_at x committed)
        → Publishing v

  pub IsStaging-Interrupted : (v : View) → IsStaging v → Interrupted v
  IsStaging-Interrupted v i = still_old i.untouched

  pub Publishing-Interrupted : (v : View) → Publishing v → Interrupted v
  Publishing-Interrupted v (owing i h) = recoverable (is_prepared i)
  Publishing-Interrupted v (committing i h) = recoverable (is_prepared i)
  Publishing-Interrupted v (settled r h) = recoverable r

  pub IsStaging-Unwinds : Unwinds x.id Interrupted IsStaging
  unfolding unwind_restore
  IsStaging-Unwinds v s s' n i =
      rw (i.held, unwind_restore)
        (mono-Ends (λ a w u. still_old u) (λ w u. still_old u)
          (discard_directories-Ends v s s' n i.untouched))

  unwind_prepared-Ends :
      (v : View) (s : List Event)
      → IsPrepared x v
      → Ends x.id
          (λ _. Interrupted)
          Interrupted
          s
          (unwind_journal prepared (journal_at x prepared) (machine x.id v) s)
  unfolding unwind_journal
  unwind_prepared-Ends v s i =
      let j = journal_at x prepared in
      let w = in_phase v j rolling_back in
      let rolls : IsRolling x w = record { journal = refl; halfway = i.halfway } in
      step-Ends _
        (set_restore_phase-Ends j rolling_back v
          (λ f. recoverable (is_prepared (IsPrepared-with x v f v.held i)))
          (λ f.
            recoverable (is_prepared (IsPrepared-with x v f (some (journal_at x rolling_back)) i)))
          (recoverable (is_rolling rolls)) s)
        λ s1. rw (validate_rollback_evidence_lem x w prepared i.halfway) (
          mono-Ends (λ a y c. recoverable (is_clean {g = old_generation} c)) (λ y r. recoverable r)
            (rollback_restore-Ends x prepared w s1 rolls))

  pub Publishing-Unwinds : Unwinds x.id Interrupted Publishing
  unfolding unwind_restore unwind_journal
  Publishing-Unwinds v s s' n (owing i h) =
      rw (h, unwind_restore) (later-Ends (λ e. absurd (n e)) (unwind_prepared-Ends v s' i))
  Publishing-Unwinds v s s' n (committing i h) =
      rw (h, unwind_restore)
        (ends_returned tt v s' (λ e. absurd (n e)) (recoverable (is_prepared i)))
  Publishing-Unwinds v s s' n (settled r h) =
      rw (h, unwind_restore) (ends_returned tt v s' (λ e. absurd (n e)) (recoverable r))
