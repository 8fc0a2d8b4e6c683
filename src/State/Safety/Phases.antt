-- ===== src/State/Safety/Phases.antt =====
-- The change of a journal's phase.
use agentops_open_course.Prelude.{◌≡◌, refl, sym, ap, ◌∙◌, subst, List, [], Option, none, some}
use agentops_open_course.State.Maps.{lookup-sole}
use agentops_open_course.State.Disk.{
  Digest, RestorePhase, RestoreJournal, JournalFile, document, Event, raise_if,
}
use agentops_open_course.State.Journal.{Written}
use agentops_open_course.State.Rollback.{discard_owned_journal_temporary, set_restore_phase}
use agentops_open_course.State.Logic.{
  View, machine, Ends, ends_returned, ends_raised, step-Ends, bind-Ends, mono-Ends, fsync-Ends,
}
use agentops_open_course.State.Logic.Temporaries.{with_temporary, remove_temporary-Ends}
use agentops_open_course.State.Logic.Journals.{
  Wrote, wrote, unflushed, unwritten, write_restore_journal-Ends,
}

pub discard_owned_journal_temporary-Ends :
    {Bad : View → Type 0} (j : RestoreJournal) (v : View) (s : List Event)
    → Bad v
    → Bad (with_temporary v none)
    → Ends j.transaction
        (λ _ w. w ≡ with_temporary v none)
        Bad
        s
        (discard_owned_journal_temporary j (machine j.transaction v) s)
unfolding discard_owned_journal_temporary
discard_owned_journal_temporary-Ends {Bad} j v s b c = go v.temporary refl
  where
    go :
        (o : Option JournalFile)
        → v.temporary ≡ o
        → Ends j.transaction
            (λ _ w. w ≡ with_temporary v none)
            Bad
            s
            (discard_owned_journal_temporary j (machine j.transaction v) s)
    go none e =
        rw (lookup-sole j.transaction v.temporary ∙ e, discard_owned_journal_temporary)
          (ends_returned tt v s (λ i. i) (ap (with_temporary v) e))
    go (some f) e =
        rw (lookup-sole j.transaction v.temporary ∙ e, discard_owned_journal_temporary)
          (step-Ends _
            (mono-Ends (λ a w p. p) (λ w p. subst Bad (sym p) b)
              (remove_temporary-Ends j.transaction v v.temporary s))
            λ s'. fsync-Ends (with_temporary v none) s' c refl)

abbrev pub in_phase : View → RestoreJournal → RestorePhase → View
in_phase v j phase = record v {
  temporary = none;
  journal = some (document (record j { phase = phase }));
  held = some (record j { phase = phase });
}

module _ ⦃digest : Digest⦄ (j : RestoreJournal) (phase : RestorePhase) (v : View)
    {Bad : View → Type 0} (earlier : (f : Option JournalFile) → Bad (with_temporary v f))
    (bad : (f : Option JournalFile)
      → Bad (record v { temporary = f; held = some (record j { phase = phase }) }))
    (done : Bad (in_phase v j phase)) where
  written :
      (s s' : List Event) (w : Written) (y : View)
      → (s ≡ [] → s' ≡ [])
      → Wrote
          (record v { held = some (record j { phase = phase }) })
          (record j { phase = phase })
          s
          w
          y
      → Ends j.transaction
          (λ _ z. z ≡ in_phase v j phase)
          Bad
          s
          (raise_if w.err (machine j.transaction y) s')
  written s s' w y q wrote = ends_returned tt (in_phase v j phase) s' q refl
  written s s' w y q (unflushed e n) = ends_raised e (in_phase v j phase) s' n done
  written s s' w y q (unwritten e f n l) =
      ends_raised e (record v { temporary = f; held = some (record j { phase = phase }) }) s' n
        (bad f)

  pub set_restore_phase-Ends :
      (s : List Event)
      → Ends j.transaction
          (λ _ w. w ≡ in_phase v j phase)
          Bad
          s
          (set_restore_phase j phase (machine j.transaction v) s)
  unfolding set_restore_phase
  set_restore_phase-Ends s =
      let j' = record j { phase = phase } in
      step-Ends _ (discard_owned_journal_temporary-Ends j v s (earlier v.temporary) (earlier none))
        λ s1.
          bind-Ends _
            (write_restore_journal-Ends (record v { held = some j' }) j' s1 (λ f l. bad f) done)
            λ w y s2 q p. written s1 s2 w y q p
