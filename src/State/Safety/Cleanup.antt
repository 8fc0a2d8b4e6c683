-- ===== src/State/Safety/Cleanup.antt =====
-- The clean-up of a transaction that is over.
use agentops_open_course.Prelude.{
  ◌≡◌, refl, sym, ap, ◌∙◌, subst, inl, inr, List, [], ◌∷◌, Option, none, some, Text, text_eq,
  Bool-cases,
}
use agentops_open_course.State.Maps.{lookup, Sorted, lookup-tail}
use agentops_open_course.State.Disk.{
  Files, Event, JournalFile, RestoreJournal, in_staging, in_quarantine,
}
use agentops_open_course.State.Rollback.{cleanup_restore_transaction, remove_journal}
use agentops_open_course.State.Logic.{
  View, machine, Ends, io-Ends, fsync-Ends, mono-Ends, step-Ends,
}
use agentops_open_course.State.Logic.Removal.{remove_all-Ends}
use agentops_open_course.State.Logic.Temporaries.{remove_temporary-Ends}
use agentops_open_course.State.Safety.Records.{Part}
use agentops_open_course.State.Safety.Invariant.{entries_of, IsClean}

-- What is left of the files of `gs`.
abbrev pub Remains : Files → Files → Type 0
Remains gs fs = Sorted fs × Part fs gs

pub Remains-tail :
    (gs : Files) (name c : Text) (fs : Files) → Remains gs ((name, c) ∷ fs) → Remains gs fs
Remains-tail gs name c fs (s, p) = (
  s.1,
  λ k. elim (Bool-cases (text_eq k name)) [
    | inl e ↦ inl (lookup-tail k name c fs s ∙ rw e)
    | inr n ↦ elim (p k) [
      | inl h ↦ inl (lookup-tail k name c fs s ∙ rw n h)
      | inr h ↦ inr (lookup-tail k name c fs s ∙ rw n h)
    ]
  ],
)

pub Remains-nil : (gs : Files) → Remains gs []
unfolding lookup
Remains-nil gs = (tt, λ k. inl refl)

abbrev pub view : View → Option Files → Option Files → Option JournalFile → View
view v s q f = record v { staging = s; quarantine = q; temporary = f }

abbrev pub without_journal : View → View
without_journal v = record v { staging = none; quarantine = none; temporary = none; journal = none }

module _ (j : RestoreJournal) (v : View) (file : JournalFile) {Bad : View → Type 0} where
  remove_journal-Ends :
      (s : List Event)
      → v.journal ≡ some file
      → Bad (view v none none none)
      → Ends j.transaction
          (λ _ x. x ≡ without_journal v)
          Bad
          s
          (remove_journal (machine j.transaction (view v none none none)) s)
  unfolding remove_journal
  remove_journal-Ends s e b =
      rw (e, remove_journal)
        (io-Ends (λ k. record k { journal = none }) (view v none none none) (without_journal v) s
          refl b refl)

module _ (j : RestoreJournal) (v : View) (file : JournalFile) (fs gs hs : Files)
    {Bad : View → Type 0} where
  -- From a directory with the journal and the files of `fs`, with remains of `gs` and `hs` in the two
  -- directories, to a clean one.
  pub cleanup-Ends :
      (s : List Event)
      → v.journal ≡ some file
      → v.live ≡ fs
      → Remains gs (entries_of v.staging)
      → Remains hs (entries_of v.quarantine)
      → ((st q : Option Files) (f : Option JournalFile)
          → Remains gs (entries_of st)
          → Remains hs (entries_of q)
          → Bad (view v st q f))
      → (IsClean fs (without_journal v) → Bad (without_journal v))
      → Ends j.transaction
          (λ _. IsClean fs)
          Bad
          s
          (cleanup_restore_transaction j (machine j.transaction v) s)
  unfolding cleanup_restore_transaction
  cleanup-Ends s ej el rs rq bad clean =
      let t = j.transaction in
      let rs0 = Remains-nil gs in
      let rq0 = Remains-nil hs in
      let over : IsClean fs (without_journal v) = record {
        live = el;
        staging = refl;
        quarantine = refl;
        temporary = refl;
        journal = refl;
      } in
      step-Ends _
        (remove_all-Ends (Remains gs) (Remains-tail gs) (in_staging t) refl v
          (λ fs' k. bad (some fs') v.quarantine v.temporary k rq)
          {Post = λ w. w ≡ view v none v.quarantine v.temporary} s
          (λ fs' e. subst (Remains gs) (ap entries_of e) rs) rs0
          (λ e. ap (λ o. view v o v.quarantine v.temporary) e) refl)
        λ s1.
          step-Ends _
            (remove_all-Ends (Remains hs) (Remains-tail hs) (in_quarantine t) refl
              (view v none v.quarantine v.temporary)
              (λ fs' k. bad none (some fs') v.temporary rs0 k)
              {Post = λ w. w ≡ view v none none v.temporary} s1
              (λ fs' e. subst (Remains hs) (ap entries_of e) rq) rq0
              (λ e. ap (λ o. view v none o v.temporary) e) refl)
            λ s2.
              step-Ends _
                (mono-Ends (λ a x p. p)
                  (λ x p. subst Bad (sym p) (bad none none v.temporary rs0 rq0))
                  (remove_temporary-Ends t (view v none none none) v.temporary s2))
                λ s3.
                  step-Ends _
                    (fsync-Ends {Post = λ _ w. w ≡ view v none none none} (view v none none none) s3
                      (bad none none none rs0 rq0) refl)
                    λ s4.
                      step-Ends _ (remove_journal-Ends j v file s4 ej (bad none none none rs0 rq0))
                        λ s5. (fsync-Ends (without_journal v) s5 (clean over) over)
