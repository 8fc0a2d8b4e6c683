-- ===== src/State/Logic/Journals.antt =====
-- The writing of a journal, on a view.
use agentops_open_course.State.Logic.Temporaries.{
  attempt-Ends, Left, with_temporary, with_journal, Torn, remove_temporary-Ends, create-Ends,
  staged-Ends,
}
use agentops_open_course.Prelude.{
  ◌≡◌, ◌≢◌, refl, true, false, List, [], Option, none, some, ◌⊎◌, inl, inr,
}
use agentops_open_course.State.Disk.{
  RestoreJournal, JournalFile, unreadable, Event, Problem, attempt, fsync_dir, return, ◌>>=◌, ◌>>◌,
}
use agentops_open_course.State.Journal.{
  create_temporary, write_and_sync, publish_temporary, remove_temporary, Written,
  write_restore_journal, write_created,
}
use agentops_open_course.State.Logic.{
  View, machine, Ends, ends_returned, bind-Ends, then-Ends, fsync-Ends, later-Ends, mono-Ends,
  at-Ends,
}

pub data Wrote (v : View) (j : RestoreJournal) (s : List Event) : Written → View → Type 0 where
  wrote : Wrote v j s (record { published = true; err = none }) (with_journal v j)
  unflushed :
      (e : Problem)
      → s ≢ []
      → Wrote v j s (record { published = true; err = some e }) (with_journal v j)
  unwritten :
      (e : Problem) (file : Option JournalFile)
      → s ≢ []
      → Left j file
      → Wrote v j s (record { published = false; err = some e }) (with_temporary v file)

module _ (v : View) (j : RestoreJournal) where
  -- After a write that has failed: the temporary is removed, or a fault has kept it.
  failed-Ends :
      (e : Problem) (file : Option JournalFile) (s s' : List Event)
      → s ≢ []
      → Left j file
      → Ends j.transaction
          (λ w x. Wrote v j s w x)
          (Torn v j)
          s
          ((do
            removed ← attempt (remove_temporary j.transaction)
            return (record { published = false; err = some e }))
            (machine j.transaction (with_temporary v file))
            s')
  failed-Ends e file s s' n l =
      later-Ends (λ h. absurd (n h))
        (then-Ends (λ _. return (record { published = false; err = some e }))
          (attempt-Ends (remove_temporary j.transaction)
            (machine j.transaction (with_temporary v file))
            (mono-Ends (λ a x p. p) (λ x p. (file, p, l))
              (remove_temporary-Ends j.transaction v file s')))
          λ r x s'' p. elim p [
            | inl (_, h) ↦ at-Ends (return (record { published = false; err = some e })) h (
                ends_returned (record { published = false; err = some e }) (with_temporary v none)
                  s'' (λ i. i) (unwritten e none n (inl refl)))
            | inr (_, _, _, (f, h, k)) ↦
                at-Ends (return (record { published = false; err = some e })) h (
                  ends_returned (record { published = false; err = some e }) (with_temporary v f)
                    s'' (λ i. i) (unwritten e f n k))
          ])

  -- After the rename: the flush is all that can fail.
  renamed-Ends :
      (s : List Event)
      → Ends j.transaction
          (λ w x. Wrote v j s w x)
          (λ x. x ≡ with_journal v j)
          s
          ((do synced ← attempt fsync_dir; return (record { published = true; err = synced }))
            (machine j.transaction (with_journal v j))
            s)
  renamed-Ends s =
      bind-Ends (λ synced. return (record { published = true; err = synced }))
        (attempt-Ends fsync_dir (machine j.transaction (with_journal v j))
          (fsync-Ends {Post = λ _ x. x ≡ with_journal v j} (with_journal v j) s refl refl))
        λ r x s' q p. elim p [
          | inl (none_eq, h) ↦ at-Ends (return (record { published = true; err = r })) h (
              rw none_eq (
                ends_returned (record { published = true; err = none }) (with_journal v j) s' q
                  wrote))
          | inr (e, some_eq, n, h) ↦ at-Ends (return (record { published = true; err = r })) h (
              rw some_eq (
                ends_returned (record { published = true; err = some e }) (with_journal v j) s' q
                  (unflushed e n)))
        ]

  -- What a crash may leave of a write.
  abbrev Half : View → Type 0
  Half x = Torn v j x ⊎ (x ≡ with_journal v j)

  Wrote-later :
      (s s' : List Event) (w : Written) (x : View)
      → (s ≡ [] → s' ≡ [])
      → Wrote v j s' w x
      → Wrote v j s w x
  Wrote-later s s' w x q wrote = wrote
  Wrote-later s s' w x q (unflushed e n) = unflushed e (λ h. n (q h))
  Wrote-later s s' w x q (unwritten e f n l) = unwritten e f (λ h. n (q h)) l

  write_created-Ends :
      (s : List Event)
      → Ends j.transaction
          (λ w x. Wrote v j s w x)
          Half
          s
          (write_created j (machine j.transaction (with_temporary v (some unreadable))) s)
  unfolding write_created
  write_created-Ends s =
      bind-Ends
        (λ staged. elim staged [
          | some e ↦ do
            removed ← attempt (remove_temporary j.transaction)
            return (record { published = false; err = some e })
          | none ↦ do synced ← attempt fsync_dir; return (record { published = true; err = synced })
        ])
        (mono-Ends (λ a x p. p) (λ x p. inl p)
          (attempt-Ends (do write_and_sync j; fsync_dir; publish_temporary j.transaction)
            (machine j.transaction (with_temporary v (some unreadable))) (staged-Ends v j s)))
        λ r x s' q p. elim p [
          | inl (none_eq, h) ↦
              rw (none_eq, h)
                (later-Ends q
                  (mono-Ends (λ w y i. Wrote-later s s' w y q i) (λ y i. inr i) (renamed-Ends s')))
          | inr (e, some_eq, n, (f, h, k)) ↦
              rw (some_eq, h) (mono-Ends (λ w y i. i) (λ y i. inl i) (failed-Ends e f s s' n k))
        ]

  -- A journal is written, or not, or written with a flush that has failed; only a fault keeps it from
  -- being written.
  pub write_restore_journal-Ends :
      {Bad : View → Type 0} (s : List Event)
      → ((file : Option JournalFile) → Left j file → Bad (with_temporary v file))
      → Bad (with_journal v j)
      → Ends j.transaction
          (λ w x. Wrote v j s w x)
          Bad
          s
          (write_restore_journal j (machine j.transaction (with_temporary v none)) s)
  unfolding write_restore_journal
  write_restore_journal-Ends {Bad} s left done =
      mono-Ends (λ w x p. p) (λ x p. elim p [ inl (f, h, k) ↦ rw h (left f k) | inr h ↦ rw h done ])
        (bind-Ends
          (λ created. elim created [
            | some e ↦ return (record { published = false; err = some e })
            | none ↦ write_created j
          ])
          (mono-Ends {Worse = Half} (λ a x p. p) (λ x p. inl p)
            (attempt-Ends (create_temporary j.transaction)
              (machine j.transaction (with_temporary v none))
              (mono-Ends {Worse = λ x. Torn v j x} (λ a x p. p) (λ x p. p) (create-Ends v j s))))
          λ r x s' q p. elim p [
            | inl (none_eq, h) ↦
                rw (none_eq, h)
                  (later-Ends q (
                    mono-Ends (λ w y i. Wrote-later s s' w y q i) (λ y i. i)
                      (write_created-Ends s')))
            | inr (e, some_eq, n, (f, h, k)) ↦
                rw (some_eq, h)
                  (ends_returned (record { published = false; err = some e }) (with_temporary v f)
                    s' (λ i. absurd (n i)) (unwritten e f n k))
          ])
