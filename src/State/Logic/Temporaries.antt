-- ===== src/State/Logic/Temporaries.antt =====
-- The temporary of a journal, on a view.
use agentops_open_course.Prelude.{
  ◌≡◌, ◌≢◌, refl, ap, List, [], Option, none, some, Text, ◌⊎◌, inl, inr,
}
use agentops_open_course.State.Maps.{lookup, put, erase, lookup-sole, put-sole, erase-sole}
use agentops_open_course.State.Disk.{
  RestoreJournal, JournalFile, document, unreadable, Machine, Event, Problem, Outcome, M, after,
  attempt, fsync_dir, ◌>>◌,
}
use agentops_open_course.State.Journal.{
  create_temporary, write_and_sync, publish_temporary, remove_temporary,
}
use agentops_open_course.State.Logic.{
  View, machine, Ends, ends_returned, ends_raised, ends_crashed, then-Ends, io-Ends, fsync-Ends,
  mono-Ends, at-Ends,
}

-- What an attempt comes to: the program's end, or an error that a fault has caused.
pub attempt-Ends :
    {t : Text} {Post : Unit {0} → View → Type 0} {Bad : View → Type 0} {s : List Event}
    (p : M (Unit {0})) (m : Machine)
    → Ends t Post Bad s (p m s)
    → Ends t
        (λ r v. ((r ≡ none) × Post tt v) ⊎ ((e : Problem) × (r ≡ some e) × (s ≢ []) × Bad v))
        Bad
        s
        (attempt p m s)
unfolding attempt
attempt-Ends {t} {Post} {Bad} {s} p m h = go (p m s) h
  where
    go :
        (o : Outcome (Unit {0}))
        → Ends t Post Bad s o
        → Ends t
            (λ r v. ((r ≡ none) × Post tt v) ⊎ ((e : Problem) × (r ≡ some e) × (s ≢ []) × Bad v))
            Bad
            s
            (attempt (λ m' s'. o) m s)
    go o (ends_returned a v s' q x) = ends_returned none v s' q (inl (refl, x))
    go o (ends_raised e v s' q x) =
        ends_returned (some e) v s' (λ i. absurd (q i)) (inr (e, refl, q, x))
    go o (ends_crashed v q x) = ends_crashed v q x

-- What the temporary of a journal may hold after a write that has failed.
abbrev pub Left : RestoreJournal → Option JournalFile → Type 0
Left j file = (file ≡ none) ⊎ ((file ≡ some unreadable) ⊎ (file ≡ some (document j)))

abbrev pub with_temporary : View → Option JournalFile → View
with_temporary v file = record v { temporary = file }

abbrev pub with_journal : View → RestoreJournal → View
with_journal v j = record v { temporary = none; journal = some (document j) }

-- The temporary is as some step of the write leaves it.
abbrev pub Torn : View → RestoreJournal → View → Type 0
Torn v j x = (file : Option JournalFile) × (x ≡ with_temporary v file) × Left j file

-- Whatever the temporary holds, it is gone, or a fault has left it.
pub remove_temporary-Ends :
    (t : Text) (v : View) (file : Option JournalFile) (s : List Event)
    → Ends t
        (λ _ x. x ≡ with_temporary v none)
        (λ x. x ≡ with_temporary v file)
        s
        (remove_temporary t (machine t (with_temporary v file)) s)
unfolding remove_temporary lookup
remove_temporary-Ends t v none s = ends_returned tt (with_temporary v none) s (λ h. h) refl
remove_temporary-Ends t v (some f) s =
    rw (lookup-sole t (some f), remove_temporary)
      (io-Ends (λ k. record k { temporary = erase t k.temporary }) (with_temporary v (some f))
        (with_temporary v none) s
        (ap (λ x. record (machine t v) { temporary = x }) (erase-sole t (some f))) refl refl)

module _ (v : View) (j : RestoreJournal) where
  pub create-Ends :
      (s : List Event)
      → Ends j.transaction
          (λ _ x. x ≡ with_temporary v (some unreadable))
          (Torn v j)
          s
          (create_temporary j.transaction (machine j.transaction (with_temporary v none)) s)
  unfolding create_temporary lookup put
  create-Ends s =
      io-Ends (λ k. record k { temporary = put j.transaction unreadable k.temporary })
        (with_temporary v none) (with_temporary v (some unreadable)) s refl (none, refl, inl refl)
        refl

  fill-Ends :
      (s : List Event)
      → Ends j.transaction
          (λ _ x. x ≡ with_temporary v (some (document j)))
          (Torn v j)
          s
          (write_and_sync j (machine j.transaction (with_temporary v (some unreadable))) s)
  unfolding write_and_sync
  fill-Ends s =
      io-Ends (λ k. record k { temporary = put j.transaction (document j) k.temporary })
        (with_temporary v (some unreadable)) (with_temporary v (some (document j))) s
        (ap (λ x. record (machine j.transaction v) { temporary = x })
          (put-sole j.transaction (document j) (some unreadable)))
        (some unreadable, refl, inr (inl refl)) refl

  pub publish_temporary-Ends :
      (s : List Event)
      → Ends j.transaction
          (λ _ x. x ≡ with_journal v j)
          (λ x. x ≡ with_temporary v (some (document j)))
          s
          (publish_temporary j.transaction
            (machine j.transaction (with_temporary v (some (document j))))
            s)
  unfolding publish_temporary
  publish_temporary-Ends s =
      rw (lookup-sole j.transaction (some (document j)), publish_temporary)
        (io-Ends
          (λ k. record k {
            temporary = erase j.transaction k.temporary;
            journal = some (document j);
          })
          (with_temporary v (some (document j))) (with_journal v j) s
          (ap (λ x. record (machine j.transaction v) { temporary = x; journal = some (document j) })
            (erase-sole j.transaction (some (document j))))
          refl refl)

  pub staged-Ends :
      (s : List Event)
      → Ends j.transaction
          (λ _ x. x ≡ with_journal v j)
          (Torn v j)
          s
          ((do write_and_sync j; fsync_dir; publish_temporary j.transaction)
            (machine j.transaction (with_temporary v (some unreadable)))
            s)
  staged-Ends s =
      then-Ends (λ _ m s. after (fsync_dir m s) (λ _. publish_temporary j.transaction))
        (fill-Ends s)
        λ a x s' e.
          at-Ends (λ m s. after (fsync_dir m s) (λ _. publish_temporary j.transaction)) e
            (then-Ends (λ _. publish_temporary j.transaction)
              (fsync-Ends {Post = λ _ x. x ≡ with_temporary v (some (document j))}
                (with_temporary v (some (document j))) s' (some (document j), refl, inr (inr refl))
                refl)
              λ b y s'' h. at-Ends (publish_temporary j.transaction) h (
                mono-Ends (λ a z p. p) (λ z p. (some (document j), p, inr (inr refl)))
                  (publish_temporary-Ends s'')))
