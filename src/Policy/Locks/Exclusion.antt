-- ===== src/Policy/Locks/Exclusion.antt =====
-- The holders of a lock, and the entries of the registry, in the systems that are reached.
use agentops_open_course.Prelude.{
  ℕ, ◌<◌, ◌==◌, ==_iff, ◌≡◌, ◌≢◌, ◌↔◌, ◌⊎◌, ◌∙◌, inl, inr, refl, subst, sym, ap, arith, Bool, true,
  false, Bool-cases, Option-cases, Option, none, some,
}
use agentops_open_course.Policy.Locks.{
  SessionKey, update, Registry, lock_entry, unlock_entry, Place, outside, waiting, inside, leaving,
  Move, call, acquire, release, finish, System, pick, start, Reach, started, later,
}
use agentops_open_course.Policy.Locks.Counts.{reference, count-zero, count-some}
use agentops_open_course.Policy.Locks.Agreement.{
  Agrees, moved-Agrees, join-Agrees, create-Agrees, finish-Agrees, reference-refers,
}

abbrev entry_held : Place → Option ℕ
entry_held (inside k e) = some e
entry_held _ = none

-- The mutex of an entry is locked while a callback is inside, and at most one is.
record Excludes (held : ℕ → Bool) (place : ℕ → Place) : Type 0 where
  locked : (i e : ℕ) → entry_held (place i) ≡ some e → held e ≡ true
  alone : (i j e : ℕ) → entry_held (place i) ≡ some e → entry_held (place j) ≡ some e → i ≡ j

reference-held :
    (p : Place) (e : ℕ) → entry_held p ≡ some e → (k : SessionKey) × (reference p ≡ some (k, e))
reference-held outside e h = absurd (cc)
reference-held (waiting k e') e h = absurd (cc)
reference-held (inside k e') e h = (k, cc)
reference-held (leaving k e') e h = absurd (cc)

module _ (held : ℕ → Bool) (place : ℕ → Place) (i : ℕ) (x : Excludes held place) where
  held-cases :
      (q : Place) (j e : ℕ)
      → entry_held (update place i q j) ≡ some e
      → ((j ≡ i) × (entry_held q ≡ some e)) ⊎ ((j ≢ i) × (entry_held (place j) ≡ some e))
  held-cases q j e h = elim (Bool-cases (j == i)) [
    | inl s ↦ inl ((==_iff j i).0 s, rw s at h)
    | inr s ↦ inr ((λ y. ground (arith, s, y)), rw s at h)
  ]

  -- A step of a callback that is not inside afterwards, which leaves the mutexes that are held.
  quiet-Excludes :
      (held' : ℕ → Bool) (q : Place)
      → entry_held q ≡ none
      → ((j e : ℕ) → j ≢ i → entry_held (place j) ≡ some e → held' e ≡ held e)
      → Excludes held' (update place i q)
  quiet-Excludes held' q none_held same = record {
    locked = λ j e h. elim (held-cases q j e h) [
      | inl (s, y) ↦ absurd (cc)
      | inr (s, y) ↦ same j e s y ∙ x.locked j e y
    ];
    alone = λ j j' e h h'. elim (held-cases q j e h) [
      | inl (s, y) ↦ absurd (cc)
      | inr (s, y) ↦ elim (held-cases q j' e h') [
        | inl (s', y') ↦ absurd (cc)
        | inr (s', y') ↦ x.alone j j' e y y'
      ]
    ];
  }

  acquire-Excludes :
      (key : SessionKey) (e : ℕ)
      → held e ≡ false
      → Excludes (update held e true) (update place i (inside key e))
  acquire-Excludes key e free =
      let other : (j e' : ℕ) → entry_held (place j) ≡ some e' → e' ≢ e =
        λ j e' y s. absurd (ground (arith, x.locked j e' y, free, ap held s)) in
      record {
        locked = λ j e' h. elim (held-cases (inside key e) j e' h) [
          | inl (s, y) ↦ let t : e ≡ e' = cc in ground (arith, t)
          | inr (s, y) ↦ ground (arith, x.locked j e' y)
        ];
        alone = λ j j' e' h h'. elim (held-cases (inside key e) j e' h) [
          | inl (s, y) ↦ elim (held-cases (inside key e) j' e' h') [
            | inl (s', y') ↦ s ∙ sym s'
            | inr (s', y') ↦ let t : e' ≡ e = cc in absurd (other j' e' y' t)
          ]
          | inr (s, y) ↦ elim (held-cases (inside key e) j' e' h') [
            | inl (s', y') ↦ let t : e' ≡ e = cc in absurd (other j e' y t)
            | inr (s', y') ↦ x.alone j j' e' y y'
          ]
        ];
      }

  release-Excludes :
      (key : SessionKey) (e : ℕ)
      → place i ≡ inside key e
      → Excludes (update held e false) (update place i (leaving key e))
  release-Excludes key e p = quiet-Excludes (update held e false) (leaving key e) refl (λ j e' n y.
      elim (Bool-cases (e' == e)) [
        | inl s ↦
            let t : e' ≡ e = (==_iff e' e).0 s in absurd (n (x.alone j i e' y (rw (p, t) refl)))
        | inr s ↦ rw s refl
      ])

-- What holds of every system that is reached.
abbrev IsConsistent : ℕ → System → Type 0
IsConsistent n s =
    Agrees n s.registry.locks s.registry.refs s.registry.next s.place
    × Excludes s.registry.held s.place

move-IsConsistent :
    (n : ℕ) (s : System) (i : ℕ) (p q : Place) (r : Registry)
    → i < n
    → s.place i ≡ p
    → IsConsistent n s
    → Move s.registry p r q
    → IsConsistent n (record { registry = r; place = update s.place i q })
unfolding lock_entry unlock_entry
move-IsConsistent n s i p q r b e (a, x) (call key) = elim (Option-cases (s.registry.locks key)) [
  | inl absent ↦
      rw (lock_entry, absent)
        (
          create-Agrees n _ _ _ s.place i b a key e absent,
          quiet-Excludes s.registry.held s.place i x (update s.registry.held s.registry.next false)
              (waiting key s.registry.next) refl
              (λ j e' m y.
                let (k, refer) = reference-held (s.place j) e' y in
                let l = a.allocated k e' (a.registered j k e' refer) in ground (arith, l)),
        )
  | inr (entry, here) ↦
      rw (lock_entry, here)
        (
          join-Agrees n _ _ _ s.place i b a key entry e here,
          quiet-Excludes s.registry.held s.place i x s.registry.held (waiting key entry) refl
              (λ j e' m y. refl),
        )
]
move-IsConsistent n s i p q r b e (a, x) (acquire {key} {entry} free) = (
  moved-Agrees n _ _ _ s.place i b a (inside key entry) (rw e refl),
  acquire-Excludes s.registry.held s.place i x key entry free,
)
move-IsConsistent n s i p q r b e (a, x) (release {key} {entry}) = (
  moved-Agrees n _ _ _ s.place i b a (leaving key entry) (rw e refl),
  release-Excludes s.registry.held s.place i x key entry e,
)
move-IsConsistent n s i p q r b e (a, x) (finish {key} {entry}) = (
  finish-Agrees n _ _ _ s.place i b a key entry e,
  quiet-Excludes s.registry.held s.place i x s.registry.held outside refl (λ j e' n y. refl),
)

start-IsConsistent : (n : ℕ) → IsConsistent n start
start-IsConsistent n = (
  record {
    registered = λ i k e h. absurd (cc);
    below = λ i k e h. absurd (cc);
    one_key = λ k k' e h h'. absurd (cc);
    allocated = λ k e h. absurd (cc);
    counted = λ e. sym (count-zero (λ i. outside) e n (λ i. refl));
    needed = λ k e h. absurd (cc);
  },
  record { locked = λ i e h. absurd (cc); alone = λ i j e h h'. absurd (cc) },
)

Reach-IsConsistent : (n : ℕ) (s : System) → Reach n s → IsConsistent n s
Reach-IsConsistent n s started = start-IsConsistent n
Reach-IsConsistent n t (later {s} before (pick i {p} {q} {r} b e move)) =
    move-IsConsistent n s i p q r b e (Reach-IsConsistent n s before) move

-- However the steps of the callbacks interleave, while one is inside the lock of a session no other is
-- inside the lock of that session, although entries are deleted and made anew meanwhile.
pub one_inside :
    (n : ℕ) (s : System) (i j : ℕ) (k : SessionKey) (e e' : ℕ)
    → Reach n s
    → s.place i ≡ inside k e
    → j ≢ i
    → s.place j ≢ inside k e'
one_inside n s i j k e e' reach here other there =
    let (a, x) = Reach-IsConsistent n s reach in
    let l : s.registry.locks k ≡ some e = a.registered i k e (rw here refl) in
    let l' : s.registry.locks k ≡ some e' = a.registered j k e' (rw there refl) in
    let t : e' ≡ e = cc in other (x.alone j i e (rw (there, t) refl) (rw here refl))

-- However the steps of the callbacks interleave, the registry has no entry for a session exactly when no
-- callback waits for its lock, holds it, or has yet to finish with it.
pub entry_iff :
    (n : ℕ) (s : System) (k : SessionKey)
    → Reach n s
    → (s.registry.locks k ≡ none) ↔ ((i e : ℕ) → reference (s.place i) ≢ some (k, e))
entry_iff n s k reach =
    let (a, _) = Reach-IsConsistent n s reach in
    (
      (λ gone i e h. let l = a.registered i k e h in cc),
      λ idle. elim (Option-cases (s.registry.locks k)) [
        | inl gone ↦ gone
        | inr (e, l) ↦
            let (i, r) = count-some s.place e n (omega (arith, a.counted e, a.needed k e l)) in
            let (k', h) = reference-refers (s.place i) e r in
            let same : k' ≡ k = a.one_key k' k e (a.registered i k' e h) l in
            absurd (idle i e (subst (λ t. reference (s.place i) ≡ some (t, e)) same h))
      ],
    )
