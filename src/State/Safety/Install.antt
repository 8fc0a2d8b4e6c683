-- ===== src/State/Safety/Install.antt =====
-- A restore, once its journal has its name: the old generation to quarantine, the new one to its place.
use agentops_open_course.Prelude.{
  ◌≡◌, refl, sym, ap, ◌∙◌, subst, arith, ◌⊎◌, inl, inr, List, [], ◌∷◌, none, some, Text, All, true,
  text_eq, Bool-cases,
}
use agentops_open_course.State.Maps.{
  lookup, put, erase, Sorted, Sorted-eq, lookup_first, erase_first,
}
use agentops_open_course.State.Disk.{
  Files, Digest, prepared, Event, in_live, in_staging, in_quarantine,
}
use agentops_open_course.State.Restore.{
  is_database_name, database_files, quarantine_current_generation, publish_databases,
  publish_staged_databases,
}
use agentops_open_course.State.Logic.{View, machine, Ends, ends_returned, then-Ends, io-Ends}
use agentops_open_course.State.Logic.Places.{read_place_lem, move_file-Ends}
use agentops_open_course.State.Safety.Invariant.{Transaction, IsPrepared, entries_of, journal_at}
use agentops_open_course.State.Safety.Moves.{
  Halfway-quarantine, Halfway-publish, put_same, put_other, erase_same, erase_other, same_name,
}
use agentops_open_course.State.Safety.Cleanup.{Remains, Remains-tail}
use agentops_open_course.State.Safety.Unwind.{Publishing, owing}

module _ ⦃digest : Digest⦄ (x : Transaction) where
  -- The restore still owes the commit.
  pub record IsOwing (v : View) : Type 0 where
    pub is_prepared : IsPrepared x v
    pub held : v.held ≡ some (journal_at x prepared)

  pub IsOwing-Publishing : (v : View) → IsOwing v → Publishing x v
  IsOwing-Publishing v o = owing o.is_prepared o.held

  -- `current` is still to be quarantined, and nothing is published.
  pub record QuarantinesFrom (current : Files) (v : View) : Type 0 where
    pub owing : IsOwing v
    pub live : v.live ≡ current
    pub remains : Remains x.old_files current
    pub staging : v.staging ≡ some x.new_files

  pub quarantined-QuarantinesFrom :
      (name c : Text) (current : Files) (v : View)
      → lookup name x.old_files ≡ some c
      → QuarantinesFrom ((name, c) ∷ current) v
      → QuarantinesFrom current (record v {
        live = erase name v.live;
        quarantine = some (put name c (entries_of v.quarantine));
      })
  quarantined-QuarantinesFrom name c current v o p =
      let i = p.owing.is_prepared in
      record {
        owing = record {
          is_prepared = record {
            journal = i.journal;
            staging = i.staging;
            quarantine = refl;
            halfway =
                Halfway-quarantine x v.live (entries_of v.staging) (entries_of v.quarantine) name c
                  i.halfway o;
            complete = λ k. inl (ap (λ s. lookup k (entries_of s)) p.staging);
          };
          held = p.owing.held;
        };
        live = ap (erase name) p.live ∙ erase_first name c current (p.remains.0);
        remains = Remains-tail x.old_files name c current p.remains;
        staging = p.staging;
      }

  pub quarantine_current_generation-Ends :
      (current : Files) (v : View) (s : List Event)
      → QuarantinesFrom current v
      → Ends x.id
          (λ _. QuarantinesFrom [])
          (Publishing x)
          s
          (quarantine_current_generation x.id current (machine x.id v) s)
  unfolding quarantine_current_generation
  quarantine_current_generation-Ends [] v s p = ends_returned tt v s (λ i. i) p
  quarantine_current_generation-Ends ((name, c) ∷ current) v s p =
      let there : lookup name v.live ≡ some c =
        ap (lookup name) p.live ∙ lookup_first name c current in
      let old : lookup name x.old_files ≡ some c = elim (p.remains.1 name) [
        | inl gone ↦ absurd (ground (arith, gone, lookup_first name c current))
        | inr o ↦ sym o ∙ lookup_first name c current
      ] in
      then-Ends _
        (move_file-Ends {Post = QuarantinesFrom current} in_live (in_quarantine x.id) name c v.live
          (entries_of v.quarantine) v s tt refl refl there p.owing.is_prepared.quarantine
          (λ w q. IsOwing-Publishing w q.owing) (IsOwing-Publishing v p.owing)
          (quarantined-QuarantinesFrom name c current v old p))
        λ _ w s' q. quarantine_current_generation-Ends current w s' q

  -- `files` are still staged; the others of the new generation are live.
  pub record InstallsFrom (files : Files) (v : View) : Type 0 where
    pub owing : IsOwing v
    pub staging : v.staging ≡ some files
    pub quarantined : (k : Text) → lookup k (entries_of v.quarantine) ≡ lookup k x.old_files
    pub each :
        (k : Text)
        → ((lookup k v.live ≡ none) × (lookup k (entries_of v.staging) ≡ lookup k x.new_files))
          ⊎ ((lookup k v.live ≡ lookup k x.new_files) × (lookup k (entries_of v.staging) ≡ none))

  pub quarantined-InstallsFrom : (v : View) → QuarantinesFrom [] v → InstallsFrom x.new_files v
  unfolding lookup
  quarantined-InstallsFrom v p = record {
    owing = p.owing;
    staging = p.staging;
    quarantined = λ k. elim (p.owing.is_prepared.halfway.slots k) [
      | inl (q, l) ↦ q ∙ sym (empty k) ∙ l
      | inr (q, l) ↦ q
    ];
    each = λ k. inl (empty k, ap (λ s. lookup k (entries_of s)) p.staging);
  }
    where
      empty : (k : Text) → lookup k v.live ≡ none
      empty k = ap (lookup k) p.live

  pub installed-InstallsFrom :
      (name c : Text) (files : Files) (v : View)
      → lookup name x.new_files ≡ some c
      → InstallsFrom ((name, c) ∷ files) v
      → InstallsFrom files (record v {
        live = put name c v.live;
        staging = some (erase name (entries_of v.staging));
      })
  installed-InstallsFrom name c files v n p =
      let i = p.owing.is_prepared in
      let st = entries_of v.staging in
      let sorted : Sorted ((name, c) ∷ files) =
        subst (λ s. Sorted (entries_of s)) p.staging i.halfway.staging_sorted in
      let here : (k : Text)
          → text_eq k name ≡ true
          → lookup k (put name c v.live) ≡ lookup k x.new_files =
        λ k e. put_same k name c v.live e ∙ sym (same_name k name x.new_files e ∙ n) in
      record {
        owing = record {
          is_prepared = record {
            journal = i.journal;
            staging = refl;
            quarantine = i.quarantine;
            halfway =
                Halfway-publish x v.live st (entries_of v.quarantine) name c i.halfway n
                  (p.quarantined name);
            complete = λ k. elim (Bool-cases (text_eq k name)) [
              | inl e ↦ inr (here k e)
              | inr e ↦ rw (put_other k name c v.live e, erase_other k name st e) (i.complete k)
            ];
          };
          held = p.owing.held;
        };
        staging =
            ap (λ s. some (erase name (entries_of s))) p.staging
            ∙ ap some (erase_first name c files sorted);
        quarantined = p.quarantined;
        each = λ k. elim (Bool-cases (text_eq k name)) [
          | inl e ↦ inr (here k e, erase_same k name st e)
          | inr e ↦ rw (put_other k name c v.live e, erase_other k name st e) (p.each k)
        ];
      }

  pub publish_databases-Ends :
      (files : Files) (v : View) (s : List Event)
      → InstallsFrom files v
      → Ends x.id
          (λ _. InstallsFrom [])
          (Publishing x)
          s
          (publish_databases x.id files (machine x.id v) s)
  unfolding publish_databases
  publish_databases-Ends [] v s p = ends_returned tt v s (λ i. i) p
  publish_databases-Ends ((name, c) ∷ files) v s p =
      then-Ends _
        (io-Ends {Post = λ _. InstallsFrom ((name, c) ∷ files)} (λ m. m) v v s refl
          (IsOwing-Publishing v p.owing) p)
        λ _ w s1 q.
          let there : lookup name (entries_of w.staging) ≡ some c =
            ap (λ o. lookup name (entries_of o)) q.staging ∙ lookup_first name c files in
          let new : lookup name x.new_files ≡ some c = elim (q.each name) [
            | inl (l, n) ↦ sym n ∙ there
            | inr (l, gone) ↦ absurd (ground (arith, gone, there))
          ] in
          then-Ends _
            (move_file-Ends {Post = InstallsFrom files} (in_staging x.id) in_live name c
              (entries_of w.staging) w.live w s1 refl tt q.owing.is_prepared.staging there refl
              (λ y r. IsOwing-Publishing y r.owing) (IsOwing-Publishing w q.owing)
              (installed-InstallsFrom name c files w new q))
            λ _ y s2 r. publish_databases-Ends files y s2 r

  database_files_lem :
      (fs : Files) → All (λ f. is_database_name f.0 ≡ true) fs → database_files fs ≡ fs
  database_files_lem [] a = refl
  database_files_lem ((name, c) ∷ fs) (h, a) =
      rw h (ap (λ i. (name, c) ∷ i) (database_files_lem fs a))

  pub publish_staged_databases-Ends :
      (v : View) (s : List Event)
      → All (λ f. is_database_name f.0 ≡ true) x.new_files
      → InstallsFrom x.new_files v
      → Ends x.id
          (λ _. InstallsFrom [])
          (Publishing x)
          s
          (publish_staged_databases x.id (machine x.id v) s)
  unfolding publish_staged_databases
  publish_staged_databases-Ends v s a p =
      rw
        (
          read_place_lem x.id (in_staging x.id) v refl ∙ p.staging,
          publish_staged_databases,
          database_files_lem x.new_files a,
        )
        (publish_databases-Ends x.new_files v s p)

  pub installed_files : (v : View) → InstallsFrom [] v → v.live ≡ x.new_files
  unfolding lookup
  installed_files v p =
      Sorted-eq v.live x.new_files p.owing.is_prepared.halfway.live_sorted x.new_sorted λ k.
        elim (p.each k) [
          | inl (l, n) ↦ l ∙ sym (ap (λ o. lookup k (entries_of o)) p.staging) ∙ n
          | inr (l, n) ↦ l
        ]
