-- ===== src/A2a/Store/Versions/Lost.antt =====
-- Which versions a write accepts, over a history of writes.
use agentops_open_course.Prelude.{
  eq_ℤ, eq_ℤ-true, ◌∙◌, ℕ, suc, ◌+◌, ◌≤◌, ◌<◌, ◌≡◌, ◌≢◌, arith, Bool-cases, List, [], Option, some,
  ℤ, pos, max_int64, length,
}
use agentops_open_course.A2a.Metadata.{Task}
use agentops_open_course.A2a.Tasks.{Tasks, World, Codec, Result, ok, tasks_affected}
use agentops_open_course.A2a.Store.{Text, true, is_current, version_missing, update_store}
use agentops_open_course.A2a.Store.Cases.{updated, Updates, update_cases}
use agentops_open_course.A2a.Store.Versions.{
  pos_part, ap, sym, subst, inr, inl, Write, updates, run, IsStore, version_of, inc-pos,
  select-version, update-version, apply-Grows, run-Grows,
}

is_current-eq :
    (prev stored : ℤ) → prev ≢ version_missing → is_current prev stored ≡ true → stored ≡ prev
is_current-eq prev stored m h = elim (Bool-cases (eq_ℤ prev version_missing)) [
  | inl e ↦ absurd (m (eq_ℤ-true prev version_missing e))
  | inr e ↦ eq_ℤ-true stored prev (ground (arith, h, e))
]

-- A write of a task under a version of it steps that version.
update-steps :
    (codec : Codec) (n : ℕ) (w : World) (caller : Option Text) (task : Task) (prev v : ℤ)
    (db : Tasks) (r : Result ℤ × Tasks)
    → n < max_int64
    → IsStore n db
    → Updates codec w caller (some task) prev db r
    → r.0 ≡ ok v
    → prev ≢ version_missing
    → (prev ≡ pos (version_of task.id db)) × (suc (version_of task.id db) ≤ version_of task.id r.1)
update-steps codec n w caller task prev v db r b s (Updates.refused e) k m = absurd (cc)
update-steps codec n w caller task prev v db r b s (updated t owner encoded row (a, _, _) h c one) k
      m =
    let same : t ≡ task = cc in
    let (e, le) = select-version n t.id owner row db s h in
    let p : row.version ≡ prev = is_current-eq prev row.version m c in
    let one' : tasks_affected t.id owner (pos (version_of t.id db)) db ≡ 1 =
      subst (λ x. tasks_affected t.id owner x db ≡ 1) e one in
    rw (sym same) (
      sym p ∙ e,
      rw
          (
            e,
            inc-pos (version_of t.id db) n le b,
            update-version n w t owner encoded (version_of t.id db) db s one',
          )
          (omega arith),
    )

-- When a write under the version that its caller has seen is accepted, no later write of the same
-- task under that version is: whatever writes have been made before and between the two, by whom,
-- and with which failures, as long as they are fewer than 2^63 - 1 in all.
pub no_lost_update :
    (codec : Codec) (before between : List (World × Write)) (w w' : World)
    (caller caller' : Option Text) (task task' : Task) (prev v v' : ℤ)
    → prev ≢ version_missing
    → task'.id ≡ task.id
    → length before + 1 + length between < max_int64
    → (update_store codec w caller (some task) prev (run codec before [])).0 ≡ ok v
    → (update_store codec w' caller' (some task') prev (
        run codec between (update_store codec w caller (some task) prev (run codec before [])).1)).0
      ≢ ok v'
no_lost_update codec before between w w' caller caller' task task' prev v v' m same le h h' =
    let n = length before in
    let db = run codec before [] in
    let (s, _) = run-Grows codec 0 before [] (omega (arith, le)) tt in
    let s0 : IsStore n db = subst (λ k. IsStore k db) (omega arith) s in
    let first = update_cases codec w caller (some task) prev db in
    let db1 = (update_store codec w caller (some task) prev db).1 in
    let (s1, _) =
      apply-Grows codec n w (updates caller (some task) prev) db (omega (arith, le)) s0 in
    let (e, up) = update-steps codec n w caller task prev v db _ (omega (arith, le)) s0 first h m in
    let (s2, grows) = run-Grows codec (suc n) between db1 (omega (arith, le)) s1 in
    let db2 = run codec between db1 in
    let (e', _) =
      update-steps codec (suc n + length between) w' caller' task' prev v' db2 _ (omega (arith, le))
        s2 (update_cases codec w' caller' (some task') prev db2) h' m in
    let g = grows task.id in
    let eq : version_of task.id db2 ≡ version_of task.id db =
      ap pos_part (subst (λ x. pos (version_of x db2) ≡ prev) same (sym e') ∙ e) in
    omega (arith, up, g, eq)
