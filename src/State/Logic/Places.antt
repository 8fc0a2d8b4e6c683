-- ===== src/State/Logic/Places.antt =====
-- The directories of a view, and the programs that change one file or one directory.
use agentops_open_course.Prelude.{◌≡◌, refl, ap, ◌∙◌, List, [], Option, none, some, Text}
use agentops_open_course.State.Maps.{lookup, put, erase, lookup-sole, put-sole, erase-sole}
use agentops_open_course.State.Disk.{
  Files, Event, Outcome, after, io, Place, in_live, in_staging, in_quarantine, read_place,
  write_place, drop_place, fsync_dir, make_directory, rename_file, move_file, remove_file,
}
use agentops_open_course.State.Logic.{View, machine, Ends, then-Ends, io-Ends, fsync-Ends}

-- A directory of the transaction.
abbrev pub Mine : Text → Place → Type 0
Mine t in_live = Unit {0}
Mine t (in_staging i) = i ≡ t
Mine t (in_quarantine i) = i ≡ t

abbrev pub seen : Place → View → Option Files
seen in_live v = some v.live
seen (in_staging i) v = v.staging
seen (in_quarantine i) v = v.quarantine

abbrev pub seen_with : Place → Files → View → View
seen_with in_live fs v = record v { live = fs }
seen_with (in_staging i) fs v = record v { staging = some fs }
seen_with (in_quarantine i) fs v = record v { quarantine = some fs }

abbrev pub seen_without : Place → View → View
seen_without in_live v = record v { live = [] }
seen_without (in_staging i) v = record v { staging = none }
seen_without (in_quarantine i) v = record v { quarantine = none }

module _ (t : Text) where
  pub read_place_lem : (p : Place) (v : View) → Mine t p → read_place p (machine t v) ≡ seen p v
  unfolding read_place
  read_place_lem in_live v m = refl
  read_place_lem (in_staging i) v m = rw m (lookup-sole t v.staging)
  read_place_lem (in_quarantine i) v m = rw m (lookup-sole t v.quarantine)

  pub write_place_lem :
      (p : Place) (fs : Files) (v : View)
      → Mine t p
      → write_place p fs (machine t v) ≡ machine t (seen_with p fs v)
  unfolding write_place
  write_place_lem in_live fs v m = refl
  write_place_lem (in_staging i) fs v m =
      rw m (ap (λ x. record (machine t v) { staging = x }) (put-sole t fs v.staging))
  write_place_lem (in_quarantine i) fs v m =
      rw m (ap (λ x. record (machine t v) { quarantine = x }) (put-sole t fs v.quarantine))

  pub drop_place_lem :
      (p : Place) (v : View) → Mine t p → drop_place p (machine t v) ≡ machine t (seen_without p v)
  unfolding drop_place
  drop_place_lem in_live v m = refl
  drop_place_lem (in_staging i) v m =
      rw m (ap (λ x. record (machine t v) { staging = x }) (erase-sole t v.staging))
  drop_place_lem (in_quarantine i) v m =
      rw m (ap (λ x. record (machine t v) { quarantine = x }) (erase-sole t v.quarantine))

module _ {t : Text} {Post : Unit {0} → View → Type 0} {Bad : View → Type 0} where
  pub write-Ends :
      (p : Place) (fs : Files) (v : View) (s : List Event)
      → Mine t p
      → Bad v
      → Post tt (seen_with p fs v)
      → Ends t Post Bad s (io (write_place p fs) (machine t v) s)
  write-Ends p fs v s m b q =
      io-Ends (write_place p fs) v (seen_with p fs v) s (write_place_lem t p fs v m) b q

  pub make_directory-Ends :
      (p : Place) (v : View) (s : List Event)
      → Mine t p
      → seen p v ≡ none
      → Bad v
      → Post tt (seen_with p [] v)
      → Ends t Post Bad s (make_directory p (machine t v) s)
  unfolding make_directory
  make_directory-Ends p v s m e b q =
      rw (read_place_lem t p v m ∙ e, make_directory) (write-Ends p [] v s m b q)

  pub rename_file-Ends :
      (from to : Place) (name c : Text) (fs gs : Files) (v : View) (s : List Event)
      → Mine t from
      → Mine t to
      → seen from v ≡ some fs
      → lookup name fs ≡ some c
      → seen to v ≡ some gs
      → Bad v
      → Post tt (seen_with to (put name c gs) (seen_with from (erase name fs) v))
      → Ends t Post Bad s (rename_file from to name (machine t v) s)
  unfolding rename_file
  rename_file-Ends from to name c fs gs v s mf mt ef ec et b q =
      rw (read_place_lem t from v mf ∙ ef, ec, read_place_lem t to v mt ∙ et, rename_file)
        (io-Ends (λ k. write_place to (put name c gs) (write_place from (erase name fs) k)) v
          (seen_with to (put name c gs) (seen_with from (erase name fs) v)) s
          (ap (write_place to (put name c gs)) (write_place_lem t from (erase name fs) v mf)
            ∙ write_place_lem t to (put name c gs) (seen_with from (erase name fs) v) mt)
          b q)

  pub remove_file-Ends :
      (p : Place) (name : Text) (fs : Files) (v : View) (s : List Event)
      → Mine t p
      → seen p v ≡ some fs
      → Bad v
      → Post tt (seen_with p (erase name fs) v)
      → Ends t Post Bad s (remove_file p name (machine t v) s)
  unfolding remove_file
  remove_file-Ends p name fs v s m e b q =
      rw (read_place_lem t p v m ∙ e, remove_file) (write-Ends p (erase name fs) v s m b q)

-- Two flushes after a change that leads to what may be reported.
pub flushed-Ends :
    {t : Text} {Post Bad : View → Type 0} {s : List Event} {o : Outcome (Unit {0})}
    → ((v : View) → Post v → Bad v)
    → Ends t (λ _. Post) Bad s o
    → Ends t (λ _. Post) Bad s (after o (λ _ m s. after (fsync_dir m s) (λ _. fsync_dir)))
flushed-Ends g e =
    then-Ends (λ _ m s. after (fsync_dir m s) (λ _. fsync_dir)) e
      (λ a v s p.
        then-Ends (λ _. fsync_dir) (fsync-Ends v s (g v p) p) (λ b w s q. fsync-Ends w s (g w q) q))

pub move_file-Ends :
    {t : Text} {Post Bad : View → Type 0} (from to : Place) (name c : Text) (fs gs : Files)
    (v : View) (s : List Event)
    → Mine t from
    → Mine t to
    → seen from v ≡ some fs
    → lookup name fs ≡ some c
    → seen to v ≡ some gs
    → ((w : View) → Post w → Bad w)
    → Bad v
    → Post (seen_with to (put name c gs) (seen_with from (erase name fs) v))
    → Ends t (λ _. Post) Bad s (move_file from to name (machine t v) s)
unfolding move_file
move_file-Ends from to name c fs gs v s mf mt ef ec et g b q =
    flushed-Ends g (rename_file-Ends from to name c fs gs v s mf mt ef ec et b q)
