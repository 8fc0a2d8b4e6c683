-- ===== src/State/Logic.antt =====
-- Proofs about programs over the state directory. Only one transaction has left a trace in the
-- directory: a view is what there is of it, and `Ends` says how a program ends from there.
pub mod Places
pub mod Removal
pub mod Temporaries
pub mod Journals
use agentops_open_course.Prelude.{
  ◌≡◌, ◌≢◌, refl, sym, ap, ◌∙◌, subst, Bool, true, false, List, [], ◌∷◌, Option, none, some, Text,
  arith,
}
use agentops_open_course.State.Maps.{
  Map, lookup, put, erase, sole, lookup-sole, put-sole, erase-sole,
}
use agentops_open_course.State.Disk.{
  Files, RestoreJournal, JournalFile, Machine, Event, proceeds, fails, crashes, Problem, io_failed,
  Outcome, returned, raised, crashed, M, after, ◌>>=◌, ◌>>◌, return, io, attempt, Place, in_live,
  in_staging, in_quarantine, read_place, write_place, drop_place, fsync_dir, make_directory,
  rename_file, move_file, remove_file, remove_all,
}

pub record View : Type 0 where
  pub live : Files
  pub staging : Option Files
  pub quarantine : Option Files
  pub temporary : Option JournalFile
  pub journal : Option JournalFile
  pub held : Option RestoreJournal

abbrev pub machine : Text → View → Machine
machine t v = record {
  live = v.live;
  staging = sole t v.staging;
  quarantine = sole t v.quarantine;
  temporary = sole t v.temporary;
  journal = v.journal;
  held = v.held;
}

-- A run from the schedule `s` returns with `Post`, or is stopped with `Bad`, which only a fault of
-- the schedule does.
pub data Ends (t : Text) {A : Type 0} (Post : A → View → Type 0) (Bad : View → Type 0)
    (s : List Event) : Outcome A → Type 0 where
  ends_returned :
      (a : A) (v : View) (s' : List Event)
      → (s ≡ [] → s' ≡ [])
      → Post a v
      → Ends t Post Bad s (returned a (machine t v) s')
  ends_raised :
      (e : Problem) (v : View) (s' : List Event)
      → s ≢ []
      → Bad v
      → Ends t Post Bad s (raised e (machine t v) s')
  ends_crashed : (v : View) → s ≢ [] → Bad v → Ends t Post Bad s (crashed (machine t v))

module _ {t : Text} {A B : Type 0} {Post : A → View → Type 0} {Next : B → View → Type 0}
    {Bad : View → Type 0} where
  pub bind-Ends :
      {s : List Event} {o : Outcome A} (f : A → M B)
      → Ends t Post Bad s o
      → ((a : A) (v : View) (s' : List Event)
          → (s ≡ [] → s' ≡ [])
          → Post a v
          → Ends t Next Bad s (f a (machine t v) s'))
      → Ends t Next Bad s (after o f)
  bind-Ends f (ends_returned a v s' q p) k = k a v s' q p
  bind-Ends f (ends_raised e v s' q p) k = ends_raised e v s' q p
  bind-Ends f (ends_crashed v q p) k = ends_crashed v q p

module _ {t : Text} {A : Type 0} {Post : A → View → Type 0} {Bad : View → Type 0} where
  pub later-Ends :
      {s s' : List Event} {o : Outcome A}
      → (s ≡ [] → s' ≡ [])
      → Ends t Post Bad s' o
      → Ends t Post Bad s o
  later-Ends g (ends_returned a v s' q p) = ends_returned a v s' (λ h. q (g h)) p
  later-Ends g (ends_raised e v s' q p) = ends_raised e v s' (λ h. q (g h)) p
  later-Ends g (ends_crashed v q p) = ends_crashed v (λ h. q (g h)) p

  pub mono-Ends :
      {More : A → View → Type 0} {Worse : View → Type 0} {s : List Event} {o : Outcome A}
      → ((a : A) (v : View) → Post a v → More a v)
      → ((v : View) → Bad v → Worse v)
      → Ends t Post Bad s o
      → Ends t More Worse s o
  mono-Ends f g (ends_returned a v s' q p) = ends_returned a v s' q (f a v p)
  mono-Ends f g (ends_raised e v s' q p) = ends_raised e v s' q (g v p)
  mono-Ends f g (ends_crashed v q p) = ends_crashed v q (g v p)

module _ {t : Text} {A B : Type 0} {Post : A → View → Type 0} {Next : B → View → Type 0}
    {Bad : View → Type 0} where
  -- The rest of the program, from the schedule that is left.
  pub then-Ends :
      {s : List Event} {o : Outcome A} (f : A → M B)
      → Ends t Post Bad s o
      → ((a : A) (v : View) (s' : List Event)
          → Post a v
          → Ends t Next Bad s' (f a (machine t v) s'))
      → Ends t Next Bad s (after o f)
  then-Ends f e k = bind-Ends f e (λ a v s' q p. later-Ends q (k a v s' p))

-- A run from a view that is known.
pub at-Ends :
    {t : Text} {A : Type 0} {Post : A → View → Type 0} {Bad : View → Type 0} {s s' : List Event}
    (p : M A) {x y : View}
    → x ≡ y
    → Ends t Post Bad s (p (machine t y) s')
    → Ends t Post Bad s (p (machine t x) s')
at-Ends {t} {A} {Post} {Bad} {s} {s'} p e h =
    subst (λ z. Ends t Post Bad s (p (machine t z) s')) (sym e) h

-- A change leads to `Post`, or is not made.
pub io-Ends :
    {t : Text} {Post : Unit {0} → View → Type 0} {Bad : View → Type 0} (f : Machine → Machine)
    (v w : View) (s : List Event)
    → f (machine t v) ≡ machine t w
    → Bad v
    → Post tt w
    → Ends t Post Bad s (io f (machine t v) s)
unfolding io
io-Ends {t} {Post} {Bad} f v w [] e b p =
    subst (λ m. Ends t Post Bad [] (returned tt m [])) (sym e) (ends_returned tt w [] (λ h. h) p)
io-Ends {t} {Post} {Bad} f v w (proceeds ∷ s) e b p =
    subst (λ m. Ends t Post Bad (proceeds ∷ s) (returned tt m s)) (sym e)
      (ends_returned tt w s (λ h. absurd (cc)) p)
io-Ends f v w (fails ∷ s) e b p = ends_raised io_failed v s (λ h. cc) b
io-Ends f v w (crashes ∷ s) e b p = ends_crashed v (λ h. cc) b

pub fsync-Ends :
    {t : Text} {Post : Unit {0} → View → Type 0} {Bad : View → Type 0} (v : View) (s : List Event)
    → Bad v
    → Post tt v
    → Ends t Post Bad s (fsync_dir (machine t v) s)
unfolding fsync_dir
fsync-Ends v s b p = io-Ends (λ m. m) v v s refl b p

-- The rest of the program, after a part that leads to one view.
pub step-Ends :
    {t : Text} {B : Type 0} {Next : B → View → Type 0} {Bad : View → Type 0} {s : List Event}
    {o : Outcome (Unit {0})} {y : View} (f : Unit {0} → M B)
    → Ends t (λ _ w. w ≡ y) Bad s o
    → ((s' : List Event) → Ends t Next Bad s' (f tt (machine t y) s'))
    → Ends t Next Bad s (after o f)
step-Ends f h k = then-Ends f h (λ _ v s' e. at-Ends (f tt) e (k s'))
