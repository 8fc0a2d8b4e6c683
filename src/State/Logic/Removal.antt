-- ===== src/State/Logic/Removal.antt =====
-- The removal of a directory, entry by entry.
use agentops_open_course.Prelude.{
  ◌≡◌, refl, sym, ap, ◌∙◌, subst, List, [], ◌∷◌, Option, none, some, Text,
}
use agentops_open_course.State.Disk.{
  Files, Event, Place, in_live, in_staging, in_quarantine, write_place, drop_place, io,
  remove_entries, remove_all,
}
use agentops_open_course.State.Logic.{View, machine, Ends, ends_returned, then-Ends, io-Ends}
use agentops_open_course.State.Logic.Places.{
  Mine, seen, seen_with, seen_without, read_place_lem, drop_place_lem, write_place_lem,
}

seen_self : (p : Place) (fs : Files) (v : View) → seen p v ≡ some fs → seen_with p fs v ≡ v
seen_self in_live fs v e = let h : v.live ≡ fs = cc in ap (λ x. record v { live = x }) (sym h)
seen_self (in_staging i) fs v e = ap (λ x. record v { staging = x }) (sym e)
seen_self (in_quarantine i) fs v e = ap (λ x. record v { quarantine = x }) (sym e)

seen_twice :
    (p : Place) (fs gs : Files) (v : View) → seen_with p fs (seen_with p gs v) ≡ seen_with p fs v
seen_twice in_live fs gs v = refl
seen_twice (in_staging i) fs gs v = refl
seen_twice (in_quarantine i) fs gs v = refl

without_with :
    (p : Place) (fs : Files) (v : View) → seen_without p (seen_with p fs v) ≡ seen_without p v
without_with in_live fs v = refl
without_with (in_staging i) fs v = refl
without_with (in_quarantine i) fs v = refl

-- `Keep` holds of what is left of the entries, and all that is left may be reported.
module _ {t : Text} {Bad : View → Type 0} (Keep : Files → Type 0)
    (tail : (name c : Text) (fs : Files) → Keep ((name, c) ∷ fs) → Keep fs) (p : Place)
    (mine : Mine t p) (v : View) (bad : (fs : Files) → Keep fs → Bad (seen_with p fs v)) where
  remove_entries-Ends :
      (fs : Files) (s : List Event)
      → Keep fs
      → Ends t
          (λ _ w. w ≡ seen_with p [] v)
          Bad
          s
          (remove_entries p fs (machine t (seen_with p fs v)) s)
  unfolding remove_entries
  remove_entries-Ends [] s k = ends_returned tt (seen_with p [] v) s (λ h. h) refl
  remove_entries-Ends ((name, c) ∷ fs) s k =
      then-Ends (λ _. remove_entries p fs)
        (io-Ends (write_place p fs) (seen_with p ((name, c) ∷ fs) v) (seen_with p fs v) s
          (write_place_lem t p fs (seen_with p ((name, c) ∷ fs) v) mine
            ∙ ap (machine t) (seen_twice p fs ((name, c) ∷ fs) v))
          (bad ((name, c) ∷ fs) k) refl)
        λ a w s' e.
          subst
            (λ x.
              Ends t (λ _ w. w ≡ seen_with p [] v) Bad s' (remove_entries p fs (machine t x) s'))
            (sym e) (remove_entries-Ends fs s' (tail name c fs k))

  -- The directory is gone in the end, if there was one, and nothing else has changed.
  pub remove_all-Ends :
      {Post : View → Type 0} (s : List Event)
      → ((fs : Files) → seen p v ≡ some fs → Keep fs)
      → Keep []
      → (seen p v ≡ none → Post v)
      → Post (seen_without p v)
      → Ends t (λ _. Post) Bad s (remove_all p (machine t v) s)
  unfolding remove_all
  remove_all-Ends {Post} s k k0 absent post = go (seen p v) refl
    where
      go :
          (o : Option Files)
          → seen p v ≡ o
          → Ends t (λ _. Post) Bad s (remove_all p (machine t v) s)
      go none e =
          rw (read_place_lem t p v mine ∙ e, remove_all) (ends_returned tt v s (λ h. h) (absent e))
      go (some fs) e =
          rw (read_place_lem t p v mine ∙ e, remove_all)
            (then-Ends (λ _. io (drop_place p))
              (subst
                (λ x.
                  Ends t (λ _ w. w ≡ seen_with p [] v) Bad s (remove_entries p fs (machine t x) s))
                (seen_self p fs v e) (remove_entries-Ends fs s (k fs e)))
              λ a w s' h.
                subst (λ x. Ends t (λ _. Post) Bad s' (io (drop_place p) (machine t x) s')) (sym h)
                  (io-Ends (drop_place p) (seen_with p [] v) (seen_without p v) s'
                    (drop_place_lem t p (seen_with p [] v) mine
                      ∙ ap (machine t) (without_with p [] v))
                    (bad [] k0) post))
