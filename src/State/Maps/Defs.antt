-- ===== src/State/Maps/Defs.antt =====
-- A directory's entries: a list by name, in the order in which `os.ReadDir` lists them.
use agentops_open_course.Prelude.{
  ◌≡◌, true, List, [], ◌∷◌, Option, none, some, if◌then◌else◌, Text, text_eq, text_lt,
}

abbrev pub Map {ℓ} : Type ℓ → Type ℓ
Map V = List (Text × V)

module _ {ℓ} {V : Type ℓ} where
  unfoldable pub lookup : Text → Map V → Option V
  lookup k [] = none
  lookup k ((j, v) ∷ m) = if text_eq k j then some v else lookup k m

  unfoldable pub put : Text → V → Map V → Map V
  put k v [] = (k, v) ∷ []
  put k v ((j, w) ∷ m) =
      let later = put k v m in
      if text_eq k j
      then (k, v) ∷ m
      else if text_lt k j
      then (k, v) ∷ (j, w) ∷ m
      else (j, w) ∷ later

  unfoldable pub erase : Text → Map V → Map V
  erase k [] = []
  erase k ((j, v) ∷ m) = let rest = erase k m in if text_eq k j then rest else (j, v) ∷ rest

  -- The entry, if any, of the one key.
  abbrev pub sole : Text → Option V → Map V
  sole k none = []
  sole k (some v) = (k, v) ∷ []

  -- Every key comes after `k`.
  abbrev pub Above : Text → Map V → Type 0
  Above k [] = Unit {0}
  Above k ((j, v) ∷ m) = (text_lt k j ≡ true) × Above k m

  abbrev pub Sorted : Map V → Type 0
  Sorted [] = Unit {0}
  Sorted ((k, v) ∷ m) = Above k m × Sorted m
