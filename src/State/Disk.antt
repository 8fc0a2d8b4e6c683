-- ===== src/State/Disk.antt =====
-- What a restore works on: the state directory, its transaction's residue and the faults of the file
-- system. A program is run on the directory and a schedule, which says for each change that it asks
-- for whether it is made, refused with an error, or not reached since the process dies. An empty
-- schedule makes every change. Each change is durable once made: the source flushes the directory
-- after each, and a flush may fail. Files are bytes; reads do not fail; an entry is of the kind, file
-- or directory, that this code makes under its name.
use agentops_open_course.Prelude.{
  ℕ, ◌==◌, Bool, false, ◌&&◌, List, [], ◌∷◌, Option, none, some, if◌then◌else◌, Text, text_eq,
  length,
}
use agentops_open_course.State.Maps.{Map, lookup, put, erase}

abbrev pub Files : Type 0
Files = Map Text

-- `fileEvidence` and `inventory`.
pub record FileEvidence : Type 0 where
  pub filename : Text
  pub sha256 : Text
  pub size_bytes : ℕ

abbrev pub Inventory : Type 0
Inventory = List FileEvidence

unfoldable pub find : Text → Inventory → Option FileEvidence
find name [] = none
find name (e ∷ inv) = if text_eq name e.filename then some e else find name inv

pub data RestorePhase : Type 0 where
  prepared rolling_back committed : RestorePhase

-- The names of the two directories are those of the transaction.
pub record RestoreJournal : Type 0 where
  pub transaction : Text
  pub phase : RestorePhase
  pub old : Inventory
  pub new : Inventory

-- What a file that should hold a journal holds.
pub data JournalFile : Type 0 where
  document : RestoreJournal → JournalFile
  unreadable : JournalFile

-- The state directory: the files of the live generation, the directories and journal temporaries of
-- transactions, by transaction, and the journal; and `held`, the variable of `publishRestore`
-- through which its deferred function sees the journal.
pub record Machine : Type 0 where
  pub live : Files
  pub staging : Map Files
  pub quarantine : Map Files
  pub temporary : Map JournalFile
  pub journal : Option JournalFile
  pub held : Option RestoreJournal

pub data Event : Type 0 where
  proceeds fails crashes : Event

pub data Problem : Type 0 where
  io_failed already_exists unreadable_journal no_initial_journal initial_not_prepared : Problem
  inexact_residue publication_began not_owned missing_directory unexplained_evidence : Problem
  unverified_evidence live_outside live_unmatched missing_old missing_new inventory_mismatch :
      Problem
  lost_old unexplained_replacement staged_changed : Problem

pub data Outcome {ℓ} (A : Type ℓ) : Type ℓ where
  returned : A → Machine → List Event → Outcome A
  raised : Problem → Machine → List Event → Outcome A
  crashed : Machine → Outcome A

abbrev pub M {ℓ} : Type ℓ → Type ℓ
M A = Machine → List Event → Outcome A

abbrev pub after {ℓ κ} : {A : Type ℓ} {B : Type κ} → Outcome A → (A → M B) → Outcome B
after (returned a m s) f = f a m s
after (raised e m s) f = raised e m s
after (crashed m) f = crashed m

infixl 5 ◌>>=◌ ◌>>◌
abbrev pub ◌>>=◌ {ℓ κ} : {A : Type ℓ} {B : Type κ} → M A → (A → M B) → M B
◌>>=◌ p f m s = after (p m s) f

abbrev pub ◌>>◌ {ℓ} : {B : Type ℓ} → M (Unit {0}) → M B → M B
◌>>◌ p q m s = after (p m s) (λ _. q)

abbrev pub return {ℓ} : {A : Type ℓ} → A → M A
return a m s = returned a m s

abbrev pub raise {ℓ} : {A : Type ℓ} → Problem → M A
raise e m s = raised e m s

abbrev pub gets {ℓ} : {A : Type ℓ} → (Machine → A) → M A
gets f m s = returned (f m) m s

-- A change of the file system.
unfoldable pub io : (Machine → Machine) → M (Unit {0})
io f m [] = returned tt (f m) []
io f m (proceeds ∷ s) = returned tt (f m) s
io f m (fails ∷ s) = raised io_failed m s
io f m (crashes ∷ s) = crashed m

-- `err := p()`, for code that goes on after an error.
abbrev caught : Outcome (Unit {0}) → Outcome (Option Problem)
caught (returned a m s) = returned none m s
caught (raised e m s) = returned (some e) m s
caught (crashed m) = crashed m

unfoldable pub attempt : M (Unit {0}) → M (Option Problem)
attempt p m s = caught (p m s)

abbrev pub raise_if : Option Problem → M (Unit {0})
raise_if none = return tt
raise_if (some e) = raise e

-- A check that has found `e`, or nothing.
abbrev pub demand : (Machine → Option Problem) → M (Unit {0})
demand check m s = raise_if (check m) m s

pub data Place : Type 0 where
  in_live : Place
  in_staging in_quarantine : Text → Place

unfoldable pub read_place : Place → Machine → Option Files
read_place in_live m = some m.live
read_place (in_staging t) m = lookup t m.staging
read_place (in_quarantine t) m = lookup t m.quarantine

unfoldable pub write_place : Place → Files → Machine → Machine
write_place in_live fs m = record m { live = fs }
write_place (in_staging t) fs m = record m { staging = put t fs m.staging }
write_place (in_quarantine t) fs m = record m { quarantine = put t fs m.quarantine }

-- The file of that name, if the directory is there and holds it.
abbrev pub file_in : Option Files → Text → Option Text
file_in none name = none
file_in (some fs) name = lookup name fs

unfoldable pub drop_place : Place → Machine → Machine
drop_place in_live m = record m { live = [] }
drop_place (in_staging t) m = record m { staging = erase t m.staging }
drop_place (in_quarantine t) m = record m { quarantine = erase t m.quarantine }

unfoldable pub fsync_dir : M (Unit {0})
unfolding io
fsync_dir = io (λ m. m)

-- `os.Mkdir`.
unfoldable pub make_directory : Place → M (Unit {0})
unfolding io read_place write_place
make_directory p m s = elim (read_place p m) [
  | none ↦ io (write_place p []) m s
  | some fs ↦ raised already_exists m s
]

-- `os.Rename` of one file from one directory to another.
unfoldable pub rename_file : Place → Place → Text → M (Unit {0})
unfolding io read_place write_place
rename_file from to name m s = elim (read_place from m) [
  | none ↦ raised io_failed m s
  | some fs ↦ elim (lookup name fs) [
    | none ↦ raised io_failed m s
    | some c ↦ elim (read_place to m) [
      | none ↦ raised io_failed m s
      | some gs ↦ io (λ k. write_place to (put name c gs) (write_place from (erase name fs) k)) m s
    ]
  ]
]

-- The rename of one file, and a flush of each of the two directories.
unfoldable pub move_file : Place → Place → Text → M (Unit {0})
unfolding rename_file fsync_dir
move_file from to name = do rename_file from to name; fsync_dir; fsync_dir

-- `os.Remove` of one file of a directory.
unfoldable pub remove_file : Place → Text → M (Unit {0})
unfolding io read_place write_place
remove_file p name m s = elim (read_place p m) [
  | none ↦ raised io_failed m s
  | some fs ↦ io (write_place p (erase name fs)) m s
]

-- `os.RemoveAll` of a directory: its entries one by one, then the directory.
unfoldable pub remove_entries : Place → Files → M (Unit {0})
unfolding io write_place
remove_entries p [] = return tt
remove_entries p (entry ∷ rest) = do io (write_place p rest); remove_entries p rest

unfoldable pub remove_all : Place → M (Unit {0})
unfolding io remove_entries read_place drop_place
remove_all p m s = elim (read_place p m) [
  | none ↦ returned tt m s
  | some fs ↦ after (remove_entries p fs m s) (λ _. io (drop_place p))
]

-- The hash function is not of this program; it is a parameter of all that reads evidence.
pub record Digest : Type 0 where
  pub hash : Text → Text

module _ ⦃digest : Digest⦄ where
  abbrev pub evidence_of : Text → Text → FileEvidence
  evidence_of name c = record { filename = name; sha256 = digest.hash c; size_bytes = length c }

  abbrev pub matches_evidence : Option Text → FileEvidence → Bool
  matches_evidence none e = false
  matches_evidence (some c) e = length c == e.size_bytes && text_eq (digest.hash c) e.sha256

  -- `evidenceOf` of each file.
  unfoldable pub inventory_of : Files → Inventory
  inventory_of [] = []
  inventory_of ((name, c) ∷ fs) = evidence_of name c ∷ inventory_of fs
