-- ===== src/State/Safety/Invariant.antt =====
-- The states of a directory in the course of a transaction.
use agentops_open_course.Prelude.{◌≡◌, ◌⊎◌, [], Option, none, some, Text}
use agentops_open_course.State.Maps.{lookup, Sorted}
use agentops_open_course.State.Disk.{
  Files, Inventory, RestorePhase, prepared, rolling_back, committed, RestoreJournal, JournalFile,
  document, Digest,
}
use agentops_open_course.State.Logic.{View}
use agentops_open_course.State.Safety.Records.{Records, Part}

-- A restore from the old generation to the new, with the inventories that its journal holds.
pub record Transaction ⦃digest : Digest⦄ : Type 0 where
  pub id : Text
  pub old_files : Files
  pub new_files : Files
  pub old_sorted : Sorted old_files
  pub new_sorted : Sorted new_files
  pub old_inventory : Inventory
  pub new_inventory : Inventory
  pub old_records : Records old_inventory old_files
  pub new_records : Records new_inventory new_files

abbrev pub entries_of : Option Files → Files
entries_of none = []
entries_of (some fs) = fs

-- One name: the old file is in its place, or else in quarantine with nothing or the new file in its
-- place.
abbrev pub Kept : Option Text → Option Text → Option Text → Type 0
Kept o l q = (q ≡ none) × (l ≡ o)

abbrev pub Moved : Option Text → Option Text → Option Text → Option Text → Type 0
Moved o n l q = (q ≡ o) × ((l ≡ none) ⊎ (l ≡ n))

abbrev pub Slot : Option Text → Option Text → Option Text → Option Text → Type 0
Slot o n l q = Kept o l q ⊎ Moved o n l q

-- What is live is the files of a generation, and there is no residue.
pub record IsClean (fs : Files) (v : View) : Type 0 where
  pub live : v.live ≡ fs
  pub staging : v.staging ≡ none
  pub quarantine : v.quarantine ≡ none
  pub temporary : v.temporary ≡ none
  pub journal : v.journal ≡ none

pub data Generation : Type 0 where
  old_generation new_generation : Generation

module _ ⦃digest : Digest⦄ (x : Transaction) where
  abbrev pub journal_at : RestorePhase → RestoreJournal
  journal_at phase = record {
    transaction = x.id;
    phase = phase;
    old = x.old_inventory;
    new = x.new_inventory;
  }

  abbrev pub recorded : RestorePhase → Option JournalFile
  recorded phase = some (document (journal_at phase))

  abbrev pub files_of : Generation → Files
  files_of old_generation = x.old_files
  files_of new_generation = x.new_files

  -- Between the generations.
  pub record Halfway (live staging quarantine : Files) : Type 0 where
    pub slots :
        (k : Text)
        → Slot (lookup k x.old_files) (lookup k x.new_files) (lookup k live) (lookup k quarantine)
    pub staged : Part staging x.new_files
    pub live_sorted : Sorted live
    pub staging_sorted : Sorted staging
    pub quarantine_sorted : Sorted quarantine

  -- The journal is written under its temporary name only.
  pub record IsInitial (v : View) : Type 0 where
    pub live : v.live ≡ x.old_files
    pub staging : v.staging ≡ some x.new_files
    pub quarantine : v.quarantine ≡ some []
    pub temporary : v.temporary ≡ recorded prepared
    pub journal : v.journal ≡ none

  pub record IsPrepared (v : View) : Type 0 where
    pub journal : v.journal ≡ recorded prepared
    pub staging : v.staging ≡ some (entries_of v.staging)
    pub quarantine : v.quarantine ≡ some (entries_of v.quarantine)
    pub halfway : Halfway v.live (entries_of v.staging) (entries_of v.quarantine)
    pub complete :
        (k : Text)
        → (lookup k (entries_of v.staging) ≡ lookup k x.new_files)
          ⊎ (lookup k v.live ≡ lookup k x.new_files)

  pub record IsRolling (v : View) : Type 0 where
    pub journal : v.journal ≡ recorded rolling_back
    pub halfway : Halfway v.live (entries_of v.staging) (entries_of v.quarantine)

  pub record IsCommitted (v : View) : Type 0 where
    pub journal : v.journal ≡ recorded committed
    pub live : v.live ≡ x.new_files
    pub staged : Part (entries_of v.staging) x.new_files
    pub quarantined : Part (entries_of v.quarantine) x.old_files
    pub staging_sorted : Sorted (entries_of v.staging)
    pub quarantine_sorted : Sorted (entries_of v.quarantine)

  -- The directories that recovery takes to a generation.
  pub data Recoverable : Generation → View → Type 0 where
    is_clean : {g : Generation} {v : View} → IsClean (files_of g) v → Recoverable g v
    is_initial : {v : View} → IsInitial v → Recoverable old_generation v
    is_prepared : {v : View} → IsPrepared v → Recoverable old_generation v
    is_rolling : {v : View} → IsRolling v → Recoverable old_generation v
    is_committed : {v : View} → IsCommitted v → Recoverable new_generation v
