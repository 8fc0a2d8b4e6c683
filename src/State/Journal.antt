-- ===== src/State/Journal.antt =====
-- agents/go/state/journal.go: the durable record of a restore. What a journal file holds is a value
-- here; its encoding is left out.
use agentops_open_course.Prelude.{Bool, true, false, List, [], ◌∷◌, ◌++◌, Option, none, some, Text}
use agentops_open_course.State.Maps.{Map, lookup, put, erase}
use agentops_open_course.State.Disk.{
  Inventory, prepared, RestoreJournal, JournalFile, document, unreadable, Machine, Problem,
  already_exists, unreadable_journal, io_failed, returned, raised, M, ◌>>=◌, ◌>>◌, return, raise,
  io, attempt, fsync_dir,
}

abbrev pub new_restore_journal : Text → Inventory → Inventory → RestoreJournal
new_restore_journal transaction old new = record {
  transaction = transaction;
  phase = prepared;
  old = old;
  new = new;
}

-- `os.OpenFile` with `O_EXCL`: the file is there, and empty.
unfoldable pub create_temporary : Text → M (Unit {0})
unfolding io
create_temporary t m s = elim (lookup t m.temporary) [
  | none ↦ io (λ k. record k { temporary = put t unreadable k.temporary }) m s
  | some file ↦ raised already_exists m s
]

unfoldable pub write_and_sync : RestoreJournal → M (Unit {0})
unfolding io
write_and_sync j = io (λ k. record k { temporary = put j.transaction (document j) k.temporary })

-- The rename of a temporary over the journal.
unfoldable pub publish_temporary : Text → M (Unit {0})
unfolding io
publish_temporary t m s = elim (lookup t m.temporary) [
  | none ↦ raised io_failed m s
  | some file ↦ io (λ k. record k { temporary = erase t k.temporary; journal = some file }) m s
]

unfoldable pub remove_temporary : Text → M (Unit {0})
unfolding io
remove_temporary t m s = elim (lookup t m.temporary) [
  | none ↦ returned tt m s
  | some file ↦ io (λ k. record k { temporary = erase t k.temporary }) m s
]

-- The results of `writeRestoreJournal`.
pub record Written : Type 0 where
  pub published : Bool
  pub err : Option Problem

-- The function after the temporary has been created, with the function that it defers.
unfoldable pub write_created : RestoreJournal → M Written
unfolding write_and_sync fsync_dir publish_temporary remove_temporary attempt
write_created j = do
  staged ← attempt (do write_and_sync j; fsync_dir; publish_temporary j.transaction)
  elim staged [
    | some e ↦ do
      removed ← attempt (remove_temporary j.transaction)
      return (record { published = false; err = some e })
    | none ↦ do synced ← attempt fsync_dir; return (record { published = true; err = synced })
  ]

unfoldable pub write_restore_journal : RestoreJournal → M Written
unfolding create_temporary write_created attempt
write_restore_journal j = do
  created ← attempt (create_temporary j.transaction)
  elim created [
    | some e ↦ return (record { published = false; err = some e })
    | none ↦ write_created j
  ]

abbrev pub read_restore_journal : JournalFile → M RestoreJournal
read_restore_journal (document j) = return j
read_restore_journal unreadable = raise unreadable_journal

abbrev pub load_restore_journal : M (Option RestoreJournal)
load_restore_journal m s = elim m.journal [
  | none ↦ returned none m s
  | some file ↦ (do j ← read_restore_journal file; return (some j)) m s
]

-- The names under which the residue of transactions stands in the state directory.
pub data Artifact : Type 0 where
  staging_of quarantine_of journal_of : Text → Artifact

abbrev names_of {ℓ} : {V : Type ℓ} → (Text → Artifact) → Map V → List Artifact
names_of kind [] = []
names_of kind ((t, v) ∷ m) = kind t ∷ names_of kind m

-- In the order of the names: `.restore-journal.`, `.restore-quarantine.`, `.restore-staged.`.
abbrev pub restore_artifacts : Machine → List Artifact
restore_artifacts m =
    names_of journal_of m.temporary
    ++ (names_of quarantine_of m.quarantine ++ names_of staging_of m.staging)
