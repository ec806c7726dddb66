-- ===== src/Storage/Locks.antt =====
-- storage/src/file_locks.c: the dictionary of open files, with the number of references of each
-- lock under the text "name:tag". A call takes the mutex of the dictionary once or twice, and each
-- such section is one step. `granted` says whether a lock can be allocated and initialized. The
-- locks themselves are the threads library's.
pub mod Counts
mod Tests
use Prim.Native.String.{String}
use text.Mathlib.Text.{◌==◌ as str_eq}
use tp_sistemas_operativos.Base.{
  ℕ, ◌+◌, ◌-◌, ◌≡◌, Bool, true, false, Option, none, some, List, [], ◌∷◌, ◌++◌, ◌==◌, if◌then◌else◌,
}

-- g_open_files_dict, with the ref_count of a lock that is in it.
abbrev pub OpenFiles : Type 0
OpenFiles = String → Option ℕ

abbrev pub dictionary_set : OpenFiles → String → Option ℕ → OpenFiles
dictionary_set d key v k = if str_eq k key then v else d k

-- The section of lock_file: whether the thread goes on to the lock.
unfoldable pub lock_file : Bool → String → OpenFiles → Bool × OpenFiles
lock_file granted key d = elim (d key) [
  | none ↦ if granted then (true, dictionary_set d key (some 1)) else (false, d)
  | some ref_count ↦ (true, dictionary_set d key (some (ref_count + 1)))
]

-- The last section of unlock_file; a key that is not there is the assertion's failure. The source
-- keeps the lock that the first section found under the key, where the model looks it up again.
unfoldable pub unlock_file : String → OpenFiles → Option OpenFiles
unlock_file key d = elim (d key) [
  | none ↦ none
  | some ref_count ↦
      some (dictionary_set d key (if ref_count == 1 then none else some (ref_count - 1)))
]

-- The dictionary; the key of each thread that is past the section of its lock_file and not past the
-- last section of its unlock_file; and how many calls of lock_file have failed.
pub record Locks : Type 0 where
  pub open_files : OpenFiles
  pub callers : List String
  pub refused : ℕ

-- The sections of the threads, in any order. lock_file returns nothing, so that a thread whose call
-- failed goes on as one whose call did not, up to its unlock_file.
pub data Step : Locks → Locks → Type 0 where
  lock :
      (granted : Bool) (key : String) (s : Locks) (ok : Bool) (d : OpenFiles)
      → lock_file granted key s.open_files ≡ (ok, d)
      → Step s (record {
        open_files = d;
        callers = key ∷ s.callers;
        refused = if ok then s.refused else s.refused + 1;
      })
  unlock :
      (key : String) (s : Locks) (d : OpenFiles) (before after : List String)
      → s.callers ≡ before ++ key ∷ after
      → unlock_file key s.open_files ≡ some d
      → Step s (record { open_files = d; callers = before ++ after; refused = s.refused })

-- The states that are reached from the empty dictionary.
pub data Run : Locks → Type 0 where
  start : Run (record { open_files = λ k. none; callers = []; refused = 0 })
  next : {s t : Locks} → Run s → Step s t → Run t
