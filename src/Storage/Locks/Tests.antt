-- ===== src/Storage/Locks/Tests.antt =====
-- Runs of the model of storage/src/file_locks.c with two threads at one file.
use tp_sistemas_operativos.Base.{◌≡◌, refl, true, false, none, some, [], ◌∷◌}
use tp_sistemas_operativos.Storage.Locks.{
  OpenFiles, dictionary_set, lock_file, unlock_file, Locks, Step, Run,
}
use tp_sistemas_operativos.Storage.Locks.Counts.{
  IsCounted, Run-IsCounted, count, entry, unlock_file-granted,
}

abbrev nothing_open : OpenFiles
nothing_open = λ k. none

abbrev one_open : OpenFiles
one_open = dictionary_set nothing_open "a:b" (some 1)

abbrev two_locks : Locks
two_locks = record {
  open_files = dictionary_set one_open "a:b" (some 2);
  callers = "a:b" ∷ "a:b" ∷ [];
  refused = 0;
}

-- One thread after the other gets past lock_file.
two_locks-Run : Run two_locks
unfolding lock_file
two_locks-Run =
    Run.next
      (Run.next Run.start (
        Step.lock true "a:b" (record { open_files = nothing_open; callers = []; refused = 0 }) true
          one_open refl))
      (Step.lock true "a:b" (record { open_files = one_open; callers = "a:b" ∷ []; refused = 0 })
        true two_locks.open_files refl)

Run-IsCounted_example : IsCounted two_locks
Run-IsCounted_example = Run-IsCounted two_locks-Run refl

unlock_file-granted_example :
    unlock_file "a:b" two_locks.open_files
    ≡ some (dictionary_set two_locks.open_files "a:b" (entry (count "a:b" ("a:b" ∷ []))))
unlock_file-granted_example = unlock_file-granted "a:b" [] ("a:b" ∷ []) two_locks-Run refl refl

-- A thread whose lock_file failed, and then one whose lock_file did not.
abbrev one_refused : Locks
one_refused = record { open_files = one_open; callers = "a:b" ∷ "a:b" ∷ []; refused = 1 }

one_refused-Run : Run one_refused
unfolding lock_file
one_refused-Run =
    Run.next
      (Run.next Run.start (
        Step.lock false "a:b" (record { open_files = nothing_open; callers = []; refused = 0 })
          false nothing_open refl))
      (Step.lock true "a:b"
        (record { open_files = nothing_open; callers = "a:b" ∷ []; refused = 1 }) true one_open
        refl)

-- The unlock of the first thread takes the entry, and that of the second does not find its key.
abbrev lost : Locks
lost = record { open_files = dictionary_set one_open "a:b" none; callers = "a:b" ∷ []; refused = 1 }

lost-Run : Run lost
unfolding unlock_file
lost-Run =
    Run.next one_refused-Run
      (Step.unlock "a:b" one_refused lost.open_files ("a:b" ∷ []) [] refl refl)

second_unlock : unlock_file "a:b" lost.open_files ≡ none
unfolding unlock_file
second_unlock = refl
