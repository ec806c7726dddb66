-- ===== src/Storage/Locks/Counts.antt =====
-- The counts of storage/src/file_locks.c are the numbers of threads that use a lock.
use Prim.Native.String.{String}
use text.Mathlib.Text.{◌==◌ as str_eq}
use mathlib.Core.Option.{some-injective}
use text.Mathlib.TextEquality.{eq_iff}
use tp_sistemas_operativos.Base.{
  ℕ, zero, suc, ◌-◌, ◌≡◌, refl, sym, ap, ◌∙◌, subst, Bool, true, false, Option, none, some, List,
  [], ◌∷◌, ◌++◌, ◌==◌, if◌then◌else◌, arith, Bool-cases, inl, inr, ◌⊎◌,
}
use tp_sistemas_operativos.Storage.Locks.{
  OpenFiles, dictionary_set, lock_file, unlock_file, Locks, Step, Run,
}

-- How many threads hold a key.
abbrev pub count : String → List String → ℕ
count k [] = 0
count k (x ∷ xs) = if str_eq k x then suc (count k xs) else count k xs

-- What the dictionary has for a number of threads.
abbrev pub entry : ℕ → Option ℕ
entry zero = none
entry (suc n) = some (suc n)

abbrev pub Counts : OpenFiles → List String → Type 0
Counts d callers = (k : String) → d k ≡ entry (count k callers)

abbrev pub IsCounted : Locks → Type 0
IsCounted s = Counts s.open_files s.callers

count_middle :
    (k key : String) (before after : List String)
    → count k (before ++ key ∷ after)
      ≡ (if str_eq k key then suc (count k (before ++ after)) else count k (before ++ after))
count_middle k key [] after = refl
count_middle k key (x ∷ before) after =
    let rest = count_middle k key before after in ground (arith, rest)

-- A key is looked up among the others or at its place.
lookup_lem :
    (P : Bool → Type 0) (k key : String)
    → (k ≡ key → P true)
    → (str_eq k key ≡ false → P false)
    → P (str_eq k key)
lookup_lem P k key here there = elim (Bool-cases (str_eq k key)) [
  | inl e ↦ rw e (here ((eq_iff k key).0 e))
  | inr e ↦ rw e (there e)
]

one_more :
    (d : OpenFiles) (h : List String) (key : String)
    → Counts d h
    → Counts (dictionary_set d key (some (suc (count key h)))) (key ∷ h)
one_more d h key c k =
    lookup_lem
      (λ b.
        (if b then some (suc (count key h)) else d k)
        ≡ entry (if b then suc (count k h) else count k h))
      k key (λ same. rw same) (λ _. c k)

one_less :
    (d : OpenFiles) (before after : List String) (key : String)
    → Counts d (before ++ key ∷ after)
    → Counts (dictionary_set d key (entry (count key (before ++ after)))) (before ++ after)
one_less d before after key c k =
    lookup_lem
      (λ b.
        (if b then entry (count key (before ++ after)) else d k)
        ≡ entry (count k (before ++ after)))
      k key (λ same. rw same) (λ other. c k ∙ ap entry (count_middle k key before after ∙ rw other))

-- The thread's own key has an entry.
held :
    (d : OpenFiles) (before after : List String) (key : String)
    → Counts d (before ++ key ∷ after)
    → d key ≡ some (suc (count key (before ++ after)))
held d before after key c = c key ∙ ap entry here
  where
    here : count key (before ++ key ∷ after) ≡ suc (count key (before ++ after))
    here = count_middle key key before after ∙ rw ((eq_iff key key).1 refl)

true-false : ¬ (true ≡ false)
true-false e = cc

-- The section of lock_file, from the number of threads at its key.
lock_file_cases :
    (granted : Bool) (key : String) (f : OpenFiles) (n : ℕ)
    → f key ≡ entry n
    → (lock_file granted key f ≡ (true, dictionary_set f key (some (suc n))))
      ⊎ (lock_file granted key f ≡ (false, f))
unfolding lock_file
lock_file_cases true key f zero e = inl (rw (e, lock_file))
lock_file_cases false key f zero e = inr (rw (e, lock_file))
lock_file_cases granted key f (suc n) e =
    inl (rw (e, lock_file) (ap (λ (k : ℕ). (true, dictionary_set f key (some k))) (omega arith)))

lock_file_lem :
    (granted : Bool) (key : String) (s : Locks) (d : OpenFiles)
    → IsCounted s
    → lock_file granted key s.open_files ≡ (true, d)
    → Counts d (key ∷ s.callers)
lock_file_lem granted key s d c e =
    elim (lock_file_cases granted key s.open_files (count key s.callers) (c key)) [
      | inl h ↦
          subst (λ d'. Counts d' (key ∷ s.callers)) (ap (λ (r : Bool × OpenFiles). r.1) (sym h ∙ e))
            (one_more s.open_files s.callers key c)
      | inr h ↦ absurd (true-false (ap (λ (r : Bool × OpenFiles). r.0) (sym e ∙ h)))
    ]

unlocked : ℕ → Option ℕ
unlocked n = if n == 1 then none else some (n - 1)

unlocked_lem : (n : ℕ) → unlocked (suc n) ≡ entry n
unfolding unlocked
unlocked_lem zero = ground arith
unlocked_lem (suc n) = ground arith

-- The section of unlock_file, from the entry that it finds.
unlock_file_lem :
    (key : String) (f : OpenFiles) (n : ℕ)
    → f key ≡ some (suc n)
    → unlock_file key f ≡ some (dictionary_set f key (entry n))
unfolding unlock_file unlocked
unlock_file_lem key f n e =
    rw (e, unlock_file) (ap (λ v. some (dictionary_set f key v)) (unlocked_lem n))

Step-IsCounted :
    {s t : Locks} → (s.refused ≡ 0 → IsCounted s) → Step s t → t.refused ≡ 0 → IsCounted t
Step-IsCounted c (Step.lock granted key s true d e) z = lock_file_lem granted key s d (c z) e
Step-IsCounted c (Step.lock granted key s false d e) z = absurd (omega arith)
Step-IsCounted c (Step.unlock key s d before after e u) z =
    subst (λ d'. Counts d' (before ++ after))
      (some-injective _ _
        (sym (unlock_file_lem key s.open_files _ (held s.open_files before after key inside)) ∙ u))
      (one_less s.open_files before after key inside)
  where
    inside : Counts s.open_files (before ++ key ∷ after)
    inside = subst (Counts s.open_files) e (c z)

-- In every state that the sections of the threads reach from the empty dictionary, in any order,
-- as long as no lock_file has failed, the dictionary has an entry for exactly the keys that some
-- thread holds, and its count is the number of those threads. A thread holds a key from the
-- section of its lock_file to the last section of its unlock_file.
pub Run-IsCounted : {s : Locks} → Run s → s.refused ≡ 0 → IsCounted s
Run-IsCounted Run.start z = λ k. refl
Run-IsCounted (Run.next r step) z = Step-IsCounted (Run-IsCounted r) step z

-- In every state that the sections of the threads reach from the empty dictionary, in any order,
-- as long as no lock_file has failed, a thread that holds a key finds it in the dictionary when
-- it comes to the last section of unlock_file; the entry then has the number of the other threads
-- that hold the key, and is gone when there are none.
pub unlock_file-granted :
    {s : Locks} (key : String) (before after : List String)
    → Run s
    → s.refused ≡ 0
    → s.callers ≡ before ++ key ∷ after
    → unlock_file key s.open_files
      ≡ some (dictionary_set s.open_files key (entry (count key (before ++ after))))
unlock_file-granted {s} key before after r z e =
    unlock_file_lem key s.open_files _
      (held s.open_files before after key (subst (Counts s.open_files) e (Run-IsCounted r z)))
