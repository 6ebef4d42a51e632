-- ===== src/Install/Files.antt =====
-- The files that the installer reads and writes, and `write_atomic` of src/scheduler/runtime.rs with
-- every way it can end. Files and directories are readable, and the directories exist.
pub mod Frames
use agent_gov.Base.{
  ℕ, ◌≡◌, refl, ◌≢◌, Bool, true, false, Option, none, some, List, [], ◌∷◌, Text, FilePath, text_eqb,
  text_eqb_iff, if◌then◌else◌, if_true, if_false, arith, Bool-cases, inl, inr,
}
use agent_gov.Error.{
  ErrorKind, Result, ok, err, panicked, GovError, io, not_found, already_exists, permission_denied,
  other,
}

-- How a write or a removal ends: well; before a temporary file is there, or a file is gone; with the
-- temporary file left behind; or after the file was replaced, when the directory cannot be synced.
pub data Fault : Type 0 where
  fine : Fault
  not_begun not_renamed not_synced : ErrorKind → Fault

-- `temps` tells for which paths this process has left a temporary file, whose name is made of the
-- path and the process id. `faults` says how the next writes end; all later ones end well.
pub record Disk : Type 0 where
  pub content : FilePath → Option Text
  pub temps : FilePath → Bool
  pub faults : List Fault

pub set_at {ℓ} : {A : Type ℓ} → FilePath → A → (FilePath → A) → FilePath → A
set_at p a f q = if text_eqb p q then a else f q

pub set_at_self {ℓ} : {A : Type ℓ} (p : FilePath) (a : A) (f : FilePath → A) → set_at p a f p ≡ a
unfolding set_at
set_at_self p a f = if_true (text_eqb p p) _ _ ((text_eqb_iff p p).1 refl)

pub set_at_ne {ℓ} :
    {A : Type ℓ} (p q : FilePath) (a : A) (f : FilePath → A) → p ≢ q → set_at p a f q ≡ f q
unfolding set_at
set_at_ne p q a f h = elim (Bool-cases (text_eqb p q)) [
  | inl e ↦ absurd (h ((text_eqb_iff p q).0 e))
  | inr e ↦ if_false (text_eqb p q) _ _ e
]

-- An operation on the disk.
abbrev pub Io {ℓ} : Type ℓ → Type ℓ
Io A = Disk → Result A × Disk

abbrev pub run_next {ℓ κ} :
    {A : Type ℓ} {C : Type κ} → (A → Io C) → Result A × Disk → Result C × Disk
run_next next (panicked, d) = (panicked, d)
run_next next (err failure, d) = (err failure, d)
run_next next (ok x, d) = next x d

-- The operator `?` in a function that works on the disk.
infixl 5 ◌>>=◌
abbrev pub ◌>>=◌ {ℓ κ} : {A : Type ℓ} {C : Type κ} → Io A → (A → Io C) → Io C
step >>= next = λ d. run_next next (step d)

infixl 5 ◌>>◌
abbrev pub ◌>>◌ {κ} : {C : Type κ} → Io (Unit {0}) → Io C → Io C
step >> rest = step >>= (λ done. rest)

abbrev pub pure {ℓ} : {A : Type ℓ} → Result A → Io A
pure r = λ d. (r, d)

-- The next fault, and the disk without it.
pub next_fault : List Fault → Fault
next_fault [] = fine
next_fault (f ∷ fs) = f

pub later_faults : List Fault → List Fault
later_faults [] = []
later_faults (f ∷ fs) = fs

pub write_with : FilePath → Text → Fault → Disk → Result (Unit {0}) × Disk
write_with p bytes fine d = (ok tt, record d { content = set_at p (some bytes) d.content })
write_with p bytes (not_begun e) d = (err (io e), d)
write_with p bytes (not_renamed e) d = (err (io e), record d { temps = set_at p true d.temps })
write_with p bytes (not_synced e) d =
    (err (io e), record d { content = set_at p (some bytes) d.content })

-- `create_new` refuses a temporary file that is there already.
pub write_atomic : FilePath → Text → Io (Unit {0})
write_atomic p bytes d =
    let next = record d { faults = later_faults d.faults } in
    if d.temps p
    then (err (io already_exists), next)
    else write_with p bytes (next_fault d.faults) next

unfoldable pub read_result : Option Text → Result Text
read_result none = err (io not_found)
read_result (some bytes) = ok bytes

unfoldable pub read : FilePath → Io Text
read p d = (read_result (d.content p), d)

unfoldable pub is_some {ℓ} : {A : Type ℓ} → Option A → Bool
is_some none = false
is_some (some a) = true

unfoldable pub exists : FilePath → Disk → Bool
exists p d = is_some (d.content p)

-- The error of a file that is there is never that it is missing.
pub present_error : ErrorKind → ErrorKind
present_error not_found = other
present_error permission_denied = permission_denied
present_error already_exists = already_exists
present_error other = other

-- `fs::remove_file`, which ends like a write but for temporary files and directories.
pub remove_with : FilePath → Fault → Disk → Result (Unit {0}) × Disk
remove_with p fine d = (ok tt, record d { content = set_at p none d.content })
remove_with p (not_begun e) d = (err (io (present_error e)), d)
remove_with p (not_renamed e) d = (err (io (present_error e)), d)
remove_with p (not_synced e) d = (err (io (present_error e)), d)

pub remove_file : FilePath → Io (Unit {0})
remove_file p d =
    let next = record d { faults = later_faults d.faults } in
    if exists p d then remove_with p (next_fault d.faults) next else (err (io not_found), next)

-- What a run on concrete arguments computes through.
unfoldable pub runs : Unit {0}
unfolding set_at next_fault later_faults write_with write_atomic read_result read is_some exists
    present_error remove_with remove_file
runs = tt
