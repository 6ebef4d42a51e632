-- ===== src/Install/Files/Frames.antt =====
-- What writes and removals change, and what they leave alone.
use agent_gov.Base.{
  ◌≡◌, refl, ◌≢◌, ap, sym, ◌∙◌, true, false, Option, none, some, Text, FilePath, if◌then◌else◌,
  if_true, if_false, arith, Bool-cases, inl, inr, ◌⊎◌,
}
use agent_gov.Error.{Result, ok, err, panicked, io, not_found, already_exists, ErrorKind}
use agent_gov.Install.Files.{
  Disk, Io, Fault, fine, not_begun, not_renamed, not_synced, run_next, ◌>>◌, set_at, set_at_self,
  set_at_ne, next_fault, later_faults, write_with, write_atomic, remove_with, remove_file, exists,
  is_some, present_error,
}

-- The operation leaves the file at the path alone, however it ends.
abbrev pub Spares {ℓ} : {A : Type ℓ} → FilePath → Io A → Type 0
Spares q step = (d : Disk) → (step d).1.content q ≡ d.content q

pub Spares->> {ℓ} :
    {A : Type ℓ} (q : FilePath) (step : Io (Unit {0})) (rest : Io A)
    → Spares q step
    → Spares q rest
    → Spares q (step >> rest)
Spares->> q step rest first second d = go (step d) (first d)
  where
    go :
        (r : Result (Unit {0}) × Disk)
        → r.1.content q ≡ d.content q
        → (run_next (λ u. rest) r).1.content q ≡ d.content q
    go (ok u, k) e = second k ∙ e
    go (err f, k) e = e
    go (panicked, k) e = e

-- An operation that never panics.
abbrev pub IsCalm {ℓ} : {A : Type ℓ} → Io A → Type ℓ
IsCalm step = (d : Disk) → (step d).0 ≢ panicked

pub IsCalm->> {ℓ} :
    {A : Type ℓ} (step : Io (Unit {0})) (rest : Io A)
    → IsCalm step
    → IsCalm rest
    → IsCalm (step >> rest)
IsCalm->> step rest first second d = go (step d) (first d)
  where
    go : (r : Result (Unit {0}) × Disk) → r.0 ≢ panicked → (run_next (λ u. rest) r).0 ≢ panicked
    go (ok u, k) h = second k
    go (err f, k) h = cc
    go (panicked, k) h = absurd (h refl)

-- A chain that ends well has passed through a disk in between.
pub >>-eq-ok {ℓ} :
    {A : Type ℓ} (step : Io (Unit {0})) (rest : Io A) (d d' : Disk) (a : A)
    → (step >> rest) d ≡ (ok a, d')
    → (k : Disk) × (step d ≡ (ok tt, k)) × (rest k ≡ (ok a, d'))
>>-eq-ok step rest d d' a h = go (step d) refl h
  where
    go :
        (r : Result (Unit {0}) × Disk)
        → step d ≡ r
        → run_next (λ u. rest) r ≡ (ok a, d')
        → (k : Disk) × (step d ≡ (ok tt, k)) × (rest k ≡ (ok a, d'))
    go (ok u, k) e h = (k, e, h)
    go (err f, k) e h = absurd (cc)
    go (panicked, k) e h = absurd (cc)

present_error-not_found : (e : ErrorKind) → present_error e ≢ not_found
unfolding present_error
present_error-not_found ErrorKind.not_found = cc
present_error-not_found ErrorKind.permission_denied = cc
present_error-not_found ErrorKind.already_exists = cc
present_error-not_found ErrorKind.other = cc

module _ (p : FilePath) where
  write_with-Spares :
      (bytes : Text) (f : Fault) (q : FilePath) (d : Disk)
      → p ≢ q
      → (write_with p bytes f d).1.content q ≡ d.content q
  unfolding write_with
  write_with-Spares bytes fine q d h = set_at_ne p q _ d.content h
  write_with-Spares bytes (not_begun e) q d h = refl
  write_with-Spares bytes (not_renamed e) q d h = refl
  write_with-Spares bytes (not_synced e) q d h = set_at_ne p q _ d.content h

  write_with-written :
      (bytes : Text) (f : Fault) (d d' : Disk)
      → write_with p bytes f d ≡ (ok tt, d')
      → d'.content p ≡ some bytes
  unfolding write_with
  write_with-written bytes fine d d' h =
      ap (λ (q : Result (Unit {0}) × Disk). q.1.content p) (sym h) ∙ set_at_self p _ d.content
  write_with-written bytes (not_begun e) d d' h = absurd (cc)
  write_with-written bytes (not_renamed e) d d' h = absurd (cc)
  write_with-written bytes (not_synced e) d d' h = absurd (cc)

  write_with-IsCalm : (bytes : Text) (f : Fault) → IsCalm (write_with p bytes f)
  unfolding write_with
  write_with-IsCalm bytes fine d = cc
  write_with-IsCalm bytes (not_begun e) d = cc
  write_with-IsCalm bytes (not_renamed e) d = cc
  write_with-IsCalm bytes (not_synced e) d = cc

  pub write_atomic-Spares : (bytes : Text) (q : FilePath) → p ≢ q → Spares q (write_atomic p bytes)
  unfolding write_atomic
  write_atomic-Spares bytes q h d = elim (Bool-cases (d.temps p)) [
    | inl e ↦ ap (λ (r : Result (Unit {0}) × Disk). r.1.content q) (if_true (d.temps p) _ _ e)
    | inr e ↦
        ap (λ (r : Result (Unit {0}) × Disk). r.1.content q) (if_false (d.temps p) _ _ e)
        ∙ write_with-Spares bytes (next_fault d.faults) q
            (record d { faults = later_faults d.faults }) h
  ]

  pub write_atomic-written :
      (bytes : Text) (d d' : Disk)
      → write_atomic p bytes d ≡ (ok tt, d')
      → d'.content p ≡ some bytes
  unfolding write_atomic
  write_atomic-written bytes d d' h = elim (Bool-cases (d.temps p)) [
    | inl e ↦ absurd (cc (sym (if_true (d.temps p) _ _ e) ∙ h))
    | inr e ↦ write_with-written bytes _ _ d' (sym (if_false (d.temps p) _ _ e) ∙ h)
  ]

  pub write_atomic-IsCalm : (bytes : Text) → IsCalm (write_atomic p bytes)
  unfolding write_atomic
  write_atomic-IsCalm bytes d = elim (Bool-cases (d.temps p)) [
    | inl e ↦ λ h.
        absurd
          (cc (sym (ap (λ (r : Result (Unit {0}) × Disk). r.0) (if_true (d.temps p) _ _ e)) ∙ h))
    | inr e ↦ λ h.
        write_with-IsCalm bytes (next_fault d.faults) (record d { faults = later_faults d.faults })
          (sym (ap (λ (r : Result (Unit {0}) × Disk). r.0) (if_false (d.temps p) _ _ e)) ∙ h)
  ]

  remove_with-Spares :
      (f : Fault) (q : FilePath) (d : Disk) → p ≢ q → (remove_with p f d).1.content q ≡ d.content q
  unfolding remove_with
  remove_with-Spares fine q d h = set_at_ne p q _ d.content h
  remove_with-Spares (not_begun e) q d h = refl
  remove_with-Spares (not_renamed e) q d h = refl
  remove_with-Spares (not_synced e) q d h = refl

  -- A removal that ends well, or finds nothing to remove and says so, has left no file.
  remove_with-gone :
      (f : Fault) (d d' : Disk) → remove_with p f d ≡ (ok tt, d') → d'.content p ≡ none
  unfolding remove_with
  remove_with-gone fine d d' h =
      ap (λ (q : Result (Unit {0}) × Disk). q.1.content p) (sym h) ∙ set_at_self p _ d.content
  remove_with-gone (not_begun e) d d' h = absurd (cc)
  remove_with-gone (not_renamed e) d d' h = absurd (cc)
  remove_with-gone (not_synced e) d d' h = absurd (cc)

  remove_with-present : (f : Fault) (d d' : Disk) → remove_with p f d ≢ (err (io not_found), d')
  unfolding remove_with present_error
  remove_with-present fine d d' h = cc
  remove_with-present (not_begun e) d d' h = present_error-not_found e (ground arith)
  remove_with-present (not_renamed e) d d' h = present_error-not_found e (ground arith)
  remove_with-present (not_synced e) d d' h = present_error-not_found e (ground arith)

  remove_with-IsCalm : (f : Fault) → IsCalm (remove_with p f)
  unfolding remove_with
  remove_with-IsCalm fine d = cc
  remove_with-IsCalm (not_begun e) d = cc
  remove_with-IsCalm (not_renamed e) d = cc
  remove_with-IsCalm (not_synced e) d = cc

  -- The two ways a removal goes.
  remove_file-cases :
      (d : Disk)
      → (d.content p ≡ none)
          × (remove_file p d ≡ (err (io not_found), record d { faults = later_faults d.faults }))
        ⊎ (remove_file p d
            ≡ remove_with p (next_fault d.faults) (record d { faults = later_faults d.faults }))
  unfolding remove_file exists is_some
  remove_file-cases d = go (d.content p) refl
    where
      go :
          (c : Option Text)
          → d.content p ≡ c
          → (d.content p ≡ none)
              × ((if is_some (d.content p)
                    then remove_with p
                        (next_fault d.faults)
                        (record d { faults = later_faults d.faults })
                    else (err (io not_found), record d { faults = later_faults d.faults }))
                  ≡ (err (io not_found), record d { faults = later_faults d.faults }))
            ⊎ ((if is_some (d.content p)
                  then remove_with p
                      (next_fault d.faults)
                      (record d { faults = later_faults d.faults })
                  else (err (io not_found), record d { faults = later_faults d.faults }))
                ≡ remove_with p (next_fault d.faults) (record d { faults = later_faults d.faults }))
      go none e = inl (e, if_false (is_some (d.content p)) _ _ (ap is_some e))
      go (some c) e = inr (if_true (is_some (d.content p)) _ _ (ap is_some e))

  pub remove_file-Spares : (q : FilePath) → p ≢ q → Spares q (remove_file p)
  remove_file-Spares q h d = elim (remove_file-cases d) [
    | inl (gone, e) ↦ ap (λ (r : Result (Unit {0}) × Disk). r.1.content q) e
    | inr e ↦
        ap (λ (r : Result (Unit {0}) × Disk). r.1.content q) e
        ∙ remove_with-Spares (next_fault d.faults) q (record d { faults = later_faults d.faults }) h
  ]

  pub remove_file-IsCalm : IsCalm (remove_file p)
  remove_file-IsCalm d h = elim (remove_file-cases d) [
    | inl (gone, e) ↦ cc
    | inr e ↦
        remove_with-IsCalm (next_fault d.faults) (record d { faults = later_faults d.faults })
          (sym (ap (λ (r : Result (Unit {0}) × Disk). r.0) e) ∙ h)
  ]

  -- A removal that ends well, or that finds no file, leaves none.
  pub remove_file-gone :
      (d d' : Disk)
      → (remove_file p d ≡ (ok tt, d')) ⊎ (remove_file p d ≡ (err (io not_found), d'))
      → d'.content p ≡ none
  remove_file-gone d d' h = elim (remove_file-cases d) [
    | inl (gone, e) ↦ elim h [
      | inl g ↦ absurd (cc)
      | inr g ↦ ap (λ (r : Result (Unit {0}) × Disk). r.1.content p) (sym g ∙ e) ∙ gone
    ]
    | inr e ↦ elim h [
      | inl g ↦ remove_with-gone _ _ d' (sym e ∙ g)
      | inr g ↦ absurd (remove_with-present _ _ d' (sym e ∙ g))
    ]
  ]

  -- A write that fails with its temporary file left behind.
  pub write_atomic-leftover :
      (bytes : Text) (e : ErrorKind) (d : Disk)
      → d.temps p ≡ false
      → next_fault d.faults ≡ not_renamed e
      → (write_atomic p bytes d).1
        ≡ record d { temps = set_at p true d.temps; faults = later_faults d.faults }
  unfolding write_atomic write_with
  write_atomic-leftover bytes e d fresh fault = rw (fresh, fault) refl

  -- A write over a temporary file that is left behind fails, and changes no file.
  pub write_atomic_over_leftover :
      (bytes : Text) (d : Disk)
      → d.temps p ≡ true
      → write_atomic p bytes d
        ≡ (err (io already_exists), record d { faults = later_faults d.faults })
  unfolding write_atomic
  write_atomic_over_leftover bytes d left = if_true (d.temps p) _ _ left
