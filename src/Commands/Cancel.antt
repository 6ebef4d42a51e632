-- ===== src/Commands/Cancel.antt =====
-- The command `cancel` of src/main.rs, up to the request that goes to the socket of the slot.
use agent_gov.Base.{
  ℕ, zero, suc, ◌+◌, ◌≤◌, ◌<◌, ◌≡◌, refl, ap, sym, subst, ◌∙◌, inl, inr, Bool, true, false, not,
  Option, none, some, List, [], ◌∷◌, ◌++◌, Text, lit, text_eqb, text_eqb_iff, length, if◌then◌else◌,
  if_true, if_false, not-true, decimal, arith, Bool-cases, all, is_hexdigit, nat_eqb,
}
use agent_gov.Error.{
  Result, ok, err, GovError, invalid_input, temporary, ◌>>=◌, >>=-eq-ok, ok-injective,
}
use agent_gov.Scheduler.{
  Runtime, ActiveMetadata, ActiveFile, missing, unreadable, holds, capacity, control_name,
}
use agent_gov.Status.{active_metadata, parsed, slot_locked}

-- Whether a workload is the job.
matches_job : Text → Option ActiveMetadata → Bool
matches_job job_id none = false
matches_job job_id (some m) = text_eqb m.job_id job_id

module _ (bad_json : GovError) (namespace : Text) where
  -- The slots from one on, as many as are left.
  pub matching : Text → Runtime → ℕ → ℕ → Result (List ℕ)
  matching job_id r i zero = ok []
  matching job_id r i (suc left) = do
    m ← active_metadata bad_json r i
    rest ← matching job_id r (suc i) left
    ok (if matches_job job_id m then i ∷ rest else rest)

  ambiguous : ℕ → Result ℕ
  ambiguous found = err (
      invalid_input
        (lit "job id must resolve to exactly one active workload; found " ++ decimal found))

  request : Runtime → ℕ → Text → Result ℕ
  request r slot job_id =
      if not (slot_locked r slot)
      then err (temporary (lit "job identity is stale or ambiguous; refusing cancellation"))
      else do name ← control_name namespace job_id; ok slot

  chosen : Runtime → Text → List ℕ → Result ℕ
  chosen r job_id [] = ambiguous 0
  chosen r job_id (slot ∷ []) = request r slot job_id
  chosen r job_id (slot ∷ other ∷ more) = ambiguous (suc (suc (length more)))

  -- The slot whose control socket is asked to cancel.
  pub cancel : Text → Runtime → Result ℕ
  cancel job_id r = do n ← capacity r; found ← matching job_id r 0 n; chosen r job_id found

  -- The slot's active file names the job.
  abbrev pub Names : Runtime → Text → ℕ → Type 0
  Names r job_id k = (m : ActiveMetadata) × ((r.slot k).active ≡ holds m) × (m.job_id ≡ job_id)

  matches_job-Names :
      (job_id : Text) (r : Runtime) (i : ℕ) (m : Option ActiveMetadata)
      → active_metadata bad_json r i ≡ ok m
      → (matches_job job_id m ≡ true → Names r job_id i)
        × (matches_job job_id m ≡ false → Names r job_id i → ⊥)
  unfolding active_metadata parsed matches_job
  matches_job-Names job_id r i m h = go (r.slot i).active refl m h
    where
      go :
          (f : ActiveFile)
          → (r.slot i).active ≡ f
          → (m : Option ActiveMetadata) → parsed bad_json f ≡ ok m
          → (matches_job job_id m ≡ true → Names r job_id i)
            × (matches_job job_id m ≡ false → Names r job_id i → ⊥)
      go missing e none q = ((λ t. absurd (cc)), (λ t (m, f, j). absurd (cc)))
      go missing e (some m) q = absurd (cc)
      go unreadable e m q = absurd (cc)
      go (holds a) e none q = absurd (cc)
      go (holds a) e (some m) q = (
        (λ t. (m, (cc), (text_eqb_iff m.job_id job_id).0 t)),
        (λ t (b, f, j).
            let same : m ≡ b = cc in
            let names = (text_eqb_iff m.job_id job_id).1 (ap (λ a. a.job_id) same ∙ j) in
            absurd (cc)),
      )

  -- The slots that `matching` lists, where it lists one at most.
  abbrev Found : Runtime → Text → ℕ → ℕ → List ℕ → Type 0
  Found r job_id i left [] = (k : ℕ) → i ≤ k → k < i + left → Names r job_id k → ⊥
  Found r job_id i left (s ∷ []) =
      (i ≤ s)
      × (s < i + left)
      × Names r job_id s
      × ((k : ℕ) → i ≤ k → k < i + left → Names r job_id k → k ≡ s)
  Found r job_id i left (s ∷ t ∷ more) = Unit

  Found-skip :
      (r : Runtime) (job_id : Text) (i left : ℕ) (l : List ℕ)
      → (Names r job_id i → ⊥)
      → Found r job_id (suc i) left l
      → Found r job_id i (suc left) l
  Found-skip r job_id i left [] absent found = λ k lo hi names. elim (Bool-cases (nat_eqb k i)) [
    | inl e ↦ let same : k ≡ i = ground arith in absent (subst (Names r job_id) same names)
    | inr e ↦ found k (ground arith) (ground arith) names
  ]
  Found-skip r job_id i left (s ∷ []) absent (lo, hi, here, only) = (
    (omega arith),
    (omega arith),
    here,
    λ k lo' hi' names. elim (Bool-cases (nat_eqb k i)) [
      | inl e ↦
          let same : k ≡ i = ground arith in absurd (absent (subst (Names r job_id) same names))
      | inr e ↦ only k (ground arith) (ground arith) names
    ],
  )
  Found-skip r job_id i left (s ∷ t ∷ more) absent found = tt

  Found-hit :
      (r : Runtime) (job_id : Text) (i left : ℕ) (l : List ℕ)
      → Names r job_id i
      → Found r job_id (suc i) left l
      → Found r job_id i (suc left) (i ∷ l)
  Found-hit r job_id i left [] here found = (
    (omega arith),
    (omega arith),
    here,
    λ k lo hi names. elim (Bool-cases (nat_eqb k i)) [
      | inl e ↦ ground arith
      | inr e ↦ absurd (found k (ground arith) (ground arith) names)
    ],
  )
  Found-hit r job_id i left (s ∷ l) here found = tt

  matching-Found :
      (job_id : Text) (r : Runtime) (i left : ℕ) (l : List ℕ)
      → matching job_id r i left ≡ ok l
      → Found r job_id i left l
  unfolding matching
  matching-Found job_id r i zero l h =
      subst (Found r job_id i zero) (ok-injective _ _ h) (λ k lo hi names. omega arith)
  matching-Found job_id r i (suc left) l h =
      let (m, read, more) = >>=-eq-ok (active_metadata bad_json r i) _ h in
      let (rest, later, last) = >>=-eq-ok (matching job_id r (suc i) left) _ more in
      let found = matching-Found job_id r (suc i) left rest later in
      let (is_named, not_named) = matches_job-Names job_id r i m read in
      subst (Found r job_id i (suc left)) (ok-injective _ _ last)
        (elim (Bool-cases (matches_job job_id m)) [
          | inl e ↦ rw e (Found-hit r job_id i left rest (is_named e) found)
          | inr e ↦ rw e (Found-skip r job_id i left rest (not_named e) found)
        ])

  -- What a cancellation that is sent out rests on.
  pub record Cancellable (job_id : Text) (r : Runtime) (slot : ℕ) : Type 0 where
    pub within :
        (n : ℕ) × (capacity r ≡ ok n) × (slot < n) × ((k : ℕ) → k < n → Names r job_id k → k ≡ slot)
    pub named : Names r job_id slot
    pub locked : slot_locked r slot ≡ true
    pub well_formed : (length job_id ≡ 16) × (all is_hexdigit job_id ≡ true)

  request-ok :
      (r : Runtime) (s slot : ℕ) (job_id : Text)
      → request r s job_id ≡ ok slot
      → (s ≡ slot)
        × (slot_locked r s ≡ true)
        × (length job_id ≡ 16)
        × (all is_hexdigit job_id ≡ true)
  unfolding request control_name
  request-ok r s slot job_id h = elim (Bool-cases (slot_locked r s)) [
    | inr e ↦ absurd (cc (if_true (not (slot_locked r s)) _ _ (ap not e)))
    | inl e ↦
        let named : control_name namespace job_id >>= (λ name. ok s) ≡ ok slot =
          sym (if_false (not (slot_locked r s)) _ _ (not-true _ e)) ∙ h in
        let (name, path, last) = >>=-eq-ok (control_name namespace job_id) _ named in
        (ok-injective _ _ last, e, (ground arith), (ground arith))
  ]

  chosen-Cancellable :
      (job_id : Text) (r : Runtime) (n slot : ℕ) (l : List ℕ)
      → capacity r ≡ ok n
      → Found r job_id 0 n l
      → chosen r job_id l ≡ ok slot
      → Cancellable job_id r slot
  unfolding chosen ambiguous
  chosen-Cancellable job_id r n slot [] read found h = absurd (cc)
  chosen-Cancellable job_id r n slot (s ∷ t ∷ l) read found h = absurd (cc)
  chosen-Cancellable job_id r n slot (s ∷ []) read (lo, hi, here, only) h =
      let (same, locked, sixteen, hex) = request-ok r s slot job_id h in
      subst (Cancellable job_id r) same (record {
        within =
            (n, read, (omega arith), λ k below names. only k (omega arith) (omega arith) names);
        named = here;
        locked = locked;
        well_formed = (sixteen, hex);
      })

  pub cancel-Cancellable :
      (job_id : Text) (r : Runtime) (slot : ℕ)
      → cancel job_id r ≡ ok slot
      → Cancellable job_id r slot
  unfolding cancel
  cancel-Cancellable job_id r slot h =
      let (n, read, more) = >>=-eq-ok (capacity r) _ h in
      let (l, listed, last) = >>=-eq-ok (matching job_id r 0 n) _ more in
      chosen-Cancellable job_id r n slot l read (matching-Found job_id r 0 n l listed) last

-- What a run on concrete arguments computes through.
unfoldable pub runs : Unit {0}
unfolding matches_job matching ambiguous request chosen cancel
runs = tt
