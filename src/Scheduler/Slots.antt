-- ===== src/Scheduler/Slots.antt =====
-- What `try_slots` of src/scheduler/mod.rs takes.
use agent_gov.Base.{
  ℕ, zero, suc, ◌+◌, ◌%◌, ◌<◌, ◌≡◌, refl, ◌≢◌, ap, sym, subst, ◌∙◌, ◌⊎◌, inl, inr, Bool, true,
  false, not, ◌||◌, Option, none, some, nat_eqb, if◌then◌else◌, if_true, if_false, arith,
  Bool-cases,
}
use native.Mathlib.Nat.{mod-lt}
use agent_gov.Scheduler.{
  Runtime, Slot, ActiveMetadata, child_alive, ActiveFile, missing, unreadable, holds, set_slot,
  is_alive, quarantine, slot_quarantined, is_free, try_from, drop_permit, unlock_slot,
  remove_active,
}

-- No process with this id lives, if an id is given.
abbrev pub HasNoProcess : (ℕ → Bool) → Option ℕ → Type 0
HasNoProcess alive none = Unit
HasNoProcess alive (some pid) = alive pid ≡ false

-- Nobody runs behind the file of a slot: there is none, or it is readable, the supervisor that it names
-- is dead, and so is the child, if it names one.
abbrev pub IsVacant : Runtime → ActiveFile → Type 0
IsVacant r missing = Unit
IsVacant r unreadable = ⊥
IsVacant r (holds m) =
    (r.process_alive m.supervisor_pid ≡ false) × HasNoProcess r.process_alive m.child_pid

no_child :
    (alive : ℕ → Bool) (child : Option ℕ)
    → child_alive alive child ≡ false
    → HasNoProcess alive child
no_child alive none h = tt
no_child alive (some pid) h = h

dead-IsVacant : (r : Runtime) (m : ActiveMetadata) → is_alive r m ≡ false → IsVacant r (holds m)
dead-IsVacant r m h = (ground arith, no_child r.process_alive m.child_pid (ground arith))

-- What a search for a slot leaves as it was: it clears at most files behind which nobody lives.
pub record OnlyClears (r r' : Runtime) : Type 0 where
  pub draining : r'.draining ≡ r.draining
  pub waiters : r'.waiters ≡ r.waiters
  pub process_alive : r'.process_alive ≡ r.process_alive
  pub locks : (i : ℕ) → (r'.slot i).lock ≡ (r.slot i).lock
  pub vacant : (i : ℕ) → IsVacant r' (r'.slot i).active → IsVacant r (r.slot i).active

OnlyClears-refl : (r : Runtime) → OnlyClears r r
OnlyClears-refl r = record {
  draining = refl;
  waiters = refl;
  process_alive = refl;
  locks = λ i. refl;
  vacant = λ i v. v;
}

OnlyClears-trans : {a b c : Runtime} → OnlyClears a b → OnlyClears b c → OnlyClears a c
OnlyClears-trans f g = record {
  draining = g.draining ∙ f.draining;
  waiters = g.waiters ∙ f.waiters;
  process_alive = g.process_alive ∙ f.process_alive;
  locks = λ i. g.locks i ∙ f.locks i;
  vacant = λ i v. f.vacant i (g.vacant i v);
}

-- A slot that is not left alone has been vacant.
quarantine-IsVacant :
    (r : Runtime) (i : ℕ) (file : ActiveFile) → (quarantine r i file).0 ≡ false → IsVacant r file
unfolding quarantine
quarantine-IsVacant r i missing h = tt
quarantine-IsVacant r i unreadable h = absurd (cc)
quarantine-IsVacant r i (holds m) h = dead-IsVacant r m (ground arith)

set_missing-OnlyClears :
    (r : Runtime) (i : ℕ)
    → IsVacant r (r.slot i).active
    → OnlyClears r (set_slot r i (record (r.slot i) { active = missing }))
unfolding set_slot
set_missing-OnlyClears r i free = record {
  draining = refl;
  waiters = refl;
  process_alive = refl;
  locks = λ j. lock_of j;
  vacant = λ j. vacant_of j;
}
  where
    lock_of :
        (j : ℕ)
        → (if nat_eqb j i then record (r.slot i) { active = missing } else r.slot j).lock
          ≡ (r.slot j).lock
    lock_of j = elim (Bool-cases (nat_eqb j i)) [
      | inl e ↦ let same : j ≡ i = ground arith in rw e (ap (λ k. (r.slot k).lock) (sym same))
      | inr e ↦ rw e
    ]

    vacant_of :
        (j : ℕ)
        → IsVacant r
            (if nat_eqb j i then record (r.slot i) { active = missing } else r.slot j).active
        → IsVacant r (r.slot j).active
    vacant_of j = elim (Bool-cases (nat_eqb j i)) [
      | inl e ↦
          let same : j ≡ i = ground arith in
          λ v. subst (λ k. IsVacant r (r.slot k).active) (sym same) free
      | inr e ↦ rw e (λ v. v)
    ]

quarantine-OnlyClears :
    (r : Runtime) (i : ℕ) (file : ActiveFile)
    → (r.slot i).active ≡ file
    → OnlyClears r (quarantine r i file).1
unfolding quarantine
quarantine-OnlyClears r i missing e = OnlyClears-refl r
quarantine-OnlyClears r i unreadable e = OnlyClears-refl r
quarantine-OnlyClears r i (holds m) e = elim (Bool-cases (is_alive r m)) [
  | inl lives ↦ rw lives (OnlyClears-refl r)
  | inr dead ↦
      rw dead (set_missing-OnlyClears r i (subst (IsVacant r) (sym e) (dead-IsVacant r m dead)))
]

slot_quarantined-OnlyClears : (r : Runtime) (i : ℕ) → OnlyClears r (slot_quarantined r i).1
unfolding slot_quarantined
slot_quarantined-OnlyClears r i = quarantine-OnlyClears r i (r.slot i).active refl

-- What a client that got a slot has got.
pub record Got (n pid slot : ℕ) (r r' : Runtime) : Type 0 where
  pub within : slot < n
  pub unlocked : (r.slot slot).lock ≡ none
  pub was_vacant : IsVacant r (r.slot slot).active
  pub locked : (r'.slot slot).lock ≡ some pid
  pub others : (i : ℕ) → i ≢ slot → (r'.slot i).lock ≡ (r.slot i).lock
  pub waiters : r'.waiters ≡ r.waiters
  pub draining : r'.draining ≡ r.draining

is_free-none : (l : Option ℕ) → is_free l ≡ true → l ≡ none
unfolding is_free
is_free-none none h = refl
is_free-none (some p) h = absurd (cc)

pub set_slot_self : (r : Runtime) (i : ℕ) (s : Slot) → (set_slot r i s).slot i ≡ s
unfolding set_slot
set_slot_self r i s = if_true (nat_eqb i i) _ _ (ground arith)

pub set_slot-ne : (r : Runtime) (i j : ℕ) (s : Slot) → j ≢ i → (set_slot r i s).slot j ≡ r.slot j
unfolding set_slot
set_slot-ne r i j s h = if_false (nat_eqb j i) _ _ (ground arith)

-- Nobody holds a slot whose permit was dropped.
pub drop_permit-lock_self :
    (removed : Bool) (i : ℕ) (r : Runtime) → ((drop_permit removed i r).slot i).lock ≡ none
unfolding drop_permit unlock_slot
drop_permit-lock_self removed i r = ap (λ s. s.lock) (set_slot_self (remove_active removed i r) i _)

remove_active-ne :
    (removed : Bool) (r : Runtime) (i j : ℕ) → j ≢ i → (remove_active removed i r).slot j ≡ r.slot j
unfolding remove_active
remove_active-ne true r i j ne = set_slot-ne r i j _ ne
remove_active-ne false r i j ne = refl

-- Dropping a permit leaves the other slots alone.
pub drop_permit-ne :
    (removed : Bool) (r : Runtime) (i j : ℕ) → j ≢ i → (drop_permit removed i r).slot j ≡ r.slot j
unfolding drop_permit unlock_slot
drop_permit-ne removed r i j ne =
    set_slot-ne (remove_active removed i r) i j _ ne ∙ remove_active-ne removed r i j ne

slot_quarantined-IsVacant :
    (r : Runtime) (i : ℕ) → (slot_quarantined r i).0 ≡ false → IsVacant r (r.slot i).active
unfolding slot_quarantined
slot_quarantined-IsVacant r i h = quarantine-IsVacant r i (r.slot i).active h

-- The round of the search in which the slot is taken.
take-Got :
    (n pid slot : ℕ) (r : Runtime)
    → slot < n
    → (slot_quarantined r slot).0 ≡ false
    → is_free ((slot_quarantined r slot).1.slot slot).lock ≡ true
    → Got n pid slot r (
        set_slot
          (slot_quarantined r slot).1
          slot
          (record ((slot_quarantined r slot).1.slot slot) { lock = some pid }))
unfolding set_slot
take-Got n pid slot r within free unlocked =
    let keeps = slot_quarantined-OnlyClears r slot in
    record {
      within = within;
      unlocked = sym (keeps.locks slot) ∙ is_free-none _ unlocked;
      was_vacant = slot_quarantined-IsVacant r slot free;
      locked = ap (λ s. s.lock) (set_slot_self (slot_quarantined r slot).1 slot _);
      others = λ i ne.
          ap (λ s. s.lock) (set_slot-ne (slot_quarantined r slot).1 slot i _ ne) ∙ keeps.locks i;
      waiters = keeps.waiters;
      draining = keeps.draining;
    }

Got-before :
    {n pid slot : ℕ} {r cleared r' : Runtime}
    → OnlyClears r cleared
    → Got n pid slot cleared r'
    → Got n pid slot r r'
Got-before keeps got = record {
  within = got.within;
  unlocked = sym (keeps.locks _) ∙ got.unlocked;
  was_vacant = keeps.vacant _ got.was_vacant;
  locked = got.locked;
  others = λ i ne. got.others i ne ∙ keeps.locks i;
  waiters = got.waiters ∙ keeps.waiters;
  draining = got.draining ∙ keeps.draining;
}

-- A search that has taken no slot, or has taken one.
pub try_from-result :
    (rounds offset n pid : ℕ) (r : Runtime)
    → 0 < n
    → ((try_from rounds offset n pid r).0 ≡ none) × OnlyClears r (try_from rounds offset n pid r).1
      ⊎ ((slot : ℕ) × ((try_from rounds offset n pid r).0 ≡ some slot)
          × Got n pid slot r (try_from rounds offset n pid r).1)
unfolding try_from
try_from-result zero offset n pid r pos = inl (refl, OnlyClears-refl r)
try_from-result (suc rounds) offset n pid r pos =
    let slot = (pid + offset) % n in
    let cleared = (slot_quarantined r slot).1 in
    let keeps : OnlyClears r cleared = slot_quarantined-OnlyClears r slot in
    elim (Bool-cases ((slot_quarantined r slot).0 || not (is_free (cleared.slot slot).lock))) [
      | inl skip ↦ rw skip (elim (try_from-result rounds (offset + 1) n pid cleared pos) [
        | inl (nothing, clears) ↦ inl (nothing, OnlyClears-trans keeps clears)
        | inr (found, e, got) ↦ inr (found, e, Got-before keeps got)
      ])
      | inr take ↦ rw take (
          inr (
            slot,
            refl,
            take-Got n pid slot r (mod-lt (pid + offset) pos) (ground arith) (ground arith),
          ))
    ]
