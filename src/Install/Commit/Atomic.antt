-- ===== src/Install/Commit/Atomic.antt =====
-- All or nothing: how `commit_settings` of src/install/mod.rs ends, whatever its writes do.
use agent_gov.Base.{
  ◌≡◌, refl, ◌≢◌, ap, sym, subst, ◌∙◌, Bool, Option, none, some, List, [], ◌∷◌, map, Text, FilePath,
  text_eqb, text_eqb_iff, find, arith, Bool-cases, inl, inr, ◌⊎◌,
}
use agent_gov.Error.{Result, ok, err, panicked, GovError}
use agent_gov.Install.Files.{Disk}
use agent_gov.Install.Files.Frames.{IsCalm, IsCalm->>, >>-eq-ok}
use agent_gov.Install.Commit.{
  PreparedSettings, manifest_path, restore, restore_found, rollback_settings, rollback_message,
  reverse_onto, apply_settings, after_rollback, settle, commit_from, commit_settings,
}
use agent_gov.Install.Commit.Frames.{
  Apart, restore-Spares, restore-IsCalm, restore-restored, apply_settings-Spares,
  apply_settings-IsCalm, apply_settings-applied,
}

-- The entry is in the list.
abbrev pub IsIn : {A : Type 0} → A → List A → Type 0
IsIn a [] = ⊥
IsIn a (x ∷ xs) = (a ≡ x) ⊎ IsIn a xs

-- No file of the one agent is a file of the other's settings, or a file of its own twice.
pub record AreApart (s t : PreparedSettings) : Type 0 where
  pub settings : Apart s t.path
  pub manifest : Apart s (manifest_path t.path)

-- The files of the agents are different files: two entries are one, or take other files; and in no
-- entry is one file taken for two.
pub record IsSeparate (prepared : List PreparedSettings) : Type 0 where
  pub entries :
      (s t : PreparedSettings) → IsIn s prepared → IsIn t prepared → (s ≡ t) ⊎ AreApart s t
  pub within : (s : PreparedSettings) → IsIn s prepared → manifest_path s.path ≢ s.path

-- The disk holds what was found, or what was to be written.
abbrev pub HasOriginal : Disk → PreparedSettings → Type 0
HasOriginal d s =
    (d.content s.path ≡ s.original_bytes)
    × (d.content (manifest_path s.path) ≡ s.original_manifest_bytes)

abbrev pub HasUpdated : Disk → PreparedSettings → Type 0
HasUpdated d s =
    (d.content s.path ≡ s.updated_bytes)
    × (d.content (manifest_path s.path) ≡ s.updated_manifest_bytes)

find-IsIn :
    (p : FilePath) (xs : List PreparedSettings) (s : PreparedSettings)
    → find (λ t. text_eqb t.path p) xs ≡ some s
    → IsIn s xs × (s.path ≡ p)
unfolding find
find-IsIn p [] s h = absurd (cc)
find-IsIn p (x ∷ xs) s h = elim (Bool-cases (text_eqb x.path p)) [
  | inl e ↦
      let same : x ≡ s = ground arith in
      (inl (sym same), sym (ap (λ t. t.path) same) ∙ (text_eqb_iff x.path p).0 e)
  | inr e ↦
      let rest : find (λ t. text_eqb t.path p) xs ≡ some s = ground arith in
      let (mem, path) = find-IsIn p xs s rest in (inr mem, path)
]

module _ (prepared : List PreparedSettings) (separate : IsSeparate prepared) where
  -- What one entry holds survives the restoring of another, or is restored.
  restore-keeps :
      (s t : PreparedSettings) (d d' : Disk)
      → IsIn s prepared
      → IsIn t prepared
      → restore t d ≡ (ok tt, d')
      → HasOriginal d s
      → HasOriginal d' s
  restore-keeps s t d d' hs ht h (a, b) = elim (separate.entries t s ht hs) [
    | inl same ↦ subst (HasOriginal d') same (restore-restored t d d' (separate.within t ht) h)
    | inr apart ↦
        let end = sym (ap (λ (r : Result (Unit {0}) × Disk). r.1) h) in
        (
          ap (λ (k : Disk). k.content s.path) end
              ∙ restore-Spares t s.path apart.settings.settings apart.settings.manifest d
              ∙ a,
          ap (λ (k : Disk). k.content (manifest_path s.path)) end
              ∙ restore-Spares t (manifest_path s.path) apart.manifest.settings
                  apart.manifest.manifest d
              ∙ b,
        )
  ]

  restore_found-eq-ok :
      (o : Option PreparedSettings) (d d' : Disk)
      → restore_found o d ≡ (ok tt, d')
      → (t : PreparedSettings) × (o ≡ some t) × (restore t d ≡ (ok tt, d'))
  unfolding restore_found
  restore_found-eq-ok none d d' h = absurd (cc)
  restore_found-eq-ok (some t) d d' h = (t, refl, h)

  -- A rollback that ends well: each entry whose path it goes over is restored, and each other one
  -- holds what it held.
  rollback-restored :
      (ps : List FilePath) (d d' : Disk)
      → rollback_settings prepared ps d ≡ (ok tt, d')
      → (s : PreparedSettings) → IsIn s prepared
      → IsIn s.path ps ⊎ HasOriginal d s
      → HasOriginal d' s
  unfolding rollback_settings
  rollback-restored [] d d' h s hs (inl never) = absurd never
  rollback-restored [] d d' h s hs (inr held) =
      subst (λ k. HasOriginal k s) (ap (λ (r : Result (Unit {0}) × Disk). r.1) h) held
  rollback-restored (p ∷ ps) d d' h s hs which =
      let (k, first, later) =
        >>-eq-ok (restore_found (find (λ t. text_eqb t.path p) prepared))
          (rollback_settings prepared ps) d d' tt h in
      let (t, found, restored) = restore_found-eq-ok _ d k first in
      let (ht, path) = find-IsIn p prepared t found in
      rollback-restored ps k d' later s hs (elim which [
        | inr held ↦ inr (restore-keeps s t d k hs ht restored held)
        | inl (inr below) ↦ inl below
        | inl (inl here) ↦ elim (separate.entries s t hs ht) [
          | inl same ↦ inr (
              subst (HasOriginal k) (sym same)
                (restore-restored t d k (separate.within t ht) restored))
          | inr apart ↦ absurd (apart.settings.settings (here ∙ sym path))
        ]
      ])

  rollback-IsCalm : (ps : List FilePath) → IsCalm (rollback_settings prepared ps)
  unfolding rollback_settings restore_found
  rollback-IsCalm [] = λ d. cc
  rollback-IsCalm (p ∷ ps) =
      IsCalm->> (restore_found (find (λ t. text_eqb t.path p) prepared))
        (rollback_settings prepared ps) (found_IsCalm (find (λ t. text_eqb t.path p) prepared))
        (rollback-IsCalm ps)
    where
      found_IsCalm : (o : Option PreparedSettings) → IsCalm (restore_found o)
      found_IsCalm none = λ d. cc
      found_IsCalm (some t) = restore-IsCalm t

  module _ (hash_hex : Text → Text) (display : GovError → Text) where
    -- How a commit may end: every file is written and its paths are told in order; or there is an
    -- error, and every file is what it was, unless the error is that the rollback failed as well.
    abbrev pub AllOrNothing : Result (List FilePath) × Disk → Type 0
    AllOrNothing (ok paths, d) =
        (paths ≡ map (λ s. s.path) prepared)
        × ((s : PreparedSettings) → IsIn s prepared → HasUpdated d s)
    AllOrNothing (err error, d) =
        ((s : PreparedSettings) → IsIn s prepared → HasOriginal d s)
        ⊎ ((first : GovError) × (second : GovError) × (error
              ≡ rollback_message first second display))
    AllOrNothing (panicked, d) = ⊥

    -- In the middle of a commit: the entries that are committed are written, the others are as
    -- they were.
    abbrev Halfway : List FilePath → List PreparedSettings → Disk → Type 0
    Halfway committed rest d =
        (s : PreparedSettings)
        → IsIn s prepared
        → IsIn s.path committed × HasUpdated d s ⊎ IsIn s rest × HasOriginal d s

    after_rollback-AllOrNothing :
        (error : GovError) (ps : List FilePath) (d : Disk)
        → ((s : PreparedSettings) → IsIn s prepared → IsIn s.path ps ⊎ HasOriginal d s)
        → AllOrNothing (after_rollback hash_hex display error (rollback_settings prepared ps d))
    unfolding after_rollback
    after_rollback-AllOrNothing error ps d which = go (rollback_settings prepared ps d) refl
      where
        go :
            (r : Result (Unit {0}) × Disk)
            → rollback_settings prepared ps d ≡ r
            → AllOrNothing (after_rollback hash_hex display error r)
        go (ok u, k) e = inl (λ s hs. rollback-restored ps d k e s hs (which s hs))
        go (err second, k) e = inr (error, second, refl)
        go (panicked, k) e =
            absurd (rollback-IsCalm ps d (ap (λ (r : Result (Unit {0}) × Disk). r.0) e))

    -- What the writing of one entry leaves of another.
    apply-keeps :
        (b : Bool) (t s : PreparedSettings) (d k : Disk)
        → AreApart t s
        → (apply_settings hash_hex b t d).1 ≡ k
        → (k.content s.path ≡ d.content s.path)
          × (k.content (manifest_path s.path) ≡ d.content (manifest_path s.path))
    apply-keeps b t s d k apart h = (
      ap (λ (j : Disk). j.content s.path) (sym h)
          ∙ apply_settings-Spares hash_hex b t s.path apart.settings d,
      ap (λ (j : Disk). j.content (manifest_path s.path)) (sym h)
          ∙ apply_settings-Spares hash_hex b t (manifest_path s.path) apart.manifest d,
    )

    step-Halfway :
        (b : Bool) (committed : List FilePath) (t : PreparedSettings) (ss : List PreparedSettings)
        (d k : Disk)
        → IsIn t prepared
        → Halfway committed (t ∷ ss) d
        → apply_settings hash_hex b t d ≡ (ok tt, k)
        → Halfway (t.path ∷ committed) ss k
    step-Halfway b committed t ss d k ht half h s hs = elim (separate.entries t s ht hs) [
      | inl same ↦ inl (
        inl (ap (λ x. x.path) (sym same)),
        subst (HasUpdated k) same
            (apply_settings-applied hash_hex b t d k (separate.within t ht) h),
      )
      | inr apart ↦
          let (p, m) = apply-keeps b t s d k apart (ap (λ (r : Result (Unit {0}) × Disk). r.1) h) in
          elim (half s hs) [
            | inl (mem, (u, v)) ↦ inl (inr mem, (p ∙ u, m ∙ v))
            | inr (inl same, held) ↦ absurd (apart.settings.settings (ap (λ x. x.path) (sym same)))
            | inr (inr mem, (u, v)) ↦ inr (mem, (p ∙ u, m ∙ v))
          ]
    ]

    -- The entries that a failed step leaves to the rollback, and those that it has not touched.
    failed-Halfway :
        (b : Bool) (committed : List FilePath) (t : PreparedSettings) (ss : List PreparedSettings)
        (d k : Disk)
        → IsIn t prepared
        → Halfway committed (t ∷ ss) d
        → (apply_settings hash_hex b t d).1 ≡ k
        → (s : PreparedSettings) → IsIn s prepared
        → IsIn s.path (t.path ∷ committed) ⊎ HasOriginal k s
    failed-Halfway b committed t ss d k ht half h s hs = elim (separate.entries t s ht hs) [
      | inl same ↦ inl (inl (ap (λ x. x.path) (sym same)))
      | inr apart ↦
          let (p, m) = apply-keeps b t s d k apart h in
          elim (half s hs) [
            | inl (mem, held) ↦ inl (inr mem)
            | inr (mem, (u, v)) ↦ inr (p ∙ u, m ∙ v)
          ]
    ]

    commit_from-AllOrNothing :
        (b : Bool) (committed : List FilePath) (rest : List PreparedSettings) (d : Disk)
        → reverse_onto committed (map (λ s. s.path) rest) ≡ map (λ s. s.path) prepared
        → ((s : PreparedSettings) → IsIn s rest → IsIn s prepared)
        → Halfway committed rest d
        → AllOrNothing (commit_from hash_hex display prepared b committed rest d)
    unfolding commit_from settle reverse_onto
    commit_from-AllOrNothing b committed [] d e sub half =
        (e, λ s hs. elim (half s hs) [ inl (mem, held) ↦ held | inr (never, held) ↦ absurd never ])
    commit_from-AllOrNothing b committed (t ∷ ss) d e sub half =
        go (apply_settings hash_hex b t d) refl (λ k halfway.
          commit_from-AllOrNothing b (t.path ∷ committed) ss k e (λ s mem. sub s (inr mem)) halfway)
      where
        go :
            (r : Result (Unit {0}) × Disk)
            → apply_settings hash_hex b t d ≡ r
            → ((k : Disk)
                → Halfway (t.path ∷ committed) ss k
                → AllOrNothing (commit_from hash_hex display prepared b (t.path ∷ committed) ss k))
            → AllOrNothing (
                settle hash_hex display prepared committed t.path
                  (commit_from hash_hex display prepared b (t.path ∷ committed) ss)
                  r)
        go (ok u, k) h later = later k (step-Halfway b committed t ss d k (sub t (inl refl)) half h)
        go (err error, k) h later = after_rollback-AllOrNothing error (t.path ∷ committed) k (
            failed-Halfway b committed t ss d k (sub t (inl refl)) half
              (ap (λ (r : Result (Unit {0}) × Disk). r.1) h))
        go (panicked, k) h later =
            absurd
              (apply_settings-IsCalm hash_hex b t d (ap (λ (r : Result (Unit {0}) × Disk). r.0) h))

    -- Whatever the writes and removals of a commit do, it does not panic, and it ends in one of three
    -- ways: all settings and manifests are written and their paths are told in order; or it reports
    -- an error and all of them hold what they held before; or it reports that the rollback failed as
    -- well. The files of the agents are to be different files that hold the snapshots.
    pub commit_settings-AllOrNothing :
        (create_backup : Bool) (d : Disk)
        → ((s : PreparedSettings) → IsIn s prepared → HasOriginal d s)
        → AllOrNothing (commit_settings hash_hex display prepared create_backup d)
    unfolding commit_settings reverse_onto
    commit_settings-AllOrNothing create_backup d held =
        commit_from-AllOrNothing create_backup [] prepared d refl (λ s mem. mem)
          (λ s mem. inr (mem, held s mem))
