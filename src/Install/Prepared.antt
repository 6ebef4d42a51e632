-- ===== src/Install/Prepared.antt =====
-- src/install/mod.rs: preparing the settings only reads, and what it tells of them is what the commit
-- of them can put back.
use agent_gov.Base.{
  ◌*◌, ltb, length, ◌≡◌, refl, ap, sym, subst, ◌∙◌, true, false, Option, none, some, List, [], ◌∷◌,
  Text, FilePath, if_false, arith, Bool-cases, inl, inr,
}
use agent_gov.Error.{Result, ok, ok-injective, >>=-eq-ok}
use agent_gov.Json.{Value}
use agent_gov.Install.Files.{Disk, Io, ◌>>◌, pure}
use agent_gov.Install.Commit.{PreparedSettings, manifest_path, commit_settings}
use agent_gov.Install.Commit.Atomic.{
  IsIn, IsSeparate, HasOriginal, AllOrNothing, commit_settings-AllOrNothing,
}
use agent_gov.Install.Manifest.{read_manifest, install_manifest, uninstall_action}
use agent_gov.Install.Hooks.{Agent}
use agent_gov.Install.{
  Surroundings, settings_path, read_json_or_empty, json_or_empty, checked_root, patched,
  prepare_install, prepare_uninstall, binary_or, updated_by, surgically, prepare_all,
  validate_executable_path, validate_optional, user_home, with_settings, install, uninstall,
}
use agent_gov.Install.Reading.{
  IsReading->>=, >>=-eq-ok_reading, >>=-eq-ok_io, run_ok, pure->>-ok, install_manifest-IsReading,
  uninstall_action-IsReading, read_manifest-bytes,
}

module _ (env : Surroundings) where
  checked_root-bytes :
      (path : FilePath) (bytes : Text) (root : Value) (o : Option Text) (v : Value)
      → checked_root env path bytes root ≡ ok (o, v)
      → o ≡ some bytes
  unfolding checked_root
  checked_root-bytes path bytes root o v h = ground arith

  json_or_empty-bytes :
      (path : FilePath) (found o : Option Text) (v : Value)
      → json_or_empty env path found ≡ ok (o, v)
      → o ≡ found
  unfolding json_or_empty
  json_or_empty-bytes path none o v h = ground arith
  json_or_empty-bytes path (some bytes) o v h =
      elim (Bool-cases (ltb (1024 * 1024) (length bytes))) [
        | inl e ↦ absurd (ground (arith, e, h))
        | inr e ↦
            let (root, parsed, last) =
              >>=-eq-ok (env.from_slice bytes) (checked_root env path bytes)
                (sym (if_false (ltb (1024 * 1024) (length bytes)) _ _ e) ∙ h) in
            checked_root-bytes path bytes root o v last
      ]

  pub read_json_or_empty-bytes :
      (path : FilePath) (d : Disk) (o : Option Text) (v : Value)
      → (read_json_or_empty env path d).0 ≡ ok (o, v)
      → o ≡ d.content path
  unfolding read_json_or_empty
  read_json_or_empty-bytes path d o v h = json_or_empty-bytes path (d.content path) o v h

  prepared_HasOriginal :
      (path : FilePath) (found manifest_found : Option Text) (updated : Option Text)
      (manifest : Option Text) (d e : Disk) (s : PreparedSettings)
      → pure
          (ok (record {
            path = path;
            original_bytes = found;
            updated_bytes = updated;
            original_manifest_bytes = manifest_found;
            updated_manifest_bytes = manifest;
          }))
          d
        ≡ (ok s, e)
      → found ≡ d.content path
      → manifest_found ≡ d.content (manifest_path path)
      → (e ≡ d) × (s.path ≡ path) × HasOriginal d s
  prepared_HasOriginal path found manifest_found updated manifest d e s h a b =
      let same : record {
        path = path;
        original_bytes = found;
        updated_bytes = updated;
        original_manifest_bytes = manifest_found;
        updated_manifest_bytes = manifest;
      }
          ≡ s =
        ok-injective _ _ (ap (λ (r : Result PreparedSettings × Disk). r.0) h) in
      subst (λ t. (e ≡ d) × (t.path ≡ path) × HasOriginal d t) same
        (sym (ap (λ (r : Result PreparedSettings × Disk). r.1) h), refl, (sym a, sym b))

  -- What an installation prepares for an agent is a snapshot of its files, and the disk stays.
  prepare_install-HasOriginal :
      (binary : FilePath) (rtk : Option FilePath) (home : FilePath) (agent : Agent) (d e : Disk)
      (s : PreparedSettings)
      → prepare_install env binary rtk home agent d ≡ (ok s, e)
      → (e ≡ d) × (s.path ≡ settings_path home agent) × HasOriginal d s
  unfolding prepare_install read_json_or_empty read_manifest
  prepare_install-HasOriginal binary rtk home agent d e s h =
      let path = settings_path home agent in
      let ((found, root), ready, h1) =
        >>=-eq-ok_reading (pure (env.ensure_parent path) >> read_json_or_empty env path) _ d s e
          (IsReading->>= (pure (env.ensure_parent path)) (λ u. read_json_or_empty env path)
            (λ k. refl) (λ u k. refl))
          h in
      let (updated, ok2, h2) =
        >>=-eq-ok_reading (pure (patched env agent root binary rtk)) _ d s e (λ k. refl) h1 in
      let (bytes, ok3, h3) =
        >>=-eq-ok_reading (pure (env.to_vec_pretty updated)) _ d s e (λ k. refl) h2 in
      let ((manifest_found, previous), ok4, h4) =
        >>=-eq-ok_reading (read_manifest env.tools path) _ d s e (λ k. refl) h3 in
      let (manifest, ok5, h5) =
        >>=-eq-ok_reading (install_manifest env.tools path found previous bytes (some binary)) _ d s
          e (install_manifest-IsReading env.tools path found previous bytes (some binary)) h4 in
      let (manifest_bytes, ok6, h6) =
        >>=-eq-ok_reading (pure (env.tools.write_manifest_json manifest)) _ d s e (λ k. refl) h5 in
      let found_eq : found ≡ d.content path =
        read_json_or_empty-bytes path d found root (
          pure->>-ok (env.ensure_parent path) (read_json_or_empty env path) d (found, root)
            ready) in
      let manifest_eq : manifest_found ≡ d.content (manifest_path path) =
        read_manifest-bytes env.tools path d manifest_found previous ok4 in
      prepared_HasOriginal path found manifest_found (some bytes) (some manifest_bytes) d e s h6
        found_eq manifest_eq

  pub prepare_uninstall-HasOriginal :
      (binary home : FilePath) (agent : Agent) (d e : Disk) (s : PreparedSettings)
      → prepare_uninstall env binary home agent d ≡ (ok s, e)
      → (e ≡ d) × (s.path ≡ settings_path home agent) × HasOriginal d s
  unfolding prepare_uninstall read_json_or_empty read_manifest
  prepare_uninstall-HasOriginal binary home agent d e s h =
      let path = settings_path home agent in
      let ((found, root), ok1, h1) =
        >>=-eq-ok_reading (read_json_or_empty env path) _ d s e (λ k. refl) h in
      let ((manifest_found, manifest), ok2, h2) =
        >>=-eq-ok_reading (read_manifest env.tools path) _ d s e (λ k. refl) h1 in
      let (installed, ok3, h3) =
        >>=-eq-ok_reading (pure (binary_or env binary manifest)) _ d s e (λ k. refl) h2 in
      let (action, ok4, h4) =
        >>=-eq-ok_reading (uninstall_action env.tools path found manifest) _ d s e
          (uninstall_action-IsReading env.tools path found manifest) h3 in
      let (updated, ok5, h5) =
        >>=-eq-ok_reading (pure (updated_by env action (surgically env agent root installed))) _ d s
          e (λ k. refl) h4 in
      prepared_HasOriginal path found manifest_found updated none d e s h5
        (read_json_or_empty-bytes path d found root ok1)
        (read_manifest-bytes env.tools path d manifest_found manifest ok2)

  -- The step is a snapshot of the disk, which it leaves as it is.
  abbrev Snapshots : (Agent → Io PreparedSettings) → Type 0
  Snapshots prepare =
      (agent : Agent) (d e : Disk) (s : PreparedSettings)
      → prepare agent d ≡ (ok s, e)
      → (e ≡ d) × HasOriginal d s

  prepare_all-HasOriginal :
      (prepare : Agent → Io PreparedSettings)
      → Snapshots prepare
      → (agents : List Agent) (d e : Disk) (ss : List PreparedSettings)
      → prepare_all env prepare agents d ≡ (ok ss, e)
      → (e ≡ d) × ((s : PreparedSettings) → IsIn s ss → HasOriginal d s)
  unfolding prepare_all
  prepare_all-HasOriginal prepare snapshots [] d e ss h =
      let same : [] ≡ ss =
        ok-injective _ _ (ap (λ (r : Result (List PreparedSettings) × Disk). r.0) h) in
      (
        sym (ap (λ (r : Result (List PreparedSettings) × Disk). r.1) h),
        subst (λ l. (s : PreparedSettings) → IsIn s l → HasOriginal d s) same
            (λ s never. absurd never),
      )
  prepare_all-HasOriginal prepare snapshots (agent ∷ agents) d e ss h =
      let (s, k, first, h1) = >>=-eq-ok_io (prepare agent) _ d ss e h in
      let (k_d, held) = snapshots agent d k s first in
      let (rest, l, later, h2) = >>=-eq-ok_io (prepare_all env prepare agents) _ k ss e h1 in
      let (l_k, all) = prepare_all-HasOriginal prepare snapshots agents k l rest later in
      let same : s ∷ rest ≡ ss =
        ok-injective _ _ (ap (λ (r : Result (List PreparedSettings) × Disk). r.0) h2) in
      (
        sym (ap (λ (r : Result (List PreparedSettings) × Disk). r.1) h2) ∙ l_k ∙ k_d,
        subst (λ ss. (t : PreparedSettings) → IsIn t ss → HasOriginal d t) same
            (λ t mem. elim mem [
              | inl here ↦ subst (HasOriginal d) (sym here) held
              | inr there ↦ subst (λ m. HasOriginal m t) k_d (all t there)
            ]),
      )

  -- An installation that gets as far as its writes, with executables that are valid and settings and
  -- manifests in different files: it writes the settings and the manifest of every agent; or it
  -- fails, and they are what they were, unless it tells that the rollback failed too.
  pub install-AllOrNothing :
      (agents : List Agent) (binary home : FilePath) (rtk : Option FilePath) (d e : Disk)
      (prepared : List PreparedSettings) (separate : IsSeparate prepared)
      → validate_executable_path env binary ≡ ok tt
      → validate_optional env rtk ≡ ok tt
      → env.home ≡ some home
      → env.lock home ≡ ok tt
      → prepare_all env (prepare_install env binary rtk home) agents d ≡ (ok prepared, e)
      → AllOrNothing prepared separate env.tools.hash_hex env.tools.display
          (install env agents binary rtk d)
  unfolding install user_home
  install-AllOrNothing agents binary home rtk d e prepared separate v1 v2 at_home locked prepares =
      let (e_d, held) =
        prepare_all-HasOriginal (prepare_install env binary rtk home)
          (λ agent d e s h.
            let (a, b, c) = prepare_install-HasOriginal binary rtk home agent d e s h in (a, c))
          agents d e prepared prepares in
      let valid = pure (validate_executable_path env binary) >> pure (validate_optional env rtk) in
      let valid_ok : valid d ≡ (ok tt, d) =
        run_ok (pure (validate_executable_path env binary)) (λ u. pure (validate_optional env rtk))
          d tt d (λ i. (v1 i, d))
        ∙ (λ i. (v2 i, d)) in
      let at_home_ok : (valid >> pure (user_home env.home)) d ≡ (ok home, d) =
        run_ok valid (λ u. pure (user_home env.home)) d tt d valid_ok
        ∙ (λ i. (user_home (at_home i), d)) in
      let prepared_ok : (pure (env.lock home)
              >> prepare_all env (prepare_install env binary rtk home) agents)
            d
          ≡ (ok prepared, d) =
        run_ok (pure (env.lock home))
          (λ u. prepare_all env (prepare_install env binary rtk home) agents) d tt d
          (λ i. (locked i, d))
        ∙ prepares
        ∙ (λ i. (ok prepared, e_d i)) in
      subst (AllOrNothing prepared separate env.tools.hash_hex env.tools.display)
        (sym (
          run_ok (valid >> pure (user_home env.home)) _ d home d at_home_ok
          ∙ run_ok
              (pure (env.lock home) >> prepare_all env (prepare_install env binary rtk home) agents)
              (λ ss. commit_settings env.tools.hash_hex env.tools.display ss true) d prepared d
              prepared_ok))
        (commit_settings-AllOrNothing prepared separate env.tools.hash_hex env.tools.display true d
          held)

  -- The same of an uninstallation.
  pub uninstall-AllOrNothing :
      (agents : List Agent) (binary home : FilePath) (d e : Disk) (prepared : List PreparedSettings)
      (separate : IsSeparate prepared)
      → env.home ≡ some home
      → env.lock home ≡ ok tt
      → prepare_all env (prepare_uninstall env binary home) (with_settings env home agents d) d
        ≡ (ok prepared, e)
      → AllOrNothing prepared separate env.tools.hash_hex env.tools.display
          (uninstall env agents binary d)
  unfolding uninstall user_home
  uninstall-AllOrNothing agents binary home d e prepared separate at_home locked prepares =
      let (e_d, held) =
        prepare_all-HasOriginal (prepare_uninstall env binary home)
          (λ agent d e s h.
            let (a, b, c) = prepare_uninstall-HasOriginal binary home agent d e s h in (a, c))
          (with_settings env home agents d) d e prepared prepares in
      let reading : Io (List PreparedSettings) = λ d.
        prepare_all env (prepare_uninstall env binary home) (with_settings env home agents d) d in
      let prepared_ok : (pure (env.lock home) >> reading) d ≡ (ok prepared, d) =
        run_ok (pure (env.lock home)) (λ u. reading) d tt d (λ i. (locked i, d))
        ∙ prepares
        ∙ (λ i. (ok prepared, e_d i)) in
      subst (AllOrNothing prepared separate env.tools.hash_hex env.tools.display)
        (sym (
          run_ok (pure (user_home env.home)) _ d home d (λ i. (user_home (at_home i), d))
          ∙ run_ok (pure (env.lock home) >> reading)
              (λ ss. commit_settings env.tools.hash_hex env.tools.display ss false) d prepared d
              prepared_ok))
        (commit_settings-AllOrNothing prepared separate env.tools.hash_hex env.tools.display false d
          held)
