-- ===== src/Install/Commit/Stuck.antt =====
-- A rollback in src/install/mod.rs after a write that has left its temporary file behind.
use agent_gov.Base.{
  ◌≡◌, refl, ap, ◌∙◌, true, false, some, List, ◌∷◌, Text, FilePath, text_eqb, find,
}
use agent_gov.Error.{Result, err, ErrorKind, io, already_exists}
use agent_gov.Install.Files.{
  Disk, not_renamed, next_fault, later_faults, set_at, set_at_self, write_atomic,
}
use agent_gov.Install.Files.Frames.{write_atomic-leftover, write_atomic_over_leftover}
use agent_gov.Install.Commit.{
  PreparedSettings, apply_optional, restore, restore_found, rollback_settings,
}

-- The rollback begins with the path whose write failed, and takes nothing back.
rollback_over_leftover :
    (prepared : List PreparedSettings) (p : FilePath) (ps : List FilePath) (t : PreparedSettings)
    (original : Text) (d : Disk)
    → find (λ s. text_eqb s.path p) prepared ≡ some t
    → t.path ≡ p
    → t.original_bytes ≡ some original
    → d.temps p ≡ true
    → rollback_settings prepared (p ∷ ps) d
      ≡ (err (io already_exists), record d { faults = later_faults d.faults })
unfolding rollback_settings restore_found restore apply_optional
rollback_over_leftover prepared p ps t original d found path held left =
    rw (found, held, path, write_atomic_over_leftover p original d left) refl

-- If the write of an agent's settings that existed fails with its temporary file left behind, the
-- rollback fails at its first write with `AlreadyExists` and changes no file: the settings and
-- manifests of all the agents before stay as the failed installation has written them.
pub rollback-stuck :
    (prepared : List PreparedSettings) (committed : List FilePath) (t : PreparedSettings)
    (original bytes : Text) (e : ErrorKind) (d : Disk)
    → find (λ s. text_eqb s.path t.path) prepared ≡ some t
    → t.original_bytes ≡ some original
    → d.temps t.path ≡ false
    → next_fault d.faults ≡ not_renamed e
    → ((rollback_settings prepared (t.path ∷ committed) (write_atomic t.path bytes d).1).0
        ≡ err (io already_exists))
      × ((rollback_settings prepared (t.path ∷ committed) (write_atomic t.path bytes d).1).1.content
          ≡ d.content)
rollback-stuck prepared committed t original bytes e d found held fresh fault =
    let k : Disk = record d {
      temps = set_at t.path true d.temps;
      faults = later_faults d.faults;
    } in
    let left = write_atomic-leftover t.path bytes e d fresh fault in
    let end =
      ap (rollback_settings prepared (t.path ∷ committed)) left
      ∙ rollback_over_leftover prepared t.path committed t original k found refl held
          (set_at_self t.path true d.temps) in
    (
      ap (λ (r : Result (Unit {0}) × Disk). r.0) end,
      ap (λ (r : Result (Unit {0}) × Disk). r.1.content) end,
    )
