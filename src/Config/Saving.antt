-- ===== src/Config/Saving.antt =====
-- `Config::save` of src/config.rs: what it leaves of the stored configuration.
use agent_gov.Base.{◌≡◌, refl, ◌≢◌, Option, none, some, List, [], ◌∷◌, arith}
use agent_gov.Error.{Result, ok, err, panicked, GovError}
use agent_gov.Config.{Config, CustomRule, validate, validate_rules, reject_if}

-- How `write_atomic` ends: well; with the file as it was; or after the rename that replaces the file,
-- when its directory cannot be synced.
pub data Write : Type 0 where
  written : Write
  not_written not_synced : GovError → Write

-- The configuration that is stored, if there is one, after a write.
stored_by : Config → Write → Option Config → Result (Unit {0}) × Option Config
stored_by c written stored = (ok tt, some c)
stored_by c (not_written e) stored = (err e, stored)
stored_by c (not_synced e) stored = (err e, some c)

-- The directory of the configuration and the text of it are made ready before the write; where this
-- fails, the error is given.
prepared : Config → Option GovError → Write → Option Config → Result (Unit {0}) × Option Config
prepared c none w stored = stored_by c w stored
prepared c (some e) w stored = (err e, stored)

validated :
    Result (Unit {0})
    → Config
    → Option GovError
    → Write
    → Option Config
    → Result (Unit {0}) × Option Config
validated (ok u) c preparing w stored = prepared c preparing w stored
validated (err e) c preparing w stored = (err e, stored)
validated panicked c preparing w stored = (panicked, stored)

pub save : Config → Option GovError → Write → Option Config → Result (Unit {0}) × Option Config
save c preparing w stored = validated (validate c) c preparing w stored

-- What a call of `save` leaves, by its result: a valid configuration in place of the stored one, the
-- stored one as it was, or an error beside the new one.
pub data Saved (c : Config) (w : Write) (stored left : Option Config)
    : Result (Unit {0}) → Type 0 where
  saved : validate c ≡ ok tt → left ≡ some c → Saved c w stored left (ok tt)
  kept : (e : GovError) → left ≡ stored → Saved c w stored left (err e)
  unsynced : (e : GovError) → w ≡ not_synced e → left ≡ some c → Saved c w stored left (err e)

validate_rules-total : (rules : List CustomRule) → validate_rules rules ≢ panicked
unfolding validate_rules reject_if
validate_rules-total [] h = cc
validate_rules-total (rule ∷ rules) h = ground (arith, validate_rules-total rules)

-- Validation never panics.
validate-total : (c : Config) → validate c ≢ panicked
unfolding validate reject_if
validate-total c h = ground (arith, validate_rules-total c.classification.rules)

prepared-Saved :
    (c : Config) (preparing : Option GovError) (w : Write) (stored : Option Config)
    → validate c ≡ ok tt
    → Saved c w stored (prepared c preparing w stored).1 (prepared c preparing w stored).0
unfolding prepared stored_by
prepared-Saved c (some e) w stored h = kept e refl
prepared-Saved c none written stored h = saved h refl
prepared-Saved c none (not_written e) stored h = kept e refl
prepared-Saved c none (not_synced e) stored h = unsynced e refl refl

pub save-Saved :
    (c : Config) (preparing : Option GovError) (w : Write) (stored : Option Config)
    → Saved c w stored (save c preparing w stored).1 (save c preparing w stored).0
unfolding save validated
save-Saved c preparing w stored = go (validate c) refl
  where
    go :
        (v : Result (Unit {0}))
        → validate c ≡ v
        → Saved c w stored (validated v c preparing w stored).1 (validated v c preparing w stored).0
    go (ok u) e = prepared-Saved c preparing w stored e
    go (err f) e = kept f refl
    go panicked e = absurd (validate-total c e)

-- What a run on concrete arguments computes through.
unfoldable pub runs : Unit {0}
unfolding stored_by prepared validated save
runs = tt
