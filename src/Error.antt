-- ===== src/Error.antt =====
-- src/error.rs: the errors of the program and the exit code of each, and the results that carry
-- them.
use agent_gov.Base.{ℕ, ◌≡◌, refl, Text, arith}

-- `io::ErrorKind`, as far as the program tells the kinds apart.
pub data ErrorKind : Type 0 where
  not_found permission_denied already_exists other : ErrorKind

-- The text of a message stands in the error where the program writes it; the errors of libraries
-- keep their display text.
pub data GovError : Type 0 where
  invalid_input invalid_config temporary runtime : Text → GovError
  io : ErrorKind → GovError
  json toml_decode toml_encode internal : Text → GovError

abbrev pub ex_usage : ℕ
ex_usage = 64

abbrev pub ex_dataerr : ℕ
ex_dataerr = 65

abbrev pub ex_unavailable : ℕ
ex_unavailable = 69

abbrev pub ex_software : ℕ
ex_software = 70

abbrev pub ex_cantcreat : ℕ
ex_cantcreat = 73

abbrev pub ex_tempfail : ℕ
ex_tempfail = 75

abbrev pub ex_config : ℕ
ex_config = 78

io_exit_code : ErrorKind → ℕ
io_exit_code permission_denied = ex_cantcreat
io_exit_code kind = ex_software

unfoldable pub exit_code : GovError → ℕ
unfolding io_exit_code
exit_code (invalid_input m) = ex_usage
exit_code (invalid_config m) = ex_config
exit_code (toml_decode m) = ex_config
exit_code (toml_encode m) = ex_config
exit_code (temporary m) = ex_tempfail
exit_code (runtime m) = ex_unavailable
exit_code (io kind) = io_exit_code kind
exit_code (json m) = ex_dataerr
exit_code (internal m) = ex_software

-- `panicked` is a Rust panic: a slice or an insertion that is out of range.
pub data Result {ℓ} (A : Type ℓ) : Type ℓ where
  ok : A → Result A
  err : GovError → Result A
  panicked : Result A

-- The operator `?`: a step that fails ends the chain.
infixl 5 ◌>>=◌
abbrev pub ◌>>=◌ {ℓ κ} : {A : Type ℓ} {C : Type κ} → Result A → (A → Result C) → Result C
panicked >>= next = panicked
err failure >>= next = err failure
ok x >>= next = next x

infixl 5 ◌>>◌
abbrev pub ◌>>◌ {κ} : {C : Type κ} → Result (Unit {0}) → Result C → Result C
step >> rest = step >>= (λ done. rest)

-- Inversion of a chain that succeeds.
pub >>=-eq-ok {ℓ κ} :
    {A : Type ℓ} {C : Type κ} (step : Result A) (next : A → Result C) {last : C}
    → (step >>= next) ≡ ok last
    → (x : A) × (step ≡ ok x) × (next x ≡ ok last)
>>=-eq-ok panicked next h = cc
>>=-eq-ok (err failure) next h = cc
>>=-eq-ok (ok x) next h = (x, refl, h)

pub ok-injective {ℓ} : {A : Type ℓ} (a b : A) → ok a ≡ ok b → a ≡ b
ok-injective a b h = ground arith
