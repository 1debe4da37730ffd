-- ===== src/Result.antt =====
-- The exceptions of src/pf_core/exceptions.py that the modelled code raises (their texts are left
-- out), those of other code (`raised`, with class name and text), and the outcome of fallible code.
pub mod Rules
use pf_core.Prelude.{Bool, true, false, String, Option, none, some}

pub data Exn : Type 0 where
  configuration_error invalid_input_error precondition_error : Exn
  -- a foreign key that names no row
  integrity_error : Exn
  job_already_running : Exn
  value_error unknown_stage_error : Exn
  raised : String → String → Exn

pub data Result {ℓ} (A : Type ℓ) : Type ℓ where
  ok : A → Result A
  err : Exn → Result A

infixl 5 ◌>>=◌ ◌>>◌
unfoldable pub ◌>>=◌ {ℓ κ} : {A : Type ℓ} {B : Type κ} → Result A → (A → Result B) → Result B
err e >>= next = err e
ok x >>= next = next x

abbrev pub ◌>>◌ {ℓ} : {B : Type ℓ} → Result (Unit {0}) → Result B → Result B
check >> rest = check >>= (λ _. rest)

-- `if not test: raise e`
abbrev pub require : Bool → Exn → Result (Unit {0})
require true e = ok tt
require false e = err e

-- `if row is None: raise e`
abbrev pub fetch {ℓ} : {A : Type ℓ} → Option A → Exn → Result A
fetch none e = err e
fetch (some a) e = ok a
