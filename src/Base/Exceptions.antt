-- ===== src/Base/Exceptions.antt =====
-- Python's exceptions as values, for the whole program.
use Prim.Native.Nat.{ℕ}
use mathlib.Core.Path.{◌≡◌, refl}
use mathlib.Core.Logic.{◌⊎◌, inl, inr}
use mathlib.Core.Bool.{Bool, true, false}
use ma_sinafadavi_gpt.Base.Strings.{Text}

-- The exceptions that the program raises or passes on, by class and reason.
pub data Error : Type 0 where
  -- EIDError (dtn/eid.py)
  invalid_node invalid_service none_host missing_node : Error
  ipn_slashes ipn_parts ipn_numbers ipn_node ipn_service unknown_scheme : Error
  -- InvalidMessageError (dtn/messages.py)
  wrong_type reply_without_error reply_with_error none_endpoint unknown_message : Error
  -- InvalidBundleError (dtn/messages.py)
  no_source no_destination failure_without_error success_with_error : Error
  bad_node_type no_submitter no_named_data : Error
  -- ValueError (dtn/job.py)
  no_cores negative too_large no_job_id no_wasm_module bad_uuid : Error
  -- NameTakenError and NoSuchNameError (dtn/storage.py)
  name_taken no_such_name : Text → Error
  -- ValueError (dtn/executor.py)
  escapes : Text → Error
  -- ValueError of `list.remove`
  not_in_list : Error
  -- WasmRestException (rest/job.py)
  failed_job : Error
  -- HTTPException (rest/nodes), by its status
  http : ℕ → Error
  -- Python's own
  type_error attribute_error key_error index_error overflow_error assertion_error file_not_found :
      Error
  -- raised by a package that the program calls
  foreign : Error
  -- a value of a Python type that the field is not declared with: outside the model
  ill_typed : Error

-- What a call leaves: the exception that it raised, or its value.
pub data Result {ℓ} (A : Type ℓ) : Type ℓ where
  err : Error → Result A
  ok : A → Result A

-- `if not passed: raise e`
abbrev pub guard : Bool → Error → Result (Unit {0})
guard false e = err e
guard true e = ok tt

-- The statements behind a call, and behind one whose value is not used.
infixl 5 ◌>>=◌ ◌>>◌
abbrev pub ◌>>=◌ {ℓ κ} : {V : Type ℓ} {W : Type κ} → Result V → (V → Result W) → Result W
err e >>= rest = err e
ok v >>= rest = rest v

abbrev pub ◌>>◌ {κ} : {W : Type κ} → Result (Unit {0}) → Result W → Result W
call >> rest = call >>= λ _. rest

pub Result-cases {ℓ} :
    {A : Type ℓ} (r : Result A) → ((a : A) × (r ≡ ok a)) ⊎ ((e : Error) × (r ≡ err e))
Result-cases (ok a) = inl (a, refl)
Result-cases (err e) = inr (e, refl)

-- A chain that returns: its first call returned, and so did the statements behind it.
pub bind_ok {ℓ κ} :
    {V : Type ℓ} {W : Type κ} (r : Result V) (rest : V → Result W) {w : W}
    → (r >>= rest) ≡ ok w
    → (v : V) × (r ≡ ok v) × (rest v ≡ ok w)
bind_ok (ok v) rest h = (v, refl, h)
bind_ok (err e) rest h = absurd (cc)
