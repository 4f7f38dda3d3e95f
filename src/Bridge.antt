-- ===== src/Bridge.antt =====
-- internal/ffi/bridge.go: the calls of the Rust library. The library's functions are a parameter; what
-- the Go side adds is the C strings, and the convention for errors.
pub mod Errors
pub mod Rust
pub mod Heap
use provable_sdk.Base.{
  ℤ, pos, negsuc, zero, suc, List, [], ◌∷◌, Bool, true, false, not, ◌&&◌, Option, none, some, Bytes,
  codes, length, ltb, ◌==◌, if◌then◌else◌,
}
use provable_sdk.Text.{bytes_eq, is_empty, has_prefix}
use provable_sdk.Fault.{Fault, plain}
use provable_sdk.Exec.{Result, ok, err}
use provable_sdk.Json.{Json}

-- The extern functions of libaleo_bridge. A char* is `none` where it is NULL, and the bytes in front of
-- its NUL where it is not; `private_key_new` takes the randomness that it uses.
pub record Library : Type 0 where
  pub private_key_new : Bytes → Option Bytes
  pub derive_all_keys : Bytes → Option Bytes
  pub sign_message : Bytes → Bytes → Option Bytes
  pub verify_signature : Bytes → Bytes → Bytes → ℤ
  pub decrypt_record : Bytes → Bytes → Option Bytes
  pub execute_program : Bytes → Bytes → Bytes → Bytes → Option Bytes
  pub program_id : Bytes → Option Bytes
  pub authorize : Bytes → Bytes → Bytes → Bytes → Bytes → Option Bytes
  pub proving_request_to_bytes : Bytes → Option Bytes → Bool → Option Bytes
  pub hash_bhp256 : Bytes → Option Bytes
  pub hash_bhp512 : Bytes → Option Bytes
  pub hash_bhp768 : Bytes → Option Bytes
  pub hash_bhp1024 : Bytes → Option Bytes
  pub hash_ped64 : Bytes → Option Bytes
  pub hash_ped128 : Bytes → Option Bytes
  pub hash_psd2 : Bytes → Option Bytes
  pub hash_psd4 : Bytes → Option Bytes
  pub hash_psd8 : Bytes → Option Bytes
  pub hash_psd2_multi : Bytes → Option Bytes
  pub hash_psd4_multi : Bytes → Option Bytes
  pub hash_psd8_multi : Bytes → Option Bytes
  pub verify_execution : Bytes → Option Bytes

-- C.CString: the C side reads a text up to its first NUL.
unfoldable pub c_string : Bytes → Bytes
c_string [] = []
c_string (c ∷ s) = let rest = c ∷ c_string s in if c == 0 then [] else rest

abbrev err_prefix : Bytes
err_prefix = codes "{\"error\":\""

-- The error that a payload carries, if it can be decoded and is not empty.
error_payload : Bytes → Result Bytes → Result Bytes
error_payload s (ok message) = if is_empty message then ok s else err (plain message)
error_payload s (err e) = ok s

module _ (json : Json) where
  from_payload : Bytes → Result Bytes
  unfolding error_payload
  from_payload s =
      if ltb (length err_prefix) (length s) && has_prefix s err_prefix
      then error_payload s (json.error s)
      else ok s

  unfoldable pub result_or_error : Option Bytes → Result Bytes
  unfolding from_payload has_prefix is_empty
  result_or_error none = err (plain (codes "bridge returned nil"))
  result_or_error (some s) = from_payload s

-- The C int that aleo_verify_signature returns; every value but 1 and 0 stands for an internal error.
unfoldable pub verify_code : ℤ → Result Bool
verify_code (pos (suc zero)) = ok true
verify_code (pos zero) = ok false
verify_code (pos (suc (suc n))) =
    err (plain (codes "signature verification failed (internal error)"))
verify_code (negsuc n) = err (plain (codes "signature verification failed (internal error)"))

unfoldable pub is_true : Result Bytes → Result Bool
unfolding bytes_eq
is_true (ok s) = ok (bytes_eq s (codes "true"))
is_true (err e) = err e

-- A nil char* where the text is empty.
optional_text : Bytes → Option Bytes
optional_text [] = none
optional_text (c ∷ s) = some (c_string (c ∷ s))

module _ (lib : Library) (json : Json) where
  unfoldable pub private_key_new : Bytes → Result Bytes
  private_key_new randomness = result_or_error json (lib.private_key_new randomness)

  unfoldable pub sign_message : Bytes → Bytes → Result Bytes
  sign_message sk msg = result_or_error json (lib.sign_message (c_string sk) msg)

  unfoldable pub verify_signature : Bytes → Bytes → Bytes → Result Bool
  verify_signature addr msg sig =
      verify_code (lib.verify_signature (c_string addr) msg (c_string sig))

  unfoldable pub decrypt_record : Bytes → Bytes → Result Bytes
  decrypt_record ciphertext view_key =
      result_or_error json (lib.decrypt_record (c_string ciphertext) (c_string view_key))

  unfoldable pub execute_program : Bytes → Bytes → Bytes → Bytes → Result Bytes
  execute_program program_source function_name inputs_json sk = result_or_error json (
      lib.execute_program (c_string program_source) (c_string function_name) (c_string inputs_json)
        (c_string sk))

  unfoldable pub program_id : Bytes → Result Bytes
  program_id program_source = result_or_error json (lib.program_id (c_string program_source))

  unfoldable pub proving_request_to_bytes : Bytes → Bytes → Bool → Result Bytes
  unfolding optional_text
  proving_request_to_bytes auth_json fee_auth_json broadcast =
      result_or_error json
        (lib.proving_request_to_bytes (c_string auth_json) (optional_text fee_auth_json) broadcast)

  unfoldable pub authorize : Bytes → Bytes → Bytes → Bytes → Bytes → Result Bytes
  authorize private_key program_source function_name inputs_json imports_json =
      result_or_error json (
        lib.authorize (c_string private_key) (c_string program_source) (c_string function_name)
          (c_string inputs_json) (c_string imports_json))

  unfoldable pub derive_all_keys : Bytes → Result Bytes
  derive_all_keys sk = result_or_error json (lib.derive_all_keys (c_string sk))

  unfoldable pub hash_bhp256 : Bytes → Result Bytes
  hash_bhp256 input = result_or_error json (lib.hash_bhp256 (c_string input))

  unfoldable pub hash_bhp512 : Bytes → Result Bytes
  hash_bhp512 input = result_or_error json (lib.hash_bhp512 (c_string input))

  unfoldable pub hash_bhp768 : Bytes → Result Bytes
  hash_bhp768 input = result_or_error json (lib.hash_bhp768 (c_string input))

  unfoldable pub hash_bhp1024 : Bytes → Result Bytes
  hash_bhp1024 input = result_or_error json (lib.hash_bhp1024 (c_string input))

  unfoldable pub hash_pedersen64 : Bytes → Result Bytes
  hash_pedersen64 input = result_or_error json (lib.hash_ped64 (c_string input))

  unfoldable pub hash_pedersen128 : Bytes → Result Bytes
  hash_pedersen128 input = result_or_error json (lib.hash_ped128 (c_string input))

  unfoldable pub hash_poseidon2 : Bytes → Result Bytes
  hash_poseidon2 input = result_or_error json (lib.hash_psd2 (c_string input))

  unfoldable pub hash_poseidon4 : Bytes → Result Bytes
  hash_poseidon4 input = result_or_error json (lib.hash_psd4 (c_string input))

  unfoldable pub hash_poseidon8 : Bytes → Result Bytes
  hash_poseidon8 input = result_or_error json (lib.hash_psd8 (c_string input))

  unfoldable pub hash_poseidon2_multi : Bytes → Result Bytes
  hash_poseidon2_multi inputs_json =
      result_or_error json (lib.hash_psd2_multi (c_string inputs_json))

  unfoldable pub hash_poseidon4_multi : Bytes → Result Bytes
  hash_poseidon4_multi inputs_json =
      result_or_error json (lib.hash_psd4_multi (c_string inputs_json))

  unfoldable pub hash_poseidon8_multi : Bytes → Result Bytes
  hash_poseidon8_multi inputs_json =
      result_or_error json (lib.hash_psd8_multi (c_string inputs_json))

  unfoldable pub verify_execution : Bytes → Result Bool
  verify_execution execution_json =
      is_true (result_or_error json (lib.verify_execution (c_string execution_json)))
