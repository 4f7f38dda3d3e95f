-- ===== src/Bridge/Rust.antt =====
-- rust-bridge/src/helpers.rs: how the functions of the Rust library hand over their outcomes, and what
-- the Go side makes of it. The bodies of the functions call snarkVM, and stay a parameter.
pub mod Crates
pub mod Pointer
pub mod Account
pub mod Authorize
pub mod Hash
pub mod Linked
pub mod Outcomes
pub mod Adding
pub mod Authorized
pub mod Calls
pub mod Verdicts
pub mod Requests
use provable_sdk.Base.{
  ◌≡◌, ◌≢◌, refl, ap, [], ◌∷◌, ◌++◌, Bool, false, ◌||◌, some, Bytes, codes, length, length-append,
  ◌==◌, if◌then◌else◌, arith,
}
use provable_sdk.Text.{has_prefix}
use provable_sdk.Fault.{plain}
use provable_sdk.Exec.{Result, ok, err}
use provable_sdk.Json.{Json}
use provable_sdk.Bridge.{err_prefix, result_or_error}
use provable_sdk.Bridge.Errors.{result_or_error_payload, result_or_error_plain}

-- What a call comes to: Ok(a), Err(e) with the text of its message, or a panic.
pub data Outcome {ℓ} (A : Type ℓ) : Type ℓ where
  done : A → Outcome A
  failed : Bytes → Outcome A
  panicked : Outcome A

-- the operator `?`
infixl 5 ◌>>=◌
abbrev pub ◌>>=◌ {ℓ κ} : {A : Type ℓ} {B : Type κ} → Outcome A → (A → Outcome B) → Outcome B
done a >>= f = f a
failed e >>= f = failed e
panicked >>= f = panicked

-- map_err
abbrev pub map_err {ℓ} : {A : Type ℓ} → (Bytes → Bytes) → Outcome A → Outcome A
map_err f (done a) = done a
map_err f (failed e) = failed (f e)
map_err f panicked = panicked

-- the text of format!("{context}: {e}")
unfoldable pub prefixed : Bytes → Bytes → Bytes
prefixed context e = context ++ (codes ": " ++ e)

unfoldable pub has_nul : Bytes → Bool
has_nul [] = false
has_nul (c ∷ s) = c == 0 || has_nul s

-- CString::new(s).unwrap_or_else(|_| CString::default())
unfoldable to_c_string : Bytes → Bytes
unfolding has_nul
to_c_string s = if has_nul s then [] else s

-- serde_json::json!({"error": msg}).to_string(), where `escape` is how serde_json writes a text between
-- its quotes
unfoldable pub error_json : (Bytes → Bytes) → Bytes → Bytes
error_json escape msg = err_prefix ++ (escape msg ++ codes "\"}")

unfoldable error_result : (Bytes → Bytes) → Bytes → Bytes
unfolding error_json to_c_string
error_result escape msg = to_c_string (error_json escape msg)

-- ffi_catch!
unfoldable pub ffi_catch : (Bytes → Bytes) → Bytes → Outcome Bytes → Bytes
unfolding to_c_string error_result
ffi_catch escape panic_msg (done s) = to_c_string s
ffi_catch escape panic_msg (failed e) = error_result escape e
ffi_catch escape panic_msg panicked = error_result escape panic_msg

has_nul-append : (s t : Bytes) → has_nul s ≡ false → has_nul t ≡ false → has_nul (s ++ t) ≡ false
unfolding has_nul
has_nul-append [] t h k = k
has_nul-append (c ∷ s) t h k = let r = has_nul-append s t in ground arith

module _ (json : Json) (escape : (Bytes → Bytes)) (panic_msg : Bytes) where
  -- A message that is not empty, that serde_json writes with no NUL, and that encoding/json reads back.
  unfoldable pub IsMessage : Bytes → Type 0
  IsMessage e = (e ≢ []) × (has_nul (escape e) ≡ false) × (json.error (error_json escape e) ≡ ok e)

  -- A text with no NUL that does not begin like an error, or an error with such a message.
  unfoldable pub IsReadable : Outcome Bytes → Type 0
  IsReadable (done s) = (has_nul s ≡ false) × (has_prefix s err_prefix ≡ false)
  IsReadable (failed e) = IsMessage e
  IsReadable panicked = IsMessage panic_msg

  -- The outcome as a Go function returns it.
  unfoldable pub returned : Outcome Bytes → Result Bytes
  returned (done s) = ok s
  returned (failed e) = err (plain e)
  returned panicked = err (plain panic_msg)

  error_result-result_or_error :
      (e : Bytes)
      → IsMessage e
      → result_or_error json (some (error_result escape e)) ≡ err (plain e)
  unfolding error_result error_json IsMessage
  error_result-result_or_error e (ne, no_nul, reads) =
      let rest : Bytes = escape e ++ codes "\"}" in
      let clean : has_nul (err_prefix ++ rest) ≡ false =
        has_nul-append err_prefix rest refl (has_nul-append (escape e) (codes "\"}") no_nul refl) in
      rw clean (
        result_or_error_payload json e rest
          (λ h. omega (arith, ap length h, length-append (escape e) (codes "\"}"))) ne reads)

  -- An outcome of a function of the library comes out of the Go side as it is: a text as a result, and
  -- an error or the message of a panic as an error, where the text has no NUL and does not begin like an
  -- error, and the message is not empty, is written with no NUL, and is read back by encoding/json.
  pub result_or_error-ffi_catch :
      (o : Outcome Bytes)
      → IsReadable o
      → result_or_error json (some (ffi_catch escape panic_msg o)) ≡ returned o
  unfolding ffi_catch returned IsReadable
  result_or_error-ffi_catch (done s) (no_nul, plain_text) =
      rw no_nul (result_or_error_plain json s plain_text)
  result_or_error-ffi_catch (failed e) h = error_result-result_or_error e h
  result_or_error-ffi_catch panicked h = error_result-result_or_error panic_msg h
