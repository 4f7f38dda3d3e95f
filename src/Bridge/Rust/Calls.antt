-- ===== src/Bridge/Rust/Calls.antt =====
-- What a call through the Go side and the Rust library comes to, by the body of the Rust function.
use provable_sdk.Base.{◌≡◌, refl, ap, [], ◌∷◌, false, some, Bytes, length, take, arith}
use provable_sdk.Text.{has_prefix}
use provable_sdk.Exec.{ok}
use provable_sdk.Json.{Json}
use provable_sdk.Bridge.{c_string, err_prefix, result_or_error}
use provable_sdk.Bridge.Rust.{
  Outcome, done, has_nul, ffi_catch, returned, IsReadable, result_or_error-ffi_catch,
}
use provable_sdk.Bridge.Rust.Pointer.{slice}
use provable_sdk.Bridge.Rust.Linked.{message_pointer}

-- A text with no NUL that does not begin like an error.
pub record IsPlain (s : Bytes) : Type 0 where
  pub no_nul : has_nul s ≡ false
  pub no_error : has_prefix s err_prefix ≡ false

-- A text with no NUL is its own C string.
pub c_string-eq_self : (s : Bytes) → has_nul s ≡ false → c_string s ≡ s
unfolding c_string has_nul
c_string-eq_self [] h = refl
c_string-eq_self (c ∷ s) h = let ih = c_string-eq_self s in ground (arith, ih)

take-length : (s : Bytes) → take (length s) s ≡ s
take-length [] = refl
take-length (c ∷ s) = ap (λ r. c ∷ r) (take-length s)

-- The bytes of a message, empty or not, are what the library reads at the pointer that it is handed.
pub slice-message_pointer : (msg : Bytes) → slice (message_pointer msg) (length msg) ≡ msg
unfolding message_pointer slice
slice-message_pointer [] = refl
slice-message_pointer (c ∷ s) = ground (arith, take-length s)

-- A plain text that a function hands over is the result.
pub handed_over :
    (json : Json) (escape : (Bytes → Bytes)) (panic_msg : Bytes) (o : Outcome Bytes) (s : Bytes)
    → o ≡ done s
    → IsPlain s
    → result_or_error json (some (ffi_catch escape panic_msg o)) ≡ ok s
unfolding returned IsReadable
handed_over json escape panic_msg o s e p =
    rw e (result_or_error-ffi_catch json escape panic_msg (done s) (p.no_nul, p.no_error))
