-- ===== src/Bridge/Errors.antt =====
-- The error convention of the bridge: which payloads are errors, and which are results.
use mathlib.Core.Path.{subst, sym}
use mathlib.Core.List.{cons-ne-nil}
use provable_sdk.Base.{
  ltb, ◌&&◌, inl, inr, Bool-cases, ◌≡◌, ◌≢◌, refl, [], ◌∷◌, ◌++◌, true, false, some, arith, Bytes,
  length,
}
use provable_sdk.Text.{has_prefix, is_empty}
use provable_sdk.Fault.{plain}
use provable_sdk.Exec.{Result, ok, err}
use provable_sdk.Json.{Json}
use provable_sdk.Bridge.{err_prefix, error_payload, from_payload, result_or_error}

module _ (json : Json) where
  -- A payload that begins like an error, has something behind that, and decodes to a message that is
  -- not empty is an error with this message.
  pub result_or_error_payload :
      (message rest : Bytes)
      → rest ≢ []
      → message ≢ []
      → json.error (err_prefix ++ rest) ≡ ok message
      → result_or_error json (some (err_prefix ++ rest)) ≡ err (plain message)
  unfolding result_or_error
  result_or_error_payload message [] h k e = absurd (h refl)
  result_or_error_payload [] (r ∷ rest) h k e = absurd (k refl)
  result_or_error_payload (c ∷ message) (r ∷ rest) h k e = ground arith

  -- What a payload can come to: itself, or an error with the message, not empty, that it decodes to;
  -- and then the payload begins with the prefix of errors.
  abbrev pub IsOutcome : Bytes → Result Bytes → Type 0
  IsOutcome s (ok r) = r ≡ s
  IsOutcome s (err e) =
      (message : Bytes) × (e ≡ plain message)
      × (message ≢ [])
      × (json.error s ≡ ok message)
      × (has_prefix s err_prefix ≡ true)

  payload-IsOutcome :
      (s : Bytes) (r : Result Bytes)
      → json.error s ≡ r
      → has_prefix s err_prefix ≡ true
      → IsOutcome s (error_payload s r)
  unfolding error_payload is_empty
  payload-IsOutcome s (err e) h p = refl
  payload-IsOutcome s (ok []) h p = refl
  payload-IsOutcome s (ok (c ∷ m)) h p = (c ∷ m, refl, cons-ne-nil c m, h, p)

  taken :
      (s : Bytes)
      → (ltb (length err_prefix) (length s) && has_prefix s err_prefix) ≡ true
      → from_payload json s ≡ error_payload s (json.error s)
  unfolding from_payload
  taken s e = rw (e, from_payload)

  passed :
      (s : Bytes)
      → (ltb (length err_prefix) (length s) && has_prefix s err_prefix) ≡ false
      → from_payload json s ≡ ok s
  unfolding from_payload
  passed s e = rw (e, from_payload)

  -- A payload that does not begin like an error comes back as it is.
  pub result_or_error_plain :
      (s : Bytes) → has_prefix s err_prefix ≡ false → result_or_error json (some s) ≡ ok s
  unfolding result_or_error
  result_or_error_plain s h = passed s (ground (arith, h))

  -- Every payload of the library that is not NULL comes back as it is, or as an error with a message
  -- that is not empty, that the payload decodes to, and whose payload begins with the prefix of errors.
  pub result_or_error-IsOutcome : (s : Bytes) → IsOutcome s (result_or_error json (some s))
  unfolding result_or_error
  result_or_error-IsOutcome s =
      elim (Bool-cases (ltb (length err_prefix) (length s) && has_prefix s err_prefix)) [
        | inl e ↦
            subst (IsOutcome s) (sym (taken s e))
              (payload-IsOutcome s (json.error s) refl (ground arith))
        | inr e ↦ subst (IsOutcome s) (sym (passed s e)) refl
      ]
