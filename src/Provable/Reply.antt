-- ===== src/Provable/Reply.antt =====
-- What the DPS answers: handleProvingResponse and extractErrMsg, and the ID in a response.
pub mod Shape
pub mod Id
use provable_sdk.Base.{
  ℕ, zero, suc, ◌+◌, ◌*◌, ◌^◌, ℤ, pos, negsuc, rounds, List, [], ◌∷◌, ◌++◌, Bool, true, false, not,
  ◌&&◌, ◌||◌, Option, none, some, Bytes, codes, length, take, drop, get_elem?, ltb, ◌==◌,
  if◌then◌else◌,
}
use provable_sdk.Text.{is_empty}
use provable_sdk.Text.Decimal.{format_uint}
use provable_sdk.Fault.{
  Fault, annotate, sentinel, wrap, panic, empty_transaction, empty_transaction_id, proving_failed,
}
use provable_sdk.Exec.{Result, ok, err, pure, raise}
use provable_sdk.Http.Env.{Response, Exchange, failed, answered, Net}
use provable_sdk.Json.{Json}
use provable_sdk.Types.{ProvingResponse, ProvingError, ProvingResult}
use provable_sdk.Network.Submit.{is_accepted}

-- A ProvingResult with OK, and one without.
unfoldable pub succeeded : ProvingResponse → ProvingResult
succeeded r = record { success = true; payload = some r; status = 0; error = none }

unfoldable pub refused : ℕ → Bytes → ProvingResult
refused status message = record {
  success = false;
  payload = none;
  status = status;
  error = some (record { message = message });
}

-- string(body), or the status where there is no body
raw_message : Bytes → ℕ → Bytes
raw_message body status = if is_empty body then codes "HTTP " ++ format_uint status else body

error_message : Result Bytes → Bytes → ℕ → Bytes
unfolding raw_message
error_message (ok message) body status =
    if is_empty message then raw_message body status else message
error_message (err e) body status = raw_message body status

module _ (json : Json) where
  unfoldable pub extract_err_msg : Bytes → ℕ → Bytes
  unfolding error_message
  extract_err_msg body status = error_message (json.message body) body status

  decoded : ℕ → Result ProvingResponse → ProvingResult
  unfolding succeeded refused
  decoded status (ok r) = succeeded r
  decoded status (err e) = refused status (codes "invalid proving response format")

  unfoldable pub handle_proving_response : ℕ → Bytes → ProvingResult
  unfolding decoded refused extract_err_msg
  handle_proving_response status body =
      if is_accepted status
      then decoded status (json.proving_response body)
      else refused status (extract_err_msg body status)

  read_reply : ℕ → Result Bytes → Net ProvingResult
  unfolding handle_proving_response
  read_reply status (err e) = raise (annotate (codes "read prove response") e)
  read_reply status (ok body) = pure (handle_proving_response status body)

  -- doProveRequest behind its http.Client.Do
  unfoldable pub prove_answer : Exchange → Net ProvingResult
  unfolding read_reply
  prove_answer (failed e) = raise (annotate (codes "prove request failed") e)
  prove_answer (answered r) = read_reply r.status r.body

  checked_id : Result Bytes → Result Bytes
  checked_id (err e) = err e
  checked_id (ok id) = if is_empty id then err (sentinel empty_transaction_id) else ok id

  -- ProvingResponse.TransactionID
  unfoldable pub transaction_id : ProvingResponse → Result Bytes
  unfolding checked_id
  transaction_id r =
      if is_empty r.transaction
      then err (sentinel empty_transaction)
      else checked_id (json.id r.transaction)

-- fmt.Errorf("%w (status %d): %s", ErrProvingFailed, result.Status, result.Error.Message)
unfoldable pub failure : ℕ → Option ProvingError → Fault
failure status none = panic
failure status (some e) =
    wrap [] (sentinel proving_failed)
      (codes " (status " ++ format_uint status ++ codes "): " ++ e.message)

-- The end of SubmitProvingRequest and ProveWithJWT; a nil result.Data is `none`.
unfoldable pub unwrap : ProvingResult → Result (Option ProvingResponse)
unfolding failure
unwrap r = if r.success then ok r.payload else err (failure r.status r.error)
