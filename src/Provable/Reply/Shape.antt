-- ===== src/Provable/Reply/Shape.antt =====
-- The shape of a ProvingResult, and what SubmitProvingRequest makes of one.
use provable_sdk.Base.{
  ℕ, ◌≡◌, refl, Bool, true, false, Option, none, some, Bytes, ◌⊎◌, inl, inr, if◌then◌else◌,
}
use provable_sdk.Fault.{proving_failed, is}
use provable_sdk.Exec.{Result, ok, err}
use provable_sdk.Http.Env.{Exchange, failed, answered, Trace}
use provable_sdk.Http.Ensures.{OnSuccess}
use provable_sdk.Json.{Json}
use provable_sdk.Types.{ProvingResponse, ProvingError, ProvingResult}
use provable_sdk.Network.Submit.{is_accepted}
use provable_sdk.Provable.Reply.{
  succeeded, refused, decoded, handle_proving_response, read_reply, prove_answer, failure, unwrap,
}

abbrev pub IsResult : ProvingResult → Type 0
IsResult r =
    ((r.success ≡ true) × ((d : ProvingResponse) × (r.payload ≡ some d)) × (r.error ≡ none))
    ⊎ ((r.success ≡ false) × (r.payload ≡ none) × ((e : ProvingError) × (r.error ≡ some e)))

succeeded-IsResult : (d : ProvingResponse) → IsResult (succeeded d)
unfolding succeeded
succeeded-IsResult d = inl (refl, (d, refl), refl)

pub refused-IsResult : (status : ℕ) (message : Bytes) → IsResult (refused status message)
unfolding refused
refused-IsResult status message = inr (refl, refl, (record { message = message }, refl))

module _ (json : Json) where
  decoded-IsResult : (status : ℕ) (r : Result ProvingResponse) → IsResult (decoded json status r)
  unfolding decoded
  decoded-IsResult status (ok d) = succeeded-IsResult d
  decoded-IsResult status (err e) = refused-IsResult status _

  -- Whatever the status, the body and the decoder, handleProvingResponse builds a result that has OK, a
  -- response and no error, or no OK, no response and an error.
  handle_proving_response-IsResult :
      (status : ℕ) (body : Bytes) → IsResult (handle_proving_response json status body)
  unfolding handle_proving_response
  handle_proving_response-IsResult status body =
      if_result (is_accepted status) _ _ (decoded-IsResult status (json.proving_response body))
        (refused-IsResult status _)
    where
      if_result :
          (b : Bool) (r s : ProvingResult) → IsResult r → IsResult s → IsResult (if b then r else s)
      if_result true r s hr hs = hr
      if_result false r s hr hs = hs

  read_reply-IsResult :
      (status : ℕ) (body : Result Bytes) (t : Trace)
      → OnSuccess
          (λ r _. IsResult r)
          (read_reply json status body t).0
          (read_reply json status body t).1
  unfolding read_reply
  read_reply-IsResult status (err e) t = tt
  read_reply-IsResult status (ok body) t = handle_proving_response-IsResult status body

  pub prove_answer-IsResult :
      (x : Exchange) (t : Trace)
      → OnSuccess (λ r _. IsResult r) (prove_answer json x t).0 (prove_answer json x t).1
  unfolding prove_answer
  prove_answer-IsResult (failed e) t = tt
  prove_answer-IsResult (answered r) t = read_reply-IsResult r.status r.body t

-- What SubmitProvingRequest makes of such a result: a response that is not nil, or an error that is
-- ErrProvingFailed.
abbrev pub IsUnwrapped : Result (Option ProvingResponse) → Type 0
IsUnwrapped (ok o) = (d : ProvingResponse) × (o ≡ some d)
IsUnwrapped (err e) = is e proving_failed ≡ true

failure-is :
    (status : ℕ) (o : Option ProvingError) (e : ProvingError)
    → o ≡ some e
    → is (failure status o) proving_failed ≡ true
unfolding failure is
failure-is status none e h = cc
failure-is status (some x) e h = refl

-- Of a result that the client builds, SubmitProvingRequest makes a response that is not nil or an error
-- that is ErrProvingFailed, and never follows a nil pointer.
pub unwrap-IsUnwrapped : (r : ProvingResult) → IsResult r → IsUnwrapped (unwrap r)
unfolding unwrap
unwrap-IsUnwrapped r (inl (s, (d, p), e)) = rw s (d, p)
unwrap-IsUnwrapped r (inr (s, p, (x, e))) = rw s (failure-is r.status r.error x e)
