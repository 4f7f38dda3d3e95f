-- ===== src/Provable/Submit/Outcome.antt =====
-- What SubmitProvingRequestSafe and SubmitProvingRequest return, as wholes: the token, the retries and
-- the reading of the reply together.
use provable_sdk.Base.{
  ℕ, zero, suc, ◌≡◌, Bool, true, false, Option, some, Bytes, rounds, inl, inr, Bool-cases,
}
use provable_sdk.Exec.{Result, Result-cases, ok, err, lift, continue}
use provable_sdk.Http.Env.{Exchange, Trace, Net}
use provable_sdk.Http.Ensures.{OnSuccess, Ensures, Ensures-rest, Ensures-bind}
use provable_sdk.Types.{ProvingRequest, ProvingResponse, ProvingResult, DelegatedProvingParams}
use provable_sdk.Provable.{ProvableClient, Session}
use provable_sdk.Provable.Jwt.{get_jwt}
use provable_sdk.Provable.Reply.{prove_answer, unwrap}
use provable_sdk.Provable.Reply.Shape.{
  IsResult, IsUnwrapped, refused-IsResult, prove_answer-IsResult, unwrap-IsUnwrapped,
}
use provable_sdk.Provable.Submit.{
  Service, is_retried, exhausted, submit_unencrypted, submit_encrypted, submit_once, before_attempt,
  attempts, base_for, submit_proving_request_safe, submit_proving_request,
}

module _ (sv : Service) where
  prove_answer-Ensures : (x : Exchange) → Ensures (λ r _. IsResult r) (prove_answer sv.json x)
  prove_answer-Ensures x = record { at = prove_answer-IsResult sv.json x }

  submit_unencrypted-Ensures :
      (jwt base : Bytes) (pr : ProvingRequest)
      → Ensures (λ r _. IsResult r) (submit_unencrypted sv jwt base pr)
  unfolding submit_unencrypted
  submit_unencrypted-Ensures jwt base pr = search (Ensures-rest, prove_answer-Ensures)

  submit_encrypted-Ensures :
      (jwt base : Bytes) (pr : ProvingRequest)
      → Ensures (λ r _. IsResult r) (submit_encrypted sv jwt base pr)
  unfolding submit_encrypted
  submit_encrypted-Ensures jwt base pr = search (Ensures-rest, prove_answer-Ensures) depth 12

  submit_once-Ensures :
      (privacy : Bool) (jwt base : Bytes) (pr : ProvingRequest)
      → Ensures (λ r _. IsResult r) (submit_once sv privacy jwt base pr)
  unfolding submit_once
  submit_once-Ensures true jwt base pr = submit_encrypted-Ensures jwt base pr
  submit_once-Ensures false jwt base pr = submit_unencrypted-Ensures jwt base pr

  module _ (base_delay : ℕ) (once : Net ProvingResult)
      (sure : Ensures (λ r _. IsResult r) once) where
    attempts-Ensures : (n k : ℕ) → Ensures (λ r _. IsResult r) (attempts sv base_delay once n k)
    unfolding attempts exhausted
    attempts-Ensures zero k = record { at = λ t. refused-IsResult 503 _ }
    attempts-Ensures (suc n) k = Ensures-rest (before_attempt sv base_delay once k) _ (λ a.
        Ensures-bind (λ r _. IsResult r) once _ sure
          (λ r t h. elim (Bool-cases (is_retried r)) [
            | inl e ↦ rw e ((attempts-Ensures n (suc k)).at t)
            | inr e ↦ rw e h
          ]))

  module _ (c : ProvableClient) (params : DelegatedProvingParams) where
    -- One attempt, with the token that GetJWT gave.
    abbrev once_with : Bytes → Net ProvingResult
    once_with jwt =
        submit_once sv params.dps_privacy jwt (base_for sv c params) params.proving_request

    -- A result of the safe way to submit is well formed.
    abbrev IsSafe : Result ProvingResult → Type 0
    IsSafe (ok r) = IsResult r
    IsSafe (err e) = Unit

    OnSuccess-IsSafe :
        (r : Result ProvingResult) (t : Trace) → OnSuccess (λ r _. IsResult r) r t → IsSafe r
    OnSuccess-IsSafe (ok r) t h = h
    OnSuccess-IsSafe (err e) t h = tt

    submit_proving_request_safe-IsSafe :
        (s : Session) → IsSafe (submit_proving_request_safe sv c params s).0
    unfolding submit_proving_request_safe
    submit_proving_request_safe-IsSafe s =
        elim (Result-cases (get_jwt sv.env sv.json sv.prim c s).0) [
          | inl (jwt, e) ↦
              let t : Trace = (get_jwt sv.env sv.json sv.prim c s).1.trace in
              rw e (
                OnSuccess-IsSafe _ _ (
                  (attempts-Ensures c.base_delay (once_with jwt)
                      (submit_once-Ensures params.dps_privacy jwt (base_for sv c params)
                        params.proving_request)
                      (rounds c.max_retries) 0).at
                    t))
          | inr (x, e) ↦ rw e tt
        ]

    abbrev pub IsAnswered : Result (Option ProvingResponse) → Type 0
    IsAnswered (ok o) = (d : ProvingResponse) × (o ≡ some d)
    IsAnswered (err e) = Unit

    unwrapped :
        (x : Result ProvingResult) (s : Session)
        → IsSafe x
        → IsAnswered (continue x (λ r. lift (unwrap r)) s).0
    unwrapped (ok r) s h = answered_of (unwrap r) (unwrap-IsUnwrapped r h)
      where
        answered_of : (x : Result (Option ProvingResponse)) → IsUnwrapped x → IsAnswered x
        answered_of (ok o) h = h
        answered_of (err e) h = tt
    unwrapped (err e) s h = tt

    -- Whatever the service answers: where SubmitProvingRequest returns no error, its response is not
    -- nil.
    pub submit_proving_request-IsAnswered :
        (s : Session) → IsAnswered (submit_proving_request sv c params s).0
    unfolding submit_proving_request
    submit_proving_request-IsAnswered s =
        unwrapped (submit_proving_request_safe sv c params s).0
          (submit_proving_request_safe sv c params s).1 (submit_proving_request_safe-IsSafe s)
