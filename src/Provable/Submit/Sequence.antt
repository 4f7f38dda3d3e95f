-- ===== src/Provable/Submit/Sequence.antt =====
-- The requests of SubmitProvingRequestSafe in their order.
use provable_sdk.Base.{
  ℕ, zero, suc, ◌≡◌, refl, ◌++◌, [], ◌∷◌, Bool, true, false, Bool-cases, inl, inr, Option-cases,
  rounds, Bytes, if◌then◌else◌, codes,
}
use provable_sdk.Fault.{annotate}
use provable_sdk.Exec.{Result, ok, err, map_fault, continue, pure, ◌>>=◌}
use provable_sdk.Http.Env.{Trace, Net, paused, pause, backoff}
use provable_sdk.Http.Within.{Grows}
use provable_sdk.Types.{ProvingRequest, ProvingResult, DelegatedProvingParams}
use provable_sdk.Provable.{ProvableClient, Session}
use provable_sdk.Provable.Jwt.{on_net, jwt_request, get_jwt}
use provable_sdk.Provable.Submit.{
  Service, pub_key_request, is_retried, before_attempt, attempts, submit_once, base_for,
  submit_proving_request_safe,
}
use provable_sdk.Provable.Submit.Requests.{
  IsPlainPost, IsSealedPost, submit_unencrypted-Within, submit_encrypted-Grows,
}
use provable_sdk.Provable.Submit.Privacy.{get_jwt-Grows}

module _ (sv : Service) where
  module _ (jwt base : Bytes) (pr : ProvingRequest) where
    -- What one attempt may send. With privacy: at most one question for a public key, and behind it at
    -- most one POST of the sealed request. Else at most one POST of the request as it is.
    pub Attempt : Bool → Trace → Trace → Type 0
    Attempt true t u =
        (v : Trace) × Grows (λ q. q ≡ pub_key_request jwt base) 1 t v
        × Grows (IsSealedPost sv jwt base pr) 1 v u
    Attempt false t u = Grows (IsPlainPost sv jwt base pr) 1 t u

    submit_once-Attempt :
        (privacy : Bool) (t : Trace) → Attempt privacy t (submit_once sv privacy jwt base pr t).1
    unfolding submit_once Attempt
    submit_once-Attempt true t = submit_encrypted-Grows sv jwt base pr t
    submit_once-Attempt false t = (submit_unencrypted-Within sv jwt base pr).at t

  module _ (base_delay : ℕ) (One : Trace → Trace → Type 0) where
    -- The wait before attempt `k`, doubled each time; there is none before the first.
    abbrev pub Waits : ℕ → Trace → Trace → Type 0
    Waits zero t u = u ≡ t
    Waits (suc k) t u = u ≡ t ++ paused (backoff sv.env base_delay k) ∷ []

    -- At most `n` attempts from attempt `k` on, each behind its wait.
    pub data Attempts : ℕ → ℕ → Trace → Trace → Type 0 where
      over : {n k : ℕ} {t : Trace} → Attempts n k t t
      cut_off : {n k : ℕ} {t u : Trace} → Waits k t u → Attempts (suc n) k t u
      made :
          {n k : ℕ} {t u v w : Trace}
          → Waits k t u
          → One u v
          → Attempts n (suc k) v w
          → Attempts (suc n) k t w

    module _ (once : Net ProvingResult) (h : (t : Trace) → One t (once t).1) where
      waited : (k : ℕ) (t : Trace) → Waits k t (before_attempt sv base_delay once k t).1
      unfolding before_attempt pause
      waited zero t = refl
      waited (suc k) t = elim (Option-cases (sv.env.interrupted t (backoff sv.env base_delay k))) [
        | inl e ↦ rw e refl
        | inr (x, e) ↦ rw e refl
      ]

      judge : ℕ → ℕ → ProvingResult → Net ProvingResult
      judge n k r = if is_retried r then attempts sv base_delay once n (suc k) else pure r

      module _ (n k : ℕ) (t u : Trace) (w : Waits k t u)
          (rest : (v : Trace)
            → Attempts n (suc k) v (attempts sv base_delay once n (suc k) v).1) where
        after_once :
            (r : Result ProvingResult) (v : Trace)
            → One u v
            → Attempts (suc n) k t (continue r (judge n k) v).1
        unfolding judge
        after_once (err e) v o = made w o over
        after_once (ok r) v o = elim (Bool-cases (is_retried r)) [
          | inl e ↦ rw e (made w o (rest v))
          | inr e ↦ rw e (made w o over)
        ]

        after_wait :
            (r : Result Unit) → Attempts (suc n) k t (continue r (λ _. once >>= judge n k) u).1
        after_wait (err e) = cut_off w
        after_wait (ok a) = after_once (once u).0 (once u).1 (h u)

      attempts-Attempts :
          (n k : ℕ) (t : Trace) → Attempts n k t (attempts sv base_delay once n k t).1
      unfolding attempts judge
      attempts-Attempts zero k t = over
      attempts-Attempts (suc n) k t =
          after_wait n k t (before_attempt sv base_delay once k t).1 (waited k t)
            (attempts-Attempts n (suc k)) (before_attempt sv base_delay once k t).0

  module _ (c : ProvableClient) (params : DelegatedProvingParams) where
    -- Behind the answer of GetJWT: nothing on an error, and else the attempts with its token.
    pub Sends : Result Bytes → Trace → Trace → Type 0
    Sends (err e) t u = u ≡ t
    Sends (ok jwt) t u =
        Attempts c.base_delay
          (Attempt jwt (base_for sv c params) params.proving_request params.dps_privacy)
          (rounds c.max_retries) 0 t u

    sends :
        (r : Result Bytes) (s : Session)
        → Sends r s.trace
            (continue
              (map_fault (annotate (codes "get JWT")) r)
              (λ jwt. on_net (
                attempts sv c.base_delay
                  (submit_once sv params.dps_privacy jwt
                    (base_for sv c params)
                    params.proving_request)
                  (rounds c.max_retries)
                  0))
              s).1.trace
    unfolding Sends
    sends (err e) s = refl
    sends (ok jwt) s =
        attempts-Attempts c.base_delay _ _
          (submit_once-Attempt jwt (base_for sv c params) params.proving_request params.dps_privacy)
          (rounds c.max_retries) 0 s.trace

    -- What SubmitProvingRequestSafe does, in this order. GetJWT sends at most one request, the POST for
    -- a token. If it fails, nothing follows. Else there are at most `maxRetries + 1` attempts, all with
    -- that token, and each but the first behind its doubled wait. An attempt without privacy sends at
    -- most one request, the POST of the encoded proving request. One with privacy sends at most one
    -- question for a public key and behind it at most one POST, whose body is the encoding of what the
    -- encryption makes of the request's bytes. Nothing else is sent.
    pub submit_proving_request_safe-Sends :
        (s : Session)
        → Grows
            (λ q. q ≡ jwt_request sv.env sv.json sv.prim c)
            1
            s.trace
            (get_jwt sv.env sv.json sv.prim c s).1.trace
          × Sends
              (get_jwt sv.env sv.json sv.prim c s).0
              (get_jwt sv.env sv.json sv.prim c s).1.trace
              (submit_proving_request_safe sv c params s).1.trace
    unfolding submit_proving_request_safe
    submit_proving_request_safe-Sends s =
        let (r, s') = get_jwt sv.env sv.json sv.prim c s in
        (get_jwt-Grows sv c (λ q. q ≡ jwt_request sv.env sv.json sv.prim c) s refl, sends r s')
