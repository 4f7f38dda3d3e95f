-- ===== src/Provable/Submit/Schedule.antt =====
-- A plain SubmitProvingRequestSafe while the prover is busy: how long it goes on, what it sends and how
-- long it waits in between.
use provable_sdk.Base.{
  ℕ, zero, suc, ◌≤◌, ◌<◌, ◌≡◌, ◌≢◌, refl, ap, ◌∙◌, ◌⊎◌, inl, inr, false, true, some, none, List, [],
  ◌∷◌, ◌++◌, append-nil, append_assoc, arith, pos, rounds, Bytes, codes, if◌then◌else◌,
}
use provable_sdk.Fault.{Fault, annotate}
use provable_sdk.Exec.{Result, ok, err, pure, continue, ◌>>=◌}
use provable_sdk.Http.Env.{
  Action, sent, paused, Request, Response, Exchange, failed, answered, Trace, Net, new_request,
  do_request, pause, backoff,
}
use provable_sdk.Network.Submit.{is_accepted}
use provable_sdk.Types.{ProvingResponse, ProvingResult, DelegatedProvingParams}
use provable_sdk.Provable.{ProvableClient, Session}
use provable_sdk.Provable.Jwt.{get_jwt}
use provable_sdk.Provable.Reply.{extract_err_msg, prove_answer, handle_proving_response}
use provable_sdk.Provable.Submit.{
  Service, prove_request, is_retried, before_attempt, attempts, submit_unencrypted, submit_once,
  base_for, exhausted, submit_proving_request_safe,
}

-- A 500 or a 503 whose body can be read.
unfoldable pub IsBusy : Exchange → Type 0
IsBusy (failed e) = ⊥
IsBusy (answered r) = ((r.status ≡ 500) ⊎ (r.status ≡ 503)) × ((body : Bytes) × (r.body ≡ ok body))

-- A result with OK.
abbrev pub granted : ProvingResponse → ProvingResult
granted d = record { success = true; payload = some d; status = 0; error = none }

-- A result without OK.
abbrev pub refusal : ℕ → Bytes → ProvingResult
refusal status message = record {
  success = false;
  payload = none;
  status = status;
  error = some (record { message = message });
}

module _ (sv : Service) where
  -- What any other answer comes to.
  pub data Judged : Exchange → Result ProvingResult → Type 0 where
    no_answer : (e : Fault) → Judged (failed e) (err (annotate (codes "prove request failed") e))
    unreadable :
        {r : Response} (e : Fault)
        → r.body ≡ err e
        → Judged (answered r) (err (annotate (codes "read prove response") e))
    proved :
        {r : Response} {body : Bytes} (d : ProvingResponse)
        → (r.status ≡ 200) ⊎ (r.status ≡ 201)
        → r.body ≡ ok body
        → sv.json.proving_response body ≡ ok d
        → Judged (answered r) (ok (granted d))
    garbled :
        {r : Response} {body : Bytes} (e : Fault)
        → (r.status ≡ 200) ⊎ (r.status ≡ 201)
        → r.body ≡ ok body
        → sv.json.proving_response body ≡ err e
        → Judged (answered r) (ok (refusal r.status (codes "invalid proving response format")))
    turned_down :
        {r : Response} {body : Bytes}
        → r.status ≢ 200
        → r.status ≢ 201
        → r.status ≢ 500
        → r.status ≢ 503
        → r.body ≡ ok body
        → Judged (answered r) (ok (refusal r.status (extract_err_msg sv.json body r.status)))

  IsLast : Result ProvingResult → Type 0
  IsLast (ok r) = is_retried r ≡ false
  IsLast (err e) = Unit

  prove_answer-IsBusy :
      (x : Exchange) (t : Trace)
      → IsBusy x
      → (r : ProvingResult) × (prove_answer sv.json x t ≡ (ok r, t)) × (is_retried r ≡ true)
  unfolding prove_answer handle_proving_response is_accepted is_retried IsBusy
  prove_answer-IsBusy (failed e) t h = absurd h
  prove_answer-IsBusy (answered r) t (inl p, (body, e)) =
      (handle_proving_response sv.json r.status body, rw e refl, rw p refl)
  prove_answer-IsBusy (answered r) t (inr p, (body, e)) =
      (handle_proving_response sv.json r.status body, rw e refl, rw p refl)

  prove_answer-Judged :
      {x : Exchange} {R : Result ProvingResult} (t : Trace)
      → Judged x R
      → (prove_answer sv.json x t ≡ (R, t)) × IsLast R
  unfolding prove_answer handle_proving_response is_accepted is_retried IsLast
  prove_answer-Judged t (no_answer e) = (refl, tt)
  prove_answer-Judged t (unreadable e h) = (rw h refl, tt)
  prove_answer-Judged t (proved d (inl p) h j) = (rw (h, p, j) refl, refl)
  prove_answer-Judged t (proved d (inr p) h j) = (rw (h, p, j) refl, refl)
  prove_answer-Judged t (garbled e (inl p) h j) = (rw (h, p, j) refl, rw p refl)
  prove_answer-Judged t (garbled e (inr p) h j) = (rw (h, p, j) refl, rw p refl)
  prove_answer-Judged t (turned_down a b c d h) = (rw h (ground arith), ground arith)

  module _ (c : ProvableClient) (params : DelegatedProvingParams) (jwt body : Bytes) where
    unfoldable pub the_request : Request
    the_request = prove_request jwt (base_for sv c params) body

    wait : ℕ → List Action
    wait zero = []
    wait (suc k) = paused (backoff sv.env c.base_delay k) ∷ []

    -- What attempt `k` does, written out: the doubled wait, but before the first, and the POST.
    unfoldable pub actions : ℕ → List Action
    unfolding wait the_request
    actions k = wait k ++ sent the_request ∷ []

    -- The `n` attempts from attempt `k` on.
    unfoldable pub schedule : ℕ → ℕ → List Action
    unfolding actions
    schedule zero k = []
    schedule (suc n) k = actions k ++ schedule n (suc k)

    -- The answer to attempt `k` behind the trace `t`.
    unfoldable pub answer : ℕ → Trace → Exchange
    unfolding wait the_request
    answer k t = sv.env.respond (t ++ wait k) the_request

    -- The next `n` answers are those of a busy prover.
    unfoldable pub BusyFor : ℕ → ℕ → Trace → Type 0
    BusyFor zero k t = Unit
    BusyFor (suc n) k t = IsBusy (answer k t) × BusyFor n (suc k) (t ++ actions k)

    -- The next `n` answers are those of a busy prover, and the one behind them comes to the result.
    unfoldable pub ComesTo : Result ProvingResult → ℕ → ℕ → Trace → Type 0
    ComesTo r zero k t = Judged (answer k t) r
    ComesTo r (suc n) k t = IsBusy (answer k t) × ComesTo r n (suc k) (t ++ actions k)

    -- Waits are not cut off, the request is written as JSON and its URL is well formed.
    pub record IsOpen : Type 0 where
      pub plain : params.dps_privacy ≡ false
      pub written : sv.json.marshal_proving params.proving_request ≡ ok body
      pub accepts : sv.env.reject_url the_request.url ≡ none
      pub alive : (t : Trace) (d : ℕ) → sv.env.interrupted t d ≡ none

    module _ (open_way : IsOpen) where
      once : Trace → Result ProvingResult × Trace
      once = submit_once sv params.dps_privacy jwt (base_for sv c params) params.proving_request

      before_attempt-wait :
          (k : ℕ) (t : Trace) → before_attempt sv c.base_delay once k t ≡ (ok tt, t ++ wait k)
      unfolding before_attempt pause wait
      before_attempt-wait zero t = rw (append-nil t) refl
      before_attempt-wait (suc k) t = rw (open_way.alive t (backoff sv.env c.base_delay k)) refl

      once-answer :
          (t : Trace)
          → once t
            ≡ prove_answer sv.json (sv.env.respond t the_request) (t ++ sent the_request ∷ [])
      unfolding once submit_once submit_unencrypted new_request do_request the_request base_for
          prove_answer
      once-answer t = rw (open_way.plain, open_way.written, open_way.accepts) refl

      judge : ℕ → ℕ → ProvingResult → Net ProvingResult
      judge n k r = if is_retried r then attempts sv c.base_delay once n (suc k) else pure r

      -- An attempt is the answer to it, and what the loop makes of this.
      attempts-answer :
          (n k : ℕ) (t : Trace)
          → attempts sv c.base_delay once (suc n) k t
            ≡ (prove_answer sv.json (answer k t) >>= judge n k) (t ++ actions k)
      unfolding attempts actions answer judge
      attempts-answer n k t =
          rw
            (
              before_attempt-wait k t,
              once-answer (t ++ wait k),
              append_assoc t (wait k) (sent the_request ∷ []),
            )
            refl

      busy_round :
          (n k : ℕ) (t : Trace)
          → IsBusy (answer k t)
          → attempts sv c.base_delay once (suc n) k t
            ≡ attempts sv c.base_delay once n (suc k) (t ++ actions k)
      unfolding judge
      busy_round n k t h =
          let (r, e, f) = prove_answer-IsBusy (answer k t) (t ++ actions k) h in
          attempts-answer n k t ∙ rw (e, f) refl

      settle :
          (n k : ℕ) (t : Trace) (r : Result ProvingResult)
          → IsLast r
          → continue r (judge n k) t ≡ (r, t)
      unfolding judge IsLast
      settle n k t (ok r) h = rw h refl
      settle n k t (err e) h = refl

      last_round :
          (n k : ℕ) (t : Trace) {r : Result ProvingResult}
          → Judged (answer k t) r
          → attempts sv c.base_delay once (suc n) k t ≡ (r, t ++ actions k)
      last_round n k t {r} h =
          let (e, f) = prove_answer-Judged (t ++ actions k) h in
          attempts-answer n k t ∙ rw e (settle n k (t ++ actions k) r f)

      attempts-ComesTo :
          (n m k : ℕ) (t : Trace) {r : Result ProvingResult}
          → n < m
          → ComesTo r n k t
          → attempts sv c.base_delay once m k t ≡ (r, t ++ schedule (suc n) k)
      unfolding schedule ComesTo
      attempts-ComesTo n zero k t lt h = absurd (omega arith)
      attempts-ComesTo zero (suc m) k t {r} lt h = rw (append-nil (actions k)) (last_round m k t h)
      attempts-ComesTo (suc n) (suc m) k t {r} lt (b, rest) =
          busy_round m k t b
          ∙ attempts-ComesTo n m (suc k) (t ++ actions k) (omega arith) rest
          ∙ ap (λ u. (r, u)) (append_assoc t (actions k) (schedule (suc n) (suc k)))

      attempts-BusyFor :
          (n k : ℕ) (t : Trace)
          → BusyFor n k t
          → attempts sv c.base_delay once n k t
            ≡ (ok (refusal 503 (codes "max retries exceeded")), t ++ schedule n k)
      unfolding attempts exhausted schedule BusyFor
      attempts-BusyFor zero k t h = rw (append-nil t) refl
      attempts-BusyFor (suc n) k t (b, rest) =
          busy_round n k t b
          ∙ attempts-BusyFor n (suc k) (t ++ actions k) rest
          ∙ ap (λ u. (ok (refusal 503 (codes "max retries exceeded")), u))
              (append_assoc t (actions k) (schedule n (suc k)))

      -- Without privacy, where GetJWT gives a token, waits are not cut off, the request is written as JSON
      -- and its URL is well formed: if the prover answers `n` attempts with a 500 or a 503 whose body can
      -- be read, the next answer is another one, and the client allows `n` retries, then
      -- SubmitProvingRequestSafe returns what that answer comes to: the decoded response of a 200 or a
      -- 201, a result without OK for one that is not decoded and for any other status, and an error where
      -- there is no answer or its body can not be read. It has sent `n + 1` times the POST with the token,
      -- each but the first behind its doubled wait, and nothing else since GetJWT.
      pub submit_proving_request_safe-ComesTo :
          (m n : ℕ) (s : Session) {s' : Session} {r : Result ProvingResult}
          → c.max_retries ≡ pos m
          → n ≤ m
          → get_jwt sv.env sv.json sv.prim c s ≡ (ok jwt, s')
          → ComesTo r n 0 s'.trace
          → submit_proving_request_safe sv c params s
            ≡ (r, record s' { trace = s'.trace ++ schedule (suc n) 0 })
      unfolding submit_proving_request_safe once
      submit_proving_request_safe-ComesTo m n s {s'} e le g h =
          rw (g, ap rounds e, attempts-ComesTo n (suc m) 0 s'.trace (omega (arith, le)) h) refl

      -- Under the same conditions, if the prover answers all `maxRetries + 1` attempts with a 500 or a 503,
      -- then SubmitProvingRequestSafe returns no error, but a result without OK with status 503 and the
      -- message of spent retries, and that many POSTs were sent, each but the first behind its doubled
      -- wait.
      pub submit_proving_request_safe-BusyFor :
          (m : ℕ) (s : Session) {s' : Session}
          → c.max_retries ≡ pos m
          → get_jwt sv.env sv.json sv.prim c s ≡ (ok jwt, s')
          → BusyFor (suc m) 0 s'.trace
          → submit_proving_request_safe sv c params s ≡ (
            ok (refusal 503 (codes "max retries exceeded")),
            record s' { trace = s'.trace ++ schedule (suc m) 0 },
          )
      unfolding submit_proving_request_safe once
      submit_proving_request_safe-BusyFor m s {s'} e g h =
          rw (g, ap rounds e, attempts-BusyFor (suc m) 0 s'.trace h) refl
