-- ===== src/Manager/Execute/Traffic.antt =====
-- What ExecuteViaDPS sends, to the node and to the prover.
use provable_sdk.Base.{
  ℕ, ◌+◌, ◌*◌, ◌≡◌, refl, ◌⊎◌, inl, inr, false, Option, none, some, Bool-cases, Bytes, codes, arith,
  rounds,
}
use provable_sdk.Text.{is_empty}
use provable_sdk.Fault.{annotate}
use provable_sdk.Exec.{Result, ok, err, lift, continue}
use provable_sdk.Partial.{total, on_fault}
use provable_sdk.Http.Env.{Request}
use provable_sdk.Http.Within.{Grows-imp}
use provable_sdk.Types.{ProvingRequest, ProvingResult}
use provable_sdk.Memory.{Memory}
use provable_sdk.Provable.{ProvableClient, Session}
use provable_sdk.Provable.Reply.{unwrap}
use provable_sdk.Provable.Submit.{
  Service, base_for, submit_proving_request, submit_proving_request_safe,
}
use provable_sdk.Provable.Submit.Privacy.{MaySend, per_attempt, submit_proving_request_safe-MaySend}
use provable_sdk.Imports.{ProvingRequestOptions}
use provable_sdk.Imports.Traffic.{
  Only, Only-refl, Keeps, Keeps-bind, Keeps-on_fault, IsProgramGet,
  build_authorization_with_cache-Keeps,
}
use provable_sdk.Manager.{ProgramManager, Managed, Managing}
use provable_sdk.Manager.Execute.{
  on_session, authorize_with, build_authorization, build_proving_request, proving_params,
  request_options, configured, prove_via, execute_via_dps,
}

-- The reading of a result is no I/O.
unwrap_state :
    (r : Result ProvingResult) (s : Session) → (continue r (λ x. lift (unwrap x)) s).1 ≡ s
unwrap_state (ok x) s = refl
unwrap_state (err e) s = refl

module _ (sv : Service) (pm : ProgramManager) (opts : ProvingRequestOptions) where
  -- A request of the submission of a proving request, by the client of the prover that is configured.
  IsSubmission : Request → Type 0
  IsSubmission q =
      (c : ProvableClient) × (pr : ProvingRequest) × (pm.provable_client ≡ some c)
      × MaySend sv c opts.dps_privacy (base_for sv c (proving_params opts pr)) pr q

  -- The GET of a program's source, or a request of a submission.
  pub IsRequest : Request → Type 0
  IsRequest q = IsProgramGet sv.env sv.json pm.network_client q ⊎ IsSubmission q

module _ (sv : Service) (mem : Memory) (pm : ProgramManager) (fuel : ℕ)
    (opts : ProvingRequestOptions) where
  abbrev Sends : {A : Type 0} → Managing A → Type 0
  Sends {A} m = Keeps {S = Managed} {A = A} (IsRequest sv pm opts) (λ s. s.session.trace) m

  lifted-Keeps : {A : Type 0} (r : Result A) → Sends (total (lift r))
  unfolding Keeps
  lifted-Keeps r s = Only-refl (IsRequest sv pm opts) s.session.trace

  authorized-Keeps : (key : Bytes) → Sends (authorize_with sv mem pm fuel opts key)
  unfolding authorize_with Keeps IsRequest Only
  authorized-Keeps key s = elim (Bool-cases (is_empty key)) [
    | inl e ↦ rw e (Only-refl (IsRequest sv pm opts) s.session.trace)
    | inr e ↦
        let (n, g) =
          build_authorization_with_cache-Keeps sv.env sv.json pm.network_client sv.lib fuel
            (record (request_options opts.program_name opts.function_name opts.inputs false) {
              private_key = key;
            })
            (record { trace = s.session.trace; cache = some s.programs }) in
        rw e (
          n,
          Grows-imp (IsProgramGet sv.env sv.json pm.network_client) (IsRequest sv pm opts) n n
              s.session.trace _ (λ q h. inl h) (omega arith) g,
        )
  ]

  build_proving_request-Keeps : Sends (build_proving_request sv mem pm fuel opts)
  unfolding build_proving_request build_authorization
  build_proving_request-Keeps =
      search
        (
          lifted-Keeps,
          authorized-Keeps,
          Keeps-bind {S = Managed} (IsRequest sv pm opts) (λ s. s.session.trace),
          Keeps-on_fault {S = Managed} (IsRequest sv pm opts) (λ s. s.session.trace),
        )
        depth 8

  submit-Only :
      (c : ProvableClient) (pr : ProvingRequest) (s : Session)
      → pm.provable_client ≡ some c
      → Only
          (IsRequest sv pm opts)
          s.trace
          (submit_proving_request sv c (proving_params opts pr) s).1.trace
  unfolding submit_proving_request proving_params Only IsRequest IsSubmission
  submit-Only c pr s is_c =
      let (r, s') = submit_proving_request_safe sv c (proving_params opts pr) s in
      let n : ℕ = 1 + rounds c.max_retries * per_attempt opts.dps_privacy in
      rw (unwrap_state r s') (
        n,
        Grows-imp (MaySend sv c opts.dps_privacy (base_for sv c (proving_params opts pr)) pr)
            (IsRequest sv pm opts) n n s.trace _ (λ q h. inr (c, pr, is_c, h)) (omega arith)
            (submit_proving_request_safe-MaySend sv c (proving_params opts pr) s),
      )

  submitted-Keeps :
      (c : ProvableClient) (pr : ProvingRequest)
      → pm.provable_client ≡ some c
      → Sends (on_session (submit_proving_request sv c (proving_params opts pr)))
  unfolding Keeps
  submitted-Keeps c pr is_c s = submit-Only c pr s.session is_c

  prove_via-Keeps :
      (c : ProvableClient) → pm.provable_client ≡ some c → Sends (prove_via sv mem pm fuel opts c)
  unfolding prove_via
  prove_via-Keeps c is_c =
      Keeps-bind {S = Managed} (IsRequest sv pm opts) (λ s. s.session.trace)
        (build_proving_request sv mem pm fuel opts) _ build_proving_request-Keeps
        (λ req.
          Keeps-bind {S = Managed} (IsRequest sv pm opts) (λ s. s.session.trace)
            (on_fault (annotate (codes "prove"))
              (on_session (submit_proving_request sv c (proving_params opts req))))
            _
            (Keeps-on_fault {S = Managed} (IsRequest sv pm opts) (λ s. s.session.trace)
              (annotate (codes "prove")) _ (submitted-Keeps c req is_c))
            (λ r. lifted-Keeps _))

  configured-Only :
      (o : Option ProvableClient) (s : Managed)
      → pm.provable_client ≡ o
      → Only
          (IsRequest sv pm opts)
          s.session.trace
          (configured o (prove_via sv mem pm fuel opts) s).1.session.trace
  unfolding configured Keeps
  configured-Only none s e = Only-refl (IsRequest sv pm opts) s.session.trace
  configured-Only (some c) s e = prove_via-Keeps c e s

  -- Whatever its outcome, ExecuteViaDPS only adds requests to the trace: GETs of sources of programs from
  -- the node, and requests of a submission of some proving request by the client of the prover, which
  -- with DPSPrivacy are the POST for a token, the question for a public key, and POSTs of what the
  -- encryption makes of the request's bytes.
  pub execute_via_dps-IsRequest :
      (s : Managed)
      → Only
          (IsRequest sv pm opts)
          s.session.trace
          (execute_via_dps sv mem pm fuel opts s).1.session.trace
  unfolding execute_via_dps
  execute_via_dps-IsRequest s = configured-Only pm.provable_client s refl
