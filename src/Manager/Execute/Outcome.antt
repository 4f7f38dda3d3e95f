-- ===== src/Manager/Execute/Outcome.antt =====
-- ExecuteViaDPS as a whole: what its success means, and when it does nothing.
use mathlib.Core.Option.{some_inj}
use provable_sdk.Base.{
  ℕ, ◌≡◌, ◌≢◌, refl, ap, ◌∙◌, Bool, Option, none, some, Option-cases, [], Bytes, codes, inl, inr,
  arith,
}
use provable_sdk.Text.{is_empty}
use provable_sdk.Fault.{Fault, annotate, sentinel, no_private_key, provable_client_not_configured}
use provable_sdk.Exec.{Result, ok, err, lift}
use provable_sdk.Partial.{total, on_fault, ◌>>=◌, >>=-eq-ok, on_fault-eq-ok}
use provable_sdk.Json.{Json}
use provable_sdk.Types.{ProvingRequest, ProvingResponse}
use provable_sdk.Memory.{Memory}
use provable_sdk.Provable.{ProvableClient, Session}
use provable_sdk.Provable.Jwt.{Dps}
use provable_sdk.Provable.Reply.{transaction_id}
use provable_sdk.Provable.Reply.Id.{transaction_id-ne-nil}
use provable_sdk.Provable.Submit.{Service, submit_proving_request}
use provable_sdk.Imports.{ProvingRequestOptions}
use provable_sdk.Manager.{ProgramManager, Managed, Managing}
use provable_sdk.Manager.Execute.{
  chosen_key, proving_params, broadcast_fault, build_authorization, build_proving_request,
  authorize_with, configured, or_transaction_id, proved, prove_via, execute_via_dps, on_session,
}

module _ (json : Json) where
  or_transaction_id_ok :
      (f : Option Fault) (r : ProvingResponse) {id : Bytes}
      → or_transaction_id json f r ≡ ok id
      → (f ≡ none) × (transaction_id json r ≡ ok id)
  unfolding or_transaction_id
  or_transaction_id_ok none r h = (refl, h)
  or_transaction_id_ok (some e) r h = absurd (cc h)

  proved_ok :
      (broadcast : Bool) (o : Option ProvingResponse) {id : Bytes}
      → proved json broadcast o ≡ ok id
      → (r : ProvingResponse) × (o ≡ some r)
        × (broadcast_fault broadcast r.broadcast_result ≡ none)
        × (transaction_id json r ≡ ok id)
  unfolding proved
  proved_ok broadcast none h = absurd (cc h)
  proved_ok broadcast (some r) h = let (e, e') = or_transaction_id_ok _ r h in (r, refl, e, e')

on_session-eq-ok :
    {A : Type 0} (m : Dps A) (s : Managed) {a : A} {u : Managed}
    → on_session m s ≡ (some (ok a), u)
    → (session : Session) × (m s.session ≡ (ok a, session))
on_session-eq-ok {A} m s {a} h = go (m s.session) (ap (λ (p : Option (Result A) × Managed). p.0) h)
  where
    go :
        (x : Result A × Session)
        → some (x.0) ≡ some (ok a)
        → (session : Session) × (x ≡ (ok a, session))
    go (r, session) e = (session, ap (λ y. (y, session)) (some_inj.0 e))

module _ (sv : Service) (mem : Memory) (pm : ProgramManager) (fuel : ℕ) where
  -- A client of the prover is configured, a request is built, the prover answers it with a response,
  -- no broadcast that was asked for has failed, and the ID is that of the response.
  pub record IsExecuted (opts : ProvingRequestOptions) (s : Managed) (id : Bytes) : Type 0 where
    pub client : ProvableClient
    pub is_client : pm.provable_client ≡ some client
    pub request : ProvingRequest
    pub built : Managed
    pub builds : build_proving_request sv mem pm fuel opts s ≡ (some (ok request), built)
    pub response : ProvingResponse
    pub answered : Session
    pub answers :
        submit_proving_request sv client (proving_params opts request) built.session
        ≡ (ok (some response), answered)
    pub unbroken : broadcast_fault opts.broadcast response.broadcast_result ≡ none
    pub identified : transaction_id sv.json response ≡ ok id
    pub nonempty : id ≢ []

  prove_via-IsExecuted :
      (opts : ProvingRequestOptions) (c : ProvableClient) (s : Managed) {id : Bytes} {u : Managed}
      → pm.provable_client ≡ some c
      → prove_via sv mem pm fuel opts c s ≡ (some (ok id), u)
      → IsExecuted opts s id
  unfolding prove_via
  prove_via-IsExecuted opts c s is_c h =
      let ask : ProvingRequest → Managing (Option ProvingResponse) =
        λ req. on_session (submit_proving_request sv c (proving_params opts req)) in
      let tell : Option ProvingResponse → Managing Bytes =
        λ r. total (lift (proved sv.json opts.broadcast r)) in
      let (req, t, e, rest) =
        >>=-eq-ok (build_proving_request sv mem pm fuel opts)
          (λ req. on_fault (annotate (codes "prove")) (ask req) >>= tell) s h in
      let (o, v, e', rest') =
        >>=-eq-ok (on_fault (annotate (codes "prove")) (ask req)) tell t rest in
      let (session, answers) =
        on_session-eq-ok (submit_proving_request sv c (proving_params opts req)) t
          (on_fault-eq-ok (annotate (codes "prove")) (ask req) t e') in
      let (r, same, unbroken, identified) =
        proved_ok sv.json opts.broadcast o (ground (arith, rest')) in
      record {
        client = c;
        is_client = is_c;
        request = req;
        built = t;
        builds = e;
        response = r;
        answered = session;
        answers = answers ∙ ap (λ x. (ok x, session)) same;
        unbroken = unbroken;
        identified = identified;
        nonempty = transaction_id-ne-nil sv.json r identified;
      }

  -- If ExecuteViaDPS returns an ID, then a client of the prover is configured, an authorization was
  -- built, the prover answered the request with a response, a broadcast that was asked for has not
  -- failed, and the ID, which is not empty, is that of the response's transaction.
  pub execute_via_dps-IsExecuted :
      (opts : ProvingRequestOptions) (s : Managed) {id : Bytes} {u : Managed}
      → execute_via_dps sv mem pm fuel opts s ≡ (some (ok id), u)
      → IsExecuted opts s id
  unfolding execute_via_dps configured
  execute_via_dps-IsExecuted opts s {id} {u} h = elim (Option-cases pm.provable_client) [
    | inl e ↦ absurd (ground (arith, e, h))
    | inr (c, e) ↦ prove_via-IsExecuted opts c s {id = id} {u = u} e (ground (arith, e, h))
  ]

  -- With no client of the prover, ExecuteViaDPS returns ErrProvableClientNotConfigured; with one, but
  -- with no private key in the options or the account, it returns ErrNoPrivateKey in the context of the
  -- authorization. Either way it sends nothing and changes nothing.
  pub execute_via_dps_unready :
      (opts : ProvingRequestOptions) (s : Managed)
      → (pm.provable_client ≡ none
          → execute_via_dps sv mem pm fuel opts s
            ≡ (some (err (sentinel provable_client_not_configured)), s))
        × ((c : ProvableClient)
            → pm.provable_client ≡ some c
            → chosen_key mem pm.account opts.private_key ≡ []
            → execute_via_dps sv mem pm fuel opts s
              ≡ (some (err (annotate (codes "build authorization") (sentinel no_private_key))), s))
  unfolding execute_via_dps configured prove_via build_proving_request build_authorization
      authorize_with is_empty
  execute_via_dps_unready opts s = (λ e. rw e refl, λ c e k. rw e (rw k refl))
