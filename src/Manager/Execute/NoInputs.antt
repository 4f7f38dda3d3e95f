-- ===== src/Manager/Execute/NoInputs.antt =====
-- ExecuteViaDPS of a request whose inputs are nil.
use mathlib.Core.Path.{subst}
use provable_sdk.Base.{
  ℕ, ◌≡◌, ◌≢◌, ap, false, Option, none, some, Bytes, codes, Bool-cases, inl, inr,
}
use provable_sdk.Text.{is_empty}
use provable_sdk.Fault.{annotate}
use provable_sdk.Exec.{Result, ok, lift}
use provable_sdk.Partial.{Partial, total, >>=-eq-ok, on_fault, on_fault-eq-ok}
use provable_sdk.Types.{Authorization, ProvingRequest}
use provable_sdk.Memory.{Memory}
use provable_sdk.Bridge.{c_string}
use provable_sdk.Bridge.Rust.{failed, done}
use provable_sdk.Bridge.Rust.Crates.{Crates}
use provable_sdk.Bridge.Rust.Linked.{linked}
use provable_sdk.Provable.Submit.{Service}
use provable_sdk.Imports.{ProvingRequestOptions, Programs, build_authorization_with_cache}
use provable_sdk.Imports.Refused.{AreMessages, build_authorization_with_cache-ne-ok}
use provable_sdk.Manager.{ProgramManager, Managed}
use provable_sdk.Manager.Execute.{
  on_programs, request_options, chosen_key, authorize_with, build_authorization,
  build_proving_request, build_proving_request_from_authorization, execute_via_dps,
}
use provable_sdk.Manager.Execute.Outcome.{execute_via_dps-IsExecuted}

-- The action on the programs that a value comes from.
on_programs-eq-ok :
    {A : Type 0} (act : Partial Programs A) (s : Managed) {a : A} {u : Managed}
    → on_programs act s ≡ (some (ok a), u)
    → (q : Programs) × (act (record { trace = s.session.trace; cache = some s.programs })
        ≡ (some (ok a), q))
on_programs-eq-ok {A} act s {a} h =
    go (act (record { trace = s.session.trace; cache = some s.programs }))
      (ap (λ (p : Option (Result A) × Managed). p.0) h)
  where
    go :
        (x : Option (Result A) × Programs)
        → x.0 ≡ some (ok a)
        → (q : Programs) × (x ≡ (some (ok a), q))
    go (r, q) e = (q, ap (λ y. (y, q)) e)

module _ (sv : Service) (k : Crates) (rng rng' x : Bytes) (mem : Memory) (pm : ProgramManager)
    (fuel : ℕ) (is_linked : sv.lib ≡ linked k rng rng')
    (null : sv.json.marshal_strings none ≡ ok (codes "null"))
    (refused : k.read_strings (codes "null") ≡ failed x)
    (readable : AreMessages k sv.json rng rng' x) where
  authorize_with-ne-ok :
      (opts : ProvingRequestOptions) (key : Bytes) (s : Managed) {sk : k.PrivateKey}
      {auth : Authorization} {u : Managed}
      → opts.inputs ≡ none
      → k.parse_private_key (c_string key) ≡ done sk
      → authorize_with sv mem pm fuel opts key s ≢ (some (ok auth), u)
  unfolding authorize_with request_options
  authorize_with-ne-ok opts key s {auth = auth} {u = u} given read =
      let asked : ProvingRequestOptions =
        record (request_options opts.program_name opts.function_name opts.inputs false) {
          private_key = key;
        } in
      let act : Partial Programs Authorization =
        build_authorization_with_cache sv.env sv.json sv.lib pm.network_client fuel asked in
      elim (Bool-cases (is_empty key)) [
        | inl e ↦ rw e (λ h. cc (ap (λ (y : Option (Result Authorization) × Managed). y.0) h))
        | inr e ↦ rw e (λ h.
            let (q, f) = on_programs-eq-ok act s h in
            build_authorization_with_cache-ne-ok k sv.json rng rng' x refused readable sv.env
              pm.network_client fuel asked
              (record { trace = s.session.trace; cache = some s.programs }) {auth = auth} {u = q}
              given null read
              (subst
                (λ lib.
                  build_authorization_with_cache sv.env sv.json lib pm.network_client fuel asked
                    (record { trace = s.session.trace; cache = some s.programs })
                  ≡ (some (ok auth), q))
                is_linked f))
      ]

  build_proving_request-ne-ok :
      (opts : ProvingRequestOptions) (s : Managed) {sk : k.PrivateKey} {req : ProvingRequest}
      {u : Managed}
      → opts.inputs ≡ none
      → k.parse_private_key (c_string (chosen_key mem pm.account opts.private_key)) ≡ done sk
      → build_proving_request sv mem pm fuel opts s ≢ (some (ok req), u)
  unfolding build_proving_request build_authorization
  build_proving_request-ne-ok opts s given read h =
      let (auth, t, e, _) =
        >>=-eq-ok
          (on_fault (annotate (codes "build authorization"))
            (build_authorization sv mem pm fuel opts))
          (λ auth. total (lift (ok (build_proving_request_from_authorization auth opts.broadcast))))
          s h in
      authorize_with-ne-ok opts (chosen_key mem pm.account opts.private_key) s given read (
        on_fault-eq-ok (annotate (codes "build authorization"))
          (build_authorization sv mem pm fuel opts) s e)

  -- ExecuteViaDPS with nil inputs gives no transaction ID.
  pub execute_via_dps-ne-ok :
      (opts : ProvingRequestOptions) (s : Managed) {sk : k.PrivateKey} {id : Bytes} {u : Managed}
      → opts.inputs ≡ none
      → k.parse_private_key (c_string (chosen_key mem pm.account opts.private_key)) ≡ done sk
      → execute_via_dps sv mem pm fuel opts s ≢ (some (ok id), u)
  execute_via_dps-ne-ok opts s {id = id} {u = u} given read h =
      let executed = execute_via_dps-IsExecuted sv mem pm fuel opts s {id = id} {u = u} h in
      build_proving_request-ne-ok opts s given read executed.builds
