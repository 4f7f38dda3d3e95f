-- ===== src/Imports/Refused.antt =====
-- BuildAuthorization of a request whose inputs are nil, whatever the node answers.
use mathlib.Core.Path.{subst}
use provable_sdk.Base.{
  ℕ, ◌≡◌, ◌≢◌, refl, ap, ◌∙◌, Option, none, some, inl, inr, List, [], ◌∷◌, ◌++◌, Bytes, codes, All,
  Bool-cases,
}
use provable_sdk.Text.{is_empty}
use provable_sdk.Fault.{Fault, annotate, plain}
use provable_sdk.Exec.{Result, ok, err, map_fault, lift}
use provable_sdk.Partial.{Partial, total, on_fault, ◌>>=◌, >>=-eq-ok}
use provable_sdk.Http.Env.{Env}
use provable_sdk.Json.{Json}
use provable_sdk.Types.{Authorization}
use provable_sdk.Network.{NetworkClient}
use provable_sdk.Bridge.{Library, c_string}
use provable_sdk.Bridge
use provable_sdk.Bridge.Rust.{
  failed, done, prefixed, IsMessage, IsReadable, returned, result_or_error-ffi_catch,
}
use provable_sdk.Bridge.Rust.Crates.{Crates}
use provable_sdk.Bridge.Rust.Pointer.{argument-cases, argument-done}
use provable_sdk.Bridge.Rust.Authorize.{authorize, aleo_authorize}
use provable_sdk.Bridge.Rust.Linked.{linked}
use provable_sdk.Imports.{
  fetch_program_cached, resolve_imports_ordered, Programs, ProvingRequestOptions, authorized, build,
  build_authorization_with_cache,
}
use provable_sdk.Imports.NoInputs.{null_utf8, body_failed}

-- The action gives no value.
record Never {A : Type 0} (m : Partial Programs A) : Type 0 where
  at : (p : Programs) (a : A) (u : Programs) → m p ≢ (some (ok a), u)

Never-rest :
    {A B : Type 0} (m : Partial Programs A) (f : A → Partial Programs B)
    → ((a : A) → Never (f a))
    → Never (m >>= f)
Never-rest m f h = record {
  at = λ p b u e. let (a, t, e1, e2) = >>=-eq-ok m f p e in (h a).at t b u e2;
}

Never-lift :
    {A B : Type 0} (r : Result A) (f : A → Partial Programs B)
    → ((a : A) → r ≡ ok a → Never (f a))
    → Never (total (lift r) >>= f)
Never-lift (ok a) f h = record { at = (h a refl).at }
Never-lift (err e) f h = record {
  at = λ p b u e. cc (ap (λ (y : Option (Result _) × Programs). y.0) e);
}

Never-err : {A : Type 0} (r : Result A) → ((a : A) → r ≢ ok a) → Never (total (lift r))
Never-err (ok a) h = absurd (h a refl)
Never-err {A} (err e) h = record {
  at = λ p b u e. cc (ap (λ (y : Option (Result A) × Programs). y.0) e);
}

authorized-ne-ok :
    (env : Env) (json : Json) (lib : Library) (c : NetworkClient) (g : Fault → Fault)
    (r : Result Bytes) (auth : Authorization)
    → ((s : Bytes) → r ≢ ok s)
    → authorized env json lib c (map_fault g r) ≢ ok auth
unfolding authorized
authorized-ne-ok env json lib c g (ok s) auth h e = h s refl
authorized-ne-ok env json lib c g (err e) auth h e' = cc e'

marshalled :
    (g : Fault → Fault) (r : Result Bytes) {s t : Bytes} → r ≡ ok t → map_fault g r ≡ ok s → t ≡ s
marshalled g r e h = cc (ap (map_fault g) e, h)

-- The messages of aleo_authorize where the inputs are the text null, which is refused with `x`.
abbrev pub messages : Bytes → List Bytes
messages x =
    codes "null private key"
    ∷ codes "null program source"
    ∷ codes "null function name"
    ∷ codes "null imports json"
    ∷ prefixed (codes "parse inputs JSON") x
    ∷ []

module _ (k : Crates) (json : Json) (rng rng' x : Bytes) where
  -- They come through to the Go side.
  abbrev pub AreMessages : Type 0
  AreMessages = All (IsMessage json k.escape (codes "panic during authorization")) (messages x)

  module _ (refused : k.read_strings (codes "null") ≡ failed x) (readable : AreMessages) where
    authorize_refused :
        (sk source name imports_json : Bytes) {key : k.PrivateKey}
        → k.parse_private_key sk ≡ done key
        → (e : Bytes) × (authorize k rng
              (some sk)
              (some source)
              (some name)
              (some (codes "null"))
              (some imports_json)
            ≡ failed e)
          × IsMessage json k.escape (codes "panic during authorization") e
    unfolding authorize
    authorize_refused sk source name imports_json read =
        let (m1, (m2, (m3, (m4, (m5, _))))) = readable in
        elim (argument-cases (codes "null private key") sk) [
          | inr (u, e) ↦ (_, rw e refl, m1)
          | inl (u1, e1) ↦ elim (argument-cases (codes "null program source") source) [
            | inr (u, e) ↦ (_, rw (e1, e) refl, m2)
            | inl (u2, e2) ↦ elim (argument-cases (codes "null function name") name) [
              | inr (u, e) ↦ (_, rw (e1, e2, e) refl, m3)
              | inl (u3, e3) ↦ elim (argument-cases (codes "null imports json") imports_json) [
                | inr (u, e) ↦ (
                  _,
                  rw
                      (
                        e1,
                        e2,
                        e3,
                        argument-done (codes "null inputs json") (codes "null") null_utf8,
                        e,
                      )
                      refl,
                  m4,
                )
                | inl (u4, e4) ↦ (
                  _,
                  body_failed k json rng rng' sk source name imports_json (u1, u2, u3, u4) read
                      refused,
                  m5,
                )
              ]
            ]
          ]
        ]

    -- The library authorizes nothing.
    authorize-ne-ok :
        (sk source name imports_json : Bytes) {key : k.PrivateKey} {s : Bytes}
        → k.parse_private_key (c_string sk) ≡ done key
        → Bridge.authorize (linked k rng rng') json sk source name (codes "null") imports_json
          ≢ ok s
    unfolding Bridge.authorize linked aleo_authorize returned IsReadable c_string
    authorize-ne-ok sk source name imports_json {s = s} read h =
        let (e, f, m) =
          authorize_refused (c_string sk) (c_string source) (c_string name) (c_string imports_json)
            read in
        let g : Bridge.authorize (linked k rng rng') json sk source name (codes "null") imports_json
            ≡ err (plain e) =
          rw f (
            result_or_error-ffi_catch json k.escape (codes "panic during authorization") (failed e)
              m) in
        cc (g, h)

    build-Never :
        (env : Env) (c : NetworkClient) (fuel : ℕ) (opts : ProvingRequestOptions)
        {key : k.PrivateKey}
        → opts.inputs ≡ none
        → json.marshal_strings none ≡ ok (codes "null")
        → k.parse_private_key (c_string opts.private_key) ≡ done key
        → Never (build env json (linked k rng rng') c fuel opts)
    unfolding build
    build-Never env c fuel opts none_given null read =
        let lib : Library = linked k rng rng' in
        let context : Fault → Fault =
          annotate (codes "authorize " ++ opts.program_name ++ codes "/" ++ opts.function_name) in
        let finish : Bytes → Bytes → Bytes → Partial Programs Authorization =
          λ source inputs listing. total (
            lift (
              authorized env json lib c (
                map_fault context (
                  Bridge.authorize lib json opts.private_key source opts.function_name inputs
                    listing)))) in
        let listed : Bytes → List Bytes → Partial Programs Bytes = λ source imports. total (
          lift (
            map_fault (annotate (codes "marshal imports"))
              (json.marshal_strings (some imports)))) in
        let encoded : Result Bytes =
          map_fault (annotate (codes "marshal inputs")) (json.marshal_strings opts.inputs) in
        let resolved : Bytes → Partial Programs (List Bytes) = λ source.
          on_fault (annotate (codes "resolve imports"))
            (resolve_imports_ordered env json c fuel source) in
        let behind : Bytes → List Bytes → Partial Programs Authorization = λ source imports.
          total (lift encoded) >>= (λ inputs. listed source imports >>= finish source inputs) in
        Never-rest
          (total (λ p.
            let (r, q) = fetch_program_cached env json c opts.program_name p in
            (map_fault (annotate (codes "fetch program " ++ opts.program_name)) r, q)))
          (λ source. resolved source >>= behind source)
          (λ source. Never-rest (resolved source) (behind source) (λ imports.
            Never-lift encoded (λ inputs. listed source imports >>= finish source inputs)
              (λ inputs e. Never-rest (listed source imports) (finish source inputs) (λ listing.
                Never-err _ (λ auth. authorized-ne-ok env json lib c context _ auth (λ s.
                  subst
                    (λ t.
                      Bridge.authorize lib json opts.private_key source opts.function_name t listing
                      ≢ ok s)
                    (marshalled (annotate (codes "marshal inputs"))
                      (json.marshal_strings opts.inputs) (ap json.marshal_strings none_given ∙ null)
                      e)
                    (authorize-ne-ok opts.private_key source opts.function_name listing read)))))))

    -- Where the private key is read, no authorization is built without inputs.
    pub build_authorization_with_cache-ne-ok :
        (env : Env) (c : NetworkClient) (fuel : ℕ) (opts : ProvingRequestOptions) (p : Programs)
        {key : k.PrivateKey} {auth : Authorization} {u : Programs}
        → opts.inputs ≡ none
        → json.marshal_strings none ≡ ok (codes "null")
        → k.parse_private_key (c_string opts.private_key) ≡ done key
        → build_authorization_with_cache env json (linked k rng rng') c fuel opts p
          ≢ (some (ok auth), u)
    unfolding build_authorization_with_cache
    build_authorization_with_cache-ne-ok env c fuel opts p {auth = auth} {u = u} none_given null
          read =
        elim (Bool-cases (is_empty opts.private_key)) [
          | inl e ↦ rw e (λ h. cc (ap (λ (y : Option (Result Authorization) × Programs). y.0) h))
          | inr e ↦ rw e ((build-Never env c fuel opts none_given null read).at p auth u)
        ]
