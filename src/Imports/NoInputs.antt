-- ===== src/Imports/NoInputs.antt =====
-- BuildAuthorization of a request whose inputs are nil.
use provable_sdk.Base.{ℕ, ◌≡◌, refl, ◌++◌, true, false, none, some, List, Bytes, codes}
use provable_sdk.Text.{is_empty}
use provable_sdk.Fault.{annotate, plain}
use provable_sdk.Exec.{ok, err}
use provable_sdk.Http.Env.{Env}
use provable_sdk.Json.{Json}
use provable_sdk.Network.{NetworkClient}
use provable_sdk.Bridge.{c_string, result_or_error}
use provable_sdk.Bridge
use provable_sdk.Bridge.Rust.{
  failed, done, prefixed, IsMessage, IsReadable, returned, result_or_error-ffi_catch,
}
use provable_sdk.Bridge.Rust.Crates.{Crates}
use provable_sdk.Bridge.Rust.Pointer.{is_utf8, argument-done}
use provable_sdk.Bridge.Rust.Authorize.{read_inputs, authorize, aleo_authorize}
use provable_sdk.Bridge.Rust.Linked.{linked}
use provable_sdk.Imports.{
  Programs, ProvingRequestOptions, fetch_program_cached, resolve_imports_ordered, authorized, build,
  build_authorization_with_cache,
}

pub null_utf8 : is_utf8 (codes "null") ≡ true
unfolding is_utf8
null_utf8 = refl

module _ (k : Crates) (json : Json) (rng rng' : Bytes) where
  -- The body of aleo_authorize where the inputs are the text null.
  pub body_failed :
      (sk source name imports_json : Bytes) {key : k.PrivateKey} {x : Bytes}
      → (is_utf8 sk ≡ true)
        × (is_utf8 source ≡ true)
        × (is_utf8 name ≡ true)
        × (is_utf8 imports_json ≡ true)
      → k.parse_private_key sk ≡ done key
      → k.read_strings (codes "null") ≡ failed x
      → authorize k rng
          (some sk)
          (some source)
          (some name)
          (some (codes "null"))
          (some imports_json)
        ≡ failed (prefixed (codes "parse inputs JSON") x)
  unfolding authorize read_inputs
  body_failed sk source name imports_json (u1, u2, u3, u4) read refused = rw (
    argument-done (codes "null private key") sk u1,
    argument-done (codes "null program source") source u2,
    argument-done (codes "null function name") name u3,
    argument-done (codes "null inputs json") (codes "null") null_utf8,
    argument-done (codes "null imports json") imports_json u4,
    read,
    refused,
  )

  authorize_null :
      (sk source name imports_json : Bytes) {key : k.PrivateKey} {x : Bytes}
      → (is_utf8 (c_string sk) ≡ true)
        × (is_utf8 (c_string source) ≡ true)
        × (is_utf8 (c_string name) ≡ true)
        × (is_utf8 (c_string imports_json) ≡ true)
      → k.parse_private_key (c_string sk) ≡ done key
      → k.read_strings (codes "null") ≡ failed x
      → IsMessage json k.escape
          (codes "panic during authorization")
          (prefixed (codes "parse inputs JSON") x)
      → Bridge.authorize (linked k rng rng') json sk source name (codes "null") imports_json
        ≡ err (plain (prefixed (codes "parse inputs JSON") x))
  unfolding Bridge.authorize linked aleo_authorize returned IsReadable c_string
  authorize_null sk source name imports_json {x = x} utf8 read refused message =
      rw
        (body_failed (c_string sk) (c_string source) (c_string name) (c_string imports_json) utf8
          read refused)
        (result_or_error-ffi_catch json k.escape (codes "panic during authorization")
          (failed (prefixed (codes "parse inputs JSON") x)) message)

  -- If the inputs of a request are nil, encoding/json writes them as null, and serde_json refuses null as
  -- a list, then BuildAuthorizationWithCache fails for every program, once its source and its imports
  -- are there, the texts are UTF-8, the private key is read and the message of the error comes through:
  -- with an error of the parsing of the inputs.
  pub build_authorization_with_cache_nil :
      (env : Env) (c : NetworkClient) (fuel : ℕ) (opts : ProvingRequestOptions)
      (programs : Programs) {source imports_json x : Bytes} {imports : List Bytes}
      {key : k.PrivateKey}
      → opts.inputs ≡ none
      → json.marshal_strings none ≡ ok (codes "null")
      → k.read_strings (codes "null") ≡ failed x
      → is_empty opts.private_key ≡ false
      → (fetch_program_cached env json c opts.program_name programs).0 ≡ ok source
      → (resolve_imports_ordered env json c fuel source
          (fetch_program_cached env json c opts.program_name programs).1).0
        ≡ some (ok imports)
      → json.marshal_strings (some imports) ≡ ok imports_json
      → (is_utf8 (c_string opts.private_key) ≡ true)
        × (is_utf8 (c_string source) ≡ true)
        × (is_utf8 (c_string opts.function_name) ≡ true)
        × (is_utf8 (c_string imports_json) ≡ true)
      → k.parse_private_key (c_string opts.private_key) ≡ done key
      → IsMessage json k.escape
          (codes "panic during authorization")
          (prefixed (codes "parse inputs JSON") x)
      → (build_authorization_with_cache env json (linked k rng rng') c fuel opts programs).0
        ≡ some (
            err (
              annotate
                (codes "authorize " ++ opts.program_name ++ codes "/" ++ opts.function_name)
                (plain (prefixed (codes "parse inputs JSON") x))))
  unfolding build_authorization_with_cache build authorized
  build_authorization_with_cache_nil env c fuel opts programs {source} {imports_json} none_given
        null refused given fetched resolved listed utf8 read message =
      rw (
        given,
        fetched,
        resolved,
        none_given,
        null,
        listed,
        authorize_null opts.private_key source opts.function_name imports_json utf8 read refused
            message,
      )
