-- ===== src/Tests/Dps/Rust/NoInputs.antt =====
-- BuildAuthorization for c.aleo without inputs.
use provable_sdk.Base.{
  ◌≡◌, ◌≢◌, ◌-◌, length, drop, take, refl, none, some, Option, List, [], ◌∷◌, ◌++◌, Bytes, codes,
  false,
}
use provable_sdk.Text.{bytes_eq, is_empty, split, trim_space, has_prefix}
use provable_sdk.Fault.{annotate, plain}
use provable_sdk.Exec.{Result, ok, err}
use provable_sdk.Json.{Json}
use provable_sdk.Bridge.{c_string}
use provable_sdk.Bridge.Rust.{error_json, failed, prefixed, has_nul, IsMessage}
use provable_sdk.Bridge.Rust.Crates.{Crates}
use provable_sdk.Bridge.Rust.Pointer.{is_utf8}
use provable_sdk.Bridge.Rust.Linked.{linked}
use provable_sdk.Imports.{
  Programs, ProvingRequestOptions, fetch_program_cached, resolve_imports_ordered, import_of, lines,
  build_authorization_with_cache,
}
use provable_sdk.Imports.NoInputs.{build_authorization_with_cache_nil}
use provable_sdk.Tests.{node_client}
use provable_sdk.Provable.Submit.{Service}
use provable_sdk.Manager.{ProgramManager, Managed}
use provable_sdk.Manager.Execute.{with_private_key}
use provable_sdk.Manager.Credits.{claim_unbonded}
use provable_sdk.Manager.Credits.Claim.{claim_unbonded-ne-ok}
use provable_sdk.Imports.Refused.{AreMessages}
use provable_sdk.Tests.Dps.{dps_codec, toy_box, dps_client, no_memory, with_token}
use provable_sdk.Tests.Dps.Rust.{toy_crates, c_source}
use provable_sdk.Tests.Dps.Rust.Loading.{node}

abbrev refused : Bytes
refused = codes "parse inputs JSON: no list"

abbrev written : Option (List Bytes) → Result Bytes
written none = ok (codes "null")
written (some xs) = ok (codes "[]")

abbrev null_codec : Json
null_codec = record dps_codec { marshal_strings = written; error = λ s. ok refused }

abbrev no_null : Crates
no_null = record toy_crates { read_strings = λ s. failed (codes "no list") }

abbrev call : ProvingRequestOptions
call = record {
  program_name = codes "c.aleo";
  function_name = codes "f";
  inputs = none;
  broadcast = false;
  dps_privacy = false;
  private_key = codes "sk";
  prover_url = [];
}

abbrev cached : Programs
cached = record { trace = []; cache = some ((codes "c.aleo", c_source) ∷ []) }

refused-IsMessage : IsMessage null_codec no_null.escape (codes "panic during authorization") refused
unfolding IsMessage has_nul
refused-IsMessage = ((λ e. absurd (cc e)), refl, refl)

c_fetched :
    (fetch_program_cached node null_codec node_client (codes "c.aleo") cached).0 ≡ ok c_source
unfolding fetch_program_cached bytes_eq
c_fetched = refl

c_resolved :
    (resolve_imports_ordered node null_codec node_client 1 c_source
      (fetch_program_cached node null_codec node_client (codes "c.aleo") cached).1).0
    ≡ some (ok [])
unfolding resolve_imports_ordered fetch_program_cached lines import_of bytes_eq split trim_space
    has_prefix
c_resolved = refl

build_authorization_with_cache_nil_example :
    (build_authorization_with_cache node null_codec
      (linked no_null [] [])
      node_client
      1
      call
      cached).0
    ≡ some (
        err (
          annotate
            (codes "authorize " ++ codes "c.aleo" ++ codes "/" ++ codes "f")
            (plain refused)))
unfolding is_empty is_utf8 c_string prefixed
build_authorization_with_cache_nil_example =
    build_authorization_with_cache_nil no_null null_codec [] [] node node_client 1 call cached refl
      refl refl refl c_fetched c_resolved refl (refl, refl, refl, refl) refl refused-IsMessage

-- A codec that reads the message of an error back, and a manager without an account.
abbrev claim_codec : Json
claim_codec = record null_codec {
  error = λ s. let rest = drop 10 s in ok (take (length rest - 2) rest);
}

abbrev claim_service : Service
claim_service = record {
  env = node;
  json = claim_codec;
  prim = toy_box;
  lib = linked no_null [] [];
}

abbrev claimer : ProgramManager
claimer = record {
  account = none;
  network_client = node_client;
  provable_client = some dps_client;
  network = codes "testnet";
}

abbrev unclaimed : Managed
unclaimed = record { session = with_token; programs = [] }

claim_messages : AreMessages no_null claim_codec [] [] (codes "no list")
unfolding IsMessage has_nul prefixed error_json
claim_messages = (
  ((λ e. absurd (cc e)), refl, refl),
  (
    ((λ e. absurd (cc e)), refl, refl),
    (
      ((λ e. absurd (cc e)), refl, refl),
      (((λ e. absurd (cc e)), refl, refl), (((λ e. absurd (cc e)), refl, refl), tt)),
    ),
  ),
)

claim_unbonded-ne-ok_example :
    claim_unbonded claim_service no_memory claimer 2 (with_private_key (codes "sk") ∷ []) unclaimed
    ≢ (some (ok (codes "at1")), unclaimed)
claim_unbonded-ne-ok_example =
    claim_unbonded-ne-ok claim_service no_null [] [] (codes "no list") no_memory claimer 2
      (with_private_key (codes "sk") ∷ []) unclaimed refl refl refl claim_messages (tt, tt) refl
