-- ===== src/Tests/Dps/Texts.antt =====
-- URLs, amounts and payloads on concrete data.
use mathlib.Core.List.{cons-ne-nil}
use provable_sdk.Base.{pos, ◌^◌, ◌≡◌, refl, [], codes}
use provable_sdk.Exec.{ok}
use provable_sdk.Text.{is_empty}
use provable_sdk.Http.{get_header}
use provable_sdk.Bridge.Rust.{failed, has_nul, IsMessage, IsReadable}
use provable_sdk.Provable.{
  ProvableConfig, ProvableClient, api_base, prover_base, new_provable_client,
}
use provable_sdk.Provable.Jwt.{jwt_request}
use provable_sdk.Provable.Origin.{jwt_request_prove_host}
use provable_sdk.Tests.{calm_env, reply}
use provable_sdk.Tests.Dps.{dps_codec, toy_box}

-- The error of a text that needs no escape.
no_key : IsReadable dps_codec (λ s. s) (codes "panic") (failed (codes "no key"))
unfolding IsReadable IsMessage has_nul
no_key = (cons-ne-nil _ _, refl, refl)

abbrev prove_config : ProvableConfig
prove_config = record {
  api_key = codes "key";
  consumer_id = codes "me";
  prover_url = codes "https://prove.org/prove/testnet/";
  network = [];
}

abbrev prove_client : ProvableClient
prove_client = record {
  api_key = codes "key";
  consumer_id = codes "me";
  api_base = codes "https:/";
  prover_base = codes "https://prove.org/prove/testnet";
  max_retries = pos 3;
  base_delay = 10 ^ 9;
}

made : new_provable_client prove_config ≡ ok prove_client
unfolding new_provable_client api_base prover_base is_empty
made = refl

jwt_request_prove_host_example :
    ((jwt_request (calm_env (λ t q. reply 200 [])) dps_codec toy_box prove_client).url
      ≡ codes "https://jwts/me")
    × (get_header
          (codes "X-Provable-API-Key")
          (jwt_request (calm_env (λ t q. reply 200 [])) dps_codec toy_box prove_client).headers
        ≡ codes "key")
jwt_request_prove_host_example =
    jwt_request_prove_host (calm_env (λ t q. reply 200 [])) dps_codec toy_box prove_config
      (codes ".org/prove/testnet/") refl made
