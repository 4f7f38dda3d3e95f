-- ===== src/Provable.antt =====
-- provable_client.go: the configuration of the client of the delegated proving service (DPS), and the
-- URLs that it derives. The HTTP client is the environment.
pub mod Jwt
pub mod Reply
pub mod Submit
pub mod Origin
use provable_sdk.Base.{
  ℕ, zero, suc, ◌+◌, ◌*◌, ◌^◌, ℤ, pos, negsuc, rounds, List, [], ◌∷◌, ◌++◌, Bool, true, false, not,
  ◌&&◌, ◌||◌, Option, none, some, Bytes, codes, length, take, drop, get_elem?, ltb, ◌==◌,
  if◌then◌else◌,
}
use provable_sdk.Text.{is_empty, trim_right, index}
use provable_sdk.Fault.{plain}
use provable_sdk.Exec.{Result, ok, err}
use provable_sdk.Http.Env.{Trace}
use provable_sdk.Network.{second}

pub record ProvableConfig : Type 0 where
  pub api_key : Bytes
  pub consumer_id : Bytes
  pub prover_url : Bytes
  pub network : Bytes

-- What a ProvableClient is made with; SetProverURI changes `prover_base`.
pub record ProvableClient : Type 0 where
  pub api_key : Bytes
  pub consumer_id : Bytes
  pub api_base : Bytes
  pub prover_base : Bytes
  pub max_retries : ℤ
  pub base_delay : ℕ

-- What changes while it is used: the world, and the cached JWT with its time of expiry in nanoseconds.
pub record Session : Type 0 where
  pub trace : Trace
  pub jwt : Bytes
  pub jwt_exp : ℕ

abbrev pub default_prover : Bytes
default_prover = codes "https://api.provable.com/prove/"

unfoldable pub prover_base : ProvableConfig → Bytes
unfolding is_empty trim_right
prover_base cfg =
    let network = if is_empty cfg.network then codes "testnet" else cfg.network in
    let base = if is_empty cfg.prover_url then default_prover ++ network else cfg.prover_url in
    trim_right base (codes "/")

-- proverBase[:idx], where "/prove" is found at an index above 0
cut_at : Bytes → Option ℕ → Bytes
cut_at base none = base
cut_at base (some zero) = base
cut_at base (some (suc i)) = take (suc i) base

unfoldable pub api_base : Bytes → Bytes
unfolding cut_at index
api_base base = cut_at base (index base (codes "/prove"))

unfoldable pub new_provable_client : ProvableConfig → Result ProvableClient
new_provable_client cfg =
    if is_empty cfg.api_key
    then err (plain (codes "provable API key is required"))
    else if is_empty cfg.consumer_id
    then err (plain (codes "provable consumer ID is required"))
    else ok (record {
      api_key = cfg.api_key;
      consumer_id = cfg.consumer_id;
      api_base = api_base (prover_base cfg);
      prover_base = prover_base cfg;
      max_retries = pos 3;
      base_delay = 1 * second;
    })

-- ProvableClient.SetProverURI
unfoldable set_prover_uri : ProvableClient → Bytes → ProvableClient
unfolding trim_right
set_prover_uri c base = record c { prover_base = trim_right base (codes "/") }
