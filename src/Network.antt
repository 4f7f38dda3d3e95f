-- ===== src/Network.antt =====
-- network_client.go: the client's configuration and its options. `http` is the environment, and the
-- logger has no effect that the SDK reads.
pub mod Get
pub mod Queries
pub mod Submit
pub mod Iterator
pub mod Wait
use provable_sdk.Base.{
  ℕ, ◌+◌, ◌*◌, ◌^◌, ◌≡◌, refl, Bool, true, false, List, [], ◌∷◌, ◌++◌, foldl, ℤ, pos, Bytes, codes,
  ltb, if◌then◌else◌,
}
use provable_sdk.Text.{bytes_eq, trim_right}
use provable_sdk.Types.{Network}

-- `limited` says that the rate limiter is not nil; `limit` is its rate and burst.
pub record NetworkClient : Type 0 where
  pub host : Bytes
  pub network : Network
  pub headers : List (Bytes × Bytes)
  pub max_retries : ℤ
  pub base_delay : ℕ
  pub limited : Bool
  pub limit : ℕ

pub data NetworkClientOption : Type 0 where
  with_header : Bytes → Bytes → NetworkClientOption
  with_retry : ℤ → ℕ → NetworkClientOption
  with_rate_limit : ℤ → NetworkClientOption

-- m[key] = value, for a Go map
unfoldable pub put_entry : Bytes → Bytes → List (Bytes × Bytes) → List (Bytes × Bytes)
put_entry key value [] = (key, value) ∷ []
put_entry key value ((k, v) ∷ m) =
    if bytes_eq k key then (key, value) ∷ m else (k, v) ∷ put_entry key value m

unfoldable pub set_limit : ℤ → NetworkClient → NetworkClient
set_limit (pos n) nc = if ltb 0 n then record nc { limited = true; limit = n } else nc
set_limit _ nc = nc

unfoldable pub apply_option : NetworkClient → NetworkClientOption → NetworkClient
unfolding put_entry set_limit bytes_eq
apply_option nc (with_header key value) = record nc { headers = put_entry key value nc.headers }
apply_option nc (with_retry max_retries base_delay) = record nc {
  max_retries = max_retries;
  base_delay = base_delay;
}
apply_option nc (with_rate_limit per_second) = set_limit per_second nc

-- A millisecond in nanoseconds.
abbrev millisecond : ℕ
millisecond = 10 ^ 6

abbrev pub second : ℕ
second = 10 ^ 9

unfoldable pub new_network_client : Bytes → Network → List NetworkClientOption → NetworkClient
unfolding apply_option trim_right
new_network_client host network opts =
    foldl apply_option
      (record {
        host = trim_right host (codes "/");
        network = network;
        headers = [];
        max_retries = pos 3;
        base_delay = 500 * millisecond;
        limited = false;
        limit = 0;
      })
      opts

-- "/{network}"
unfoldable pub base_path : NetworkClient → Bytes
base_path c = codes "/" ++ c.network

-- fmt.Sprintf("%s%s…", c.host, c.basePath(), …)
unfoldable pub endpoint : NetworkClient → Bytes → Bytes
unfolding base_path
endpoint c path = c.host ++ base_path c ++ path
