-- ===== src/Client.antt =====
-- aleo.go: Client, which embeds a NetworkClient, and its options. The options WithClientHTTP and
-- WithClientLogger set what the model has in the environment, or not at all.
pub mod Options
use provable_sdk.Base.{ℕ, List, [], foldl, ℤ, pos, Bytes, true, ltb, if◌then◌else◌}
use provable_sdk.Types.{Network}
use provable_sdk.Network.{NetworkClient, new_network_client}

pub record Client : Type 0 where
  pub network_client : NetworkClient

pub data ClientOption : Type 0 where
  with_client_retries : ℤ → ℕ → ClientOption
  with_client_rate_limit : ℤ → ClientOption

limit_client : ℤ → Client → Client
limit_client (pos n) c =
    if ltb 0 n
    then record c { network_client = record c.network_client { limited = true; limit = n } }
    else c
limit_client _ c = c

unfoldable apply_client_option : Client → ClientOption → Client
unfolding limit_client
apply_client_option c (with_client_retries max_retries base_delay) = record c {
  network_client = record c.network_client { max_retries = max_retries; base_delay = base_delay };
}
apply_client_option c (with_client_rate_limit per_second) = limit_client per_second c

unfoldable pub new_client : Bytes → Network → List ClientOption → Client
unfolding apply_client_option
new_client host network opts =
    foldl apply_client_option (record { network_client = new_network_client host network [] }) opts
