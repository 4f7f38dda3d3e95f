-- ===== src/Client/Options.antt =====
-- The options of a Client, against the options of its NetworkClient.
use provable_sdk.Base.{
  ◌≡◌, refl, ap, ◌∙◌, List, [], ◌∷◌, foldl, map, ℤ, pos, negsuc, Bytes, Bool-cases, inl, inr, ltb,
}
use provable_sdk.Types.{Network}
use provable_sdk.Network.{
  NetworkClientOption, with_retry, with_rate_limit, apply_option, set_limit, new_network_client,
}
use provable_sdk.Client.{
  Client, ClientOption, with_client_retries, with_client_rate_limit, limit_client,
  apply_client_option, new_client,
}

-- The option of NetworkClient that does the same.
abbrev network_option : ClientOption → NetworkClientOption
network_option (with_client_retries max_retries base_delay) = with_retry max_retries base_delay
network_option (with_client_rate_limit per_second) = with_rate_limit per_second

limit_client-set_limit :
    (i : ℤ) (c : Client) → (limit_client i c).network_client ≡ set_limit i c.network_client
unfolding limit_client set_limit
limit_client-set_limit (pos n) c = elim (Bool-cases (ltb 0 n)) [
  | inl e ↦ rw e refl
  | inr e ↦ rw e refl
]
limit_client-set_limit (negsuc n) c = refl

apply_one :
    (c : Client) (o : ClientOption)
    → (apply_client_option c o).network_client ≡ apply_option c.network_client (network_option o)
unfolding apply_client_option apply_option
apply_one c (with_client_retries max_retries base_delay) = refl
apply_one c (with_client_rate_limit per_second) = limit_client-set_limit per_second c

apply_all :
    (c : Client) (os : List ClientOption)
    → (foldl apply_client_option c os).network_client
      ≡ foldl apply_option c.network_client (map network_option os)
apply_all c [] = refl
apply_all c (o ∷ os) =
    apply_all (apply_client_option c o) os
    ∙ ap (λ nc. foldl apply_option nc (map network_option os)) (apply_one c o)

-- NewClient with some options makes the same NetworkClient as NewNetworkClient does with the
-- corresponding options.
pub new_client-new_network_client :
    (host : Bytes) (network : Network) (opts : List ClientOption)
    → (new_client host network opts).network_client
      ≡ new_network_client host network (map network_option opts)
unfolding new_client new_network_client
new_client-new_network_client host network opts = apply_all _ opts
