-- ===== src/Tests/Node.antt =====
-- Runs of NetworkClient.
use provable_sdk.Base.{
  zero, ap, ℕ, suc, ◌≡◌, refl, none, some, [], ◌++◌, arith, Bytes, codes, List, if◌then◌else◌,
  Option,
}
use provable_sdk.Text.{bytes_eq}
use provable_sdk.Text.Decimal.{format_uint}
use provable_sdk.Exec.{ok, err, map_fault}
use provable_sdk.Fault.{annotate}
use provable_sdk.Http.Env.{Env, Trace, Request, Exchange}
use provable_sdk.Types.{Block}
use provable_sdk.Json.{Json}
use provable_sdk.Network.Get.{status_fault, fetch}
use provable_sdk.Network.Get.Bounds.{IsTheGet, fetch-Within}
use provable_sdk.Network.Get.Success.{EndsInSuccess, fetch_success}
use provable_sdk.Http.Within.{Within}
use provable_sdk.Network.Get.Steps.{success_body}
use provable_sdk.Network.Get.Schedule.{schedule, fetch_recovers}
use provable_sdk.Network.{endpoint, base_path}
use provable_sdk.Network.Queries.{get_block_range}
use provable_sdk.Network.Iterator.{block_iterator, drain}
use provable_sdk.Network.Iterator.Short.{ServesUpTo, drain_short}
use provable_sdk.Network.Iterator.Complete.{chain, Serves, drain_complete}
use provable_sdk.Network.Get.{get_request}
use provable_sdk.Network.{NetworkClient}
use provable_sdk.Base.{negsuc}
use provable_sdk.Network.Queries.{get_program}
use provable_sdk.Network.Queries.Empty.{get_program_negative}
use provable_sdk.Tests.{
  refusal, at_first, calm_env, calm_env-IsCalm, node_client, reply, block_at, codec,
}

-- The server fails once and then answers, fails for ever, or does not know the path.
abbrev flaky : Env
flaky = calm_env (at_first (reply 503 []) (reply 200 (codes "7")))

abbrev down : Env
down = calm_env (λ t q. reply 500 [])

abbrev lost : Env
lost = calm_env (λ t q. reply 404 [])

fetch_recovers_example :
    fetch flaky node_client (codes "u") []
    ≡ (ok (codes "7"), schedule flaky node_client (codes "u") 2 0)
fetch_recovers_example =
    fetch_recovers flaky node_client (codes "u") (calm_env-IsCalm _ node_client (codes "u")) []
      (codes "7") 1 1 refl (omega arith) ((status_fault 503 [], refl), refl)

fetch-Within_example :
    Within (IsTheGet down node_client (codes "u")) 2 (fetch down node_client (codes "u"))
fetch-Within_example = fetch-Within down node_client (codes "u")

fetch_success_example :
    EndsInSuccess flaky node_client
      (codes "u")
      (codes "7")
      (schedule flaky node_client (codes "u") 2 0)
fetch_success_example = fetch_success flaky node_client (codes "u") 1 [] refl (
    fetch_recovers flaky node_client (codes "u") (calm_env-IsCalm _ node_client (codes "u")) []
      (codes "7") 1 1 refl (omega arith) ((status_fault 503 [], refl), refl))

-- A chain of 60 blocks: the node sends 50 of them for the first batch, and 10 for the second.
abbrev two_batches : Env
two_batches = calm_env (λ t q.
    if bytes_eq q.url (codes "http://node/testnet/blocks?start=0&end=49")
    then reply 200 (codes "A")
    else if bytes_eq q.url (codes "http://node/testnet/blocks?start=50&end=59")
    then reply 200 (codes "B")
    else reply 404 [])

abbrev batch_codec : Json
batch_codec = codec (λ body.
    if bytes_eq body (codes "A") then ok (chain block_at 0 50) else ok (chain block_at 50 10))

served :
    (respond : Trace → Request → Exchange) (json : Json) (start end : ℕ) (body : Bytes)
    {blocks : List (Option Block)} (t : Trace)
    → success_body (
        respond t (
          get_request node_client (
            endpoint node_client
              (codes "/blocks?start=" ++ format_uint start ++ codes "&end=" ++ format_uint end))))
      ≡ some body
    → json.blocks body ≡ ok blocks
    → (get_block_range (calm_env respond) json node_client start end t).0 ≡ ok blocks
unfolding get_block_range
served respond json start end body t h e =
    let url : Bytes =
      endpoint node_client
        (codes "/blocks?start=" ++ format_uint start ++ codes "&end=" ++ format_uint end) in
    rw
      (fetch_recovers (calm_env respond) node_client url (calm_env-IsCalm _ node_client url) t body
        0 1 refl (omega arith) h)
      (ap (map_fault (annotate (codes "decode block range"))) e)

two_batches-Serves : Serves two_batches batch_codec node_client block_at 0 59
unfolding bytes_eq format_uint endpoint base_path get_request
two_batches-Serves zero t le = served two_batches.respond batch_codec 0 49 (codes "A") t refl refl
two_batches-Serves (suc zero) t le =
    served two_batches.respond batch_codec 50 59 (codes "B") t refl refl
two_batches-Serves (suc (suc i)) t le = absurd (omega arith)

drain_complete_example :
    ((drain two_batches batch_codec node_client 61 (block_iterator 0 59) []).0
      ≡ chain block_at 0 60)
    × ((drain two_batches batch_codec node_client 61 (block_iterator 0 59) []).1.error ≡ none)
drain_complete_example =
    drain_complete two_batches batch_codec node_client block_at 0 59 (omega arith)
      two_batches-Serves 61 [] (omega arith) (omega arith)

-- The same chain, and a range that ends behind it: the third batch has no blocks.
abbrev three_batches : Env
three_batches = calm_env (λ t q.
    if bytes_eq q.url (codes "http://node/testnet/blocks?start=0&end=49")
    then reply 200 (codes "A")
    else if bytes_eq q.url (codes "http://node/testnet/blocks?start=50&end=99")
    then reply 200 (codes "B")
    else reply 200 (codes "[]"))

abbrev short_codec : Json
short_codec = codec (λ body.
    if bytes_eq body (codes "A")
    then ok (chain block_at 0 50)
    else if bytes_eq body (codes "B")
    then ok (chain block_at 50 10)
    else ok [])

three_batches-ServesUpTo : ServesUpTo three_batches short_codec node_client block_at 0 120 59
unfolding bytes_eq format_uint endpoint base_path get_request
three_batches-ServesUpTo zero t le =
    served three_batches.respond short_codec 0 49 (codes "A") t refl refl
three_batches-ServesUpTo (suc zero) t le =
    served three_batches.respond short_codec 50 99 (codes "B") t refl refl
three_batches-ServesUpTo (suc (suc zero)) t le =
    served three_batches.respond short_codec 100 120 (codes "[]") t refl refl
three_batches-ServesUpTo (suc (suc (suc i))) t le = absurd (omega arith)

drain_short_example :
    ((drain three_batches short_codec node_client 61 (block_iterator 0 120) []).0
      ≡ chain block_at 0 60)
    × ((drain three_batches short_codec node_client 61 (block_iterator 0 120) []).1.error ≡ none)
drain_short_example =
    drain_short three_batches short_codec node_client block_at 0 120 59 (omega arith) (omega arith)
      three_batches-ServesUpTo 61 [] (omega arith) (omega arith)

-- A client that was made with WithRetry(-1, 0), and a codec that refuses every text.
abbrev hasty_client : NetworkClient
hasty_client = record node_client { max_retries = negsuc 0 }

abbrev strict_codec : Json
strict_codec = record batch_codec { string = λ body. err refusal }

get_program_negative_example :
    get_program down strict_codec hasty_client (codes "a.aleo") [] ≡ (ok [], [])
get_program_negative_example =
    get_program_negative down strict_codec hasty_client (codes "a.aleo") [] refl refl
