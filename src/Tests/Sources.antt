-- ===== src/Tests/Sources.antt =====
-- A program that imports b.aleo, which imports c.aleo and the built-in program.
use provable_sdk.Base.{
  ℕ, ◌≡◌, refl, Bool, true, false, none, some, List, [], ◌++◌, Bytes, codes, arith, All,
  if◌then◌else◌,
}
use provable_sdk.Text.{bytes_eq, trim_space, split, fields, has_prefix, trim_suffix}
use provable_sdk.Exec.{ok, err}
use provable_sdk.Http.Env.{Env}
use provable_sdk.Json.{Json}
use provable_sdk.Network.{endpoint}
use provable_sdk.Network.Get.{get_request}
use provable_sdk.Network.Get.Schedule.{fetch_recovers}
use provable_sdk.Network.Queries.{get_program, or_raw}
use provable_sdk.Imports.{import_of, lines, resolve_imports_ordered}
use provable_sdk.Imports.Sorted.{Resolved, IsSorted, IsBelow}
use provable_sdk.Imports.Cache.{Serves, none-Agrees}
use provable_sdk.Imports.Order.{resolve_imports_ordered-IsSorted}
use provable_sdk.Tests.{calm_env, calm_env-IsCalm, node_client, reply, codec, refusal}

abbrev program_url : Bytes → Bytes
program_url id = endpoint node_client (codes "/program/" ++ id)

abbrev b_source : Bytes
b_source = codes "import c.aleo;\nimport credits.aleo;\n"

abbrev source_at : Bytes → Bytes
source_at url = if bytes_eq url (codes "http://node/testnet/program/b.aleo") then b_source else []

abbrev library_node : Env
library_node = calm_env (λ t q. reply 200 (source_at q.url))

abbrev source_of : Bytes → Bytes
source_of id = source_at (program_url id)

abbrev depth : Bytes → ℕ
depth id = if bytes_eq (program_url id) (codes "http://node/testnet/program/b.aleo") then 1 else 0

abbrev text_codec : Json
text_codec = codec (λ body. err refusal)

library_node-Serves : Serves library_node text_codec node_client source_of
unfolding get_program or_raw get_request
library_node-Serves id t =
    rw
      (fetch_recovers library_node node_client (program_url id)
        (calm_env-IsCalm _ node_client (program_url id)) t (source_of id) 0 1 refl (omega arith)
        refl)
      refl

is_b-IsBelow :
    (is_b : Bool) → IsBelow source_of depth (if is_b then 1 else 0) (if is_b then b_source else [])
unfolding lines import_of bytes_eq endpoint split trim_space has_prefix fields trim_suffix
is_b-IsBelow true = (λ e. omega arith, (λ e. absurd (cc e), (tt, tt)))
is_b-IsBelow false = (tt, tt)

depth-IsBelow : (id : Bytes) → IsBelow source_of depth (depth id) (source_of id)
depth-IsBelow id =
    is_b-IsBelow (bytes_eq (program_url id) (codes "http://node/testnet/program/b.aleo"))

main-IsBelow : IsBelow source_of depth 2 (codes "import b.aleo;\n")
unfolding lines import_of bytes_eq endpoint split trim_space has_prefix fields trim_suffix
main-IsBelow = (λ e. omega arith, (tt, tt))

resolve_imports_ordered-IsSorted_example :
    (ordered : List Bytes) × ((resolve_imports_ordered library_node text_codec node_client 3
        (codes "import b.aleo;\n")
        (record { trace = []; cache = none })).0
      ≡ some (ok ordered))
    × IsSorted source_of ordered
    × All (Resolved source_of ordered) (lines (codes "import b.aleo;\n"))
resolve_imports_ordered-IsSorted_example =
    resolve_imports_ordered-IsSorted library_node text_codec node_client source_of depth
      library_node-Serves depth-IsBelow 3 2 (codes "import b.aleo;\n")
      (record { trace = []; cache = none }) (omega arith) main-IsBelow
      (none-Agrees library_node text_codec node_client source_of)
