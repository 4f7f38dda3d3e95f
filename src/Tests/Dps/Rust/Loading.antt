-- ===== src/Tests/Dps/Rust/Loading.antt =====
-- A node that serves b.aleo and c.aleo, whose programs the concrete version of the crates takes.
use provable_sdk.Base.{
  ℕ, ◌<◌, ◌≡◌, refl, sym, ap, ◌∙◌, Bool, true, false, none, some, List, [], ◌∷◌, ◌++◌, Bytes, codes,
  arith, All, if◌then◌else◌,
}
use provable_sdk.Text.{bytes_eq, bytes_eq_sound, trim_space, split, fields, has_prefix, trim_suffix}
use provable_sdk.Exec.{ok}
use provable_sdk.Http.Env.{Env}
use provable_sdk.Network.{endpoint}
use provable_sdk.Network.Get.{get_request}
use provable_sdk.Network.Get.Schedule.{fetch_recovers}
use provable_sdk.Network.Queries.{get_program, or_raw}
use provable_sdk.Imports.{import_of, lines, member, credits, resolve_imports_ordered}
use provable_sdk.Imports.Sorted.{IsBelow}
use provable_sdk.Imports.Cache.{Serves, none-Agrees}
use provable_sdk.Imports.Distinct.{bytes_eq_swap}
use provable_sdk.Imports.Loaded.{Takes, Supplied, resolve_imports_ordered-add_imports}
use provable_sdk.Bridge.Rust.{done}
use provable_sdk.Bridge.Rust.Authorize.{add_imports}
use provable_sdk.Tests.{calm_env, calm_env-IsCalm, node_client, reply}
use provable_sdk.Tests.Dps.{dps_codec}
use provable_sdk.Tests.Dps.Rust.{toy_crates, b_source, c_source, main_source, parse}

abbrev pub program_url : Bytes → Bytes
program_url id = endpoint node_client (codes "/program/" ++ id)

abbrev pub is_b : Bytes → Bool
is_b url = bytes_eq url (codes "http://node/testnet/program/b.aleo")

abbrev pub is_c : Bytes → Bool
is_c url = bytes_eq url (codes "http://node/testnet/program/c.aleo")

abbrev pub chosen : {A : Type 0} → Bool → Bool → A → A → A → A
chosen b c x y z = if b then x else if c then y else z

abbrev pub source_at : Bytes → Bytes
source_at url = chosen (is_b url) (is_c url) b_source c_source []

abbrev pub node : Env
node = calm_env (λ t q. reply 200 (source_at q.url))

abbrev pub source_of : Bytes → Bytes
source_of id = source_at (program_url id)

abbrev pub depth : Bytes → ℕ
depth id = chosen (is_b (program_url id)) (is_c (program_url id)) 1 0 2

pub node-Serves : Serves node dps_codec node_client source_of
unfolding get_program or_raw get_request
node-Serves id t =
    rw
      (fetch_recovers node node_client (program_url id)
        (calm_env-IsCalm _ node_client (program_url id)) t (source_of id) 0 1 refl (omega arith)
        refl)
      refl

chosen-IsBelow :
    (b c : Bool) → IsBelow source_of depth (chosen b c 1 0 2) (chosen b c b_source c_source [])
unfolding lines import_of bytes_eq endpoint split trim_space has_prefix fields trim_suffix
chosen-IsBelow true c = (λ e. omega arith, (λ e. absurd (cc e), (tt, (tt, tt))))
chosen-IsBelow false true = (tt, (tt, tt))
chosen-IsBelow false false = (tt, tt)

pub depth-IsBelow : (id : Bytes) → IsBelow source_of depth (depth id) (source_of id)
depth-IsBelow id = chosen-IsBelow (is_b (program_url id)) (is_c (program_url id))

main-IsBelow : IsBelow source_of depth 2 main_source
unfolding lines import_of bytes_eq endpoint split trim_space has_prefix fields trim_suffix
main-IsBelow = (λ e. omega arith, (tt, (tt, tt)))

-- The programs below the bound are the two.
chosen_parses :
    (id : Bytes) (b c : Bool)
    → (b ≡ true → id ≡ codes "b.aleo")
    → (c ≡ true → id ≡ codes "c.aleo")
    → chosen b c 1 0 2 < 2
    → parse (chosen b c b_source c_source []) ≡ done id
unfolding bytes_eq
chosen_parses id true c hb hc lt = ap done (sym (hb refl))
chosen_parses id false true hb hc lt = ap done (sym (hc refl))
chosen_parses id false false hb hc lt = absurd (omega arith)

is_b_id : (id : Bytes) → is_b (program_url id) ≡ bytes_eq id (codes "b.aleo")
unfolding bytes_eq endpoint
is_b_id id = refl

is_c_id : (id : Bytes) → is_c (program_url id) ≡ bytes_eq id (codes "c.aleo")
unfolding bytes_eq endpoint
is_c_id id = refl

source_parses : (id : Bytes) → depth id < 2 → parse (source_of id) ≡ done id
source_parses id lt =
    chosen_parses id (is_b (program_url id)) (is_c (program_url id))
      (λ e. bytes_eq_sound id (codes "b.aleo") (sym (is_b_id id) ∙ e))
      (λ e. bytes_eq_sound id (codes "c.aleo") (sym (is_c_id id) ∙ e)) lt

abbrev pub knows : List Bytes → Bytes → Bool
knows p id = member id p

pub toy_crates-Takes : Takes toy_crates source_of knows depth 2
unfolding member
toy_crates-Takes = record {
  program = λ id. id;
  parses = source_parses;
  named = λ id lt. refl;
  taken = λ p id. id ∷ p;
  takes = λ p id lt supplied fresh. rw fresh refl;
  knows-taken = λ p id id' lt. refl;
}

pub none_known :
    (id : Bytes) → depth id < 2 → bytes_eq id credits ≡ false → knows (credits ∷ []) id ≡ false
unfolding member
none_known id lt foreign = ground (arith, bytes_eq_swap id credits foreign)

pub credits_known : knows (credits ∷ []) credits ≡ true
unfolding member bytes_eq
credits_known = refl

resolve_imports_ordered-add_imports_example :
    (ordered : List Bytes) × (reached : List Bytes) × ((resolve_imports_ordered node dps_codec
        node_client 3 main_source
        (record { trace = []; cache = none })).0
      ≡ some (ok ordered))
    × (add_imports toy_crates 0 ordered (credits ∷ []) ≡ done reached)
    × All (λ line. Supplied toy_crates source_of knows reached (import_of line)) (lines main_source)
resolve_imports_ordered-add_imports_example =
    resolve_imports_ordered-add_imports toy_crates source_of knows depth 2 toy_crates-Takes
      depth-IsBelow (credits ∷ []) credits_known none_known node dps_codec node_client node-Serves 3
      main_source (record { trace = []; cache = none }) (omega arith) main-IsBelow
      (none-Agrees node dps_codec node_client source_of)
