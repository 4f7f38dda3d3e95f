-- ===== src/Tests/Dps/Rust/Building.antt =====
-- BuildAuthorization for b.aleo, against the node and the concrete version of the crates.
use provable_sdk.Base.{
  suc, ◌<◌, ◌≡◌, refl, ap, Bool, true, false, none, some, Option, List, [], ◌∷◌, map, Bytes, codes,
  arith, All, if◌then◌else◌,
}
use provable_sdk.Text.{bytes_eq, has_prefix, is_empty}
use provable_sdk.Exec.{Result, ok}
use provable_sdk.Json.{Json}
use provable_sdk.Network.{endpoint}
use provable_sdk.Imports.{ProvingRequestOptions, member, credits, build_authorization_with_cache}
use provable_sdk.Imports.Cache.{Serves, none-Agrees}
use provable_sdk.Imports.Loaded.{Takes}
use provable_sdk.Imports.Buildable.{IsBuildable}
use provable_sdk.Imports.Built.{build_authorization_with_cache-knows}
use provable_sdk.Bridge.{c_string}
use provable_sdk.Bridge.Rust.{done, has_nul}
use provable_sdk.Bridge.Rust.Pointer.{is_utf8}
use provable_sdk.Bridge.Rust.Authorized
use provable_sdk.Bridge.Rust.Linked.{linked}
use provable_sdk.Network.Get.{get_request}
use provable_sdk.Network.Get.Schedule.{fetch_recovers}
use provable_sdk.Network.Queries.{get_program, or_raw}
use provable_sdk.Tests.{node_client, calm_env-IsCalm}
use provable_sdk.Tests.Dps.{dps_codec}
use provable_sdk.Tests.Dps.Rust.{toy_crates, b_source, c_source, letters}
use provable_sdk.Tests.Dps.Rust.Loading.{
  chosen, is_b, is_c, program_url, source_of, depth, node, knows, depth-IsBelow, toy_crates-Takes,
  none_known, credits_known,
}

abbrev tags : List Bytes → Bytes
tags [] = []
tags (x ∷ xs) = (if bytes_eq x c_source then b'c' else b'x') ∷ tags xs

abbrev listing : Option (List Bytes) → Result Bytes
listing none = ok (codes "L")
listing (some xs) = ok (b'L' ∷ tags xs)

abbrev list_codec : Json
list_codec = record dps_codec { marshal_strings = listing }

abbrev call : ProvingRequestOptions
call = record {
  program_name = codes "b.aleo";
  function_name = codes "f";
  inputs = some (codes "1field" ∷ []);
  broadcast = false;
  dps_privacy = false;
  private_key = codes "sk";
  prover_url = [];
}

-- The letters of sources of rank 0, all of them c.aleo.
abbrev cs : List Bytes → Bytes
cs [] = []
cs (id ∷ ids) = b'c' ∷ cs ids

chosen_c : (b c : Bool) → chosen b c 1 0 2 < 1 → chosen b c b_source c_source [] ≡ c_source
chosen_c true c lt = absurd (omega arith)
chosen_c false true lt = refl
chosen_c false false lt = absurd (omega arith)

is_c_source : (id : Bytes) → depth id < 1 → source_of id ≡ c_source
is_c_source id lt = chosen_c (is_b (program_url id)) (is_c (program_url id)) lt

tag_c : bytes_eq c_source c_source ≡ true
unfolding bytes_eq
tag_c = refl

tags-cs : (ids : List Bytes) → All (λ id. depth id < 1) ids → tags (map source_of ids) ≡ cs ids
tags-cs [] h = refl
tags-cs (id ∷ ids) (lt, h) = rw (is_c_source id lt, tag_c, tags-cs ids h)

letters-cs :
    (ids : List Bytes) → All (λ id. depth id < 1) ids → letters (cs ids) ≡ map source_of ids
letters-cs [] h = refl
letters-cs (id ∷ ids) (lt, h) = rw (is_c_source id lt, letters-cs ids h)

cs_utf8 : (ids : List Bytes) → is_utf8 (cs ids) ≡ true
unfolding is_utf8
cs_utf8 [] = refl
cs_utf8 (id ∷ ids) = cs_utf8 ids

c_string-cs : (ids : List Bytes) → c_string (cs ids) ≡ cs ids
unfolding c_string
c_string-cs [] = refl
c_string-cs (id ∷ ids) = ap (λ s. b'c' ∷ s) (c_string-cs ids)

listing_marshalled :
    (ids : List Bytes)
    → All (λ id. depth id < 1) ids
    → listing (some (map source_of ids)) ≡ ok (b'L' ∷ cs ids)
listing_marshalled ids h = rw (tags-cs ids h) refl

listing_utf8 : (ids : List Bytes) → is_utf8 (c_string (b'L' ∷ cs ids)) ≡ true
unfolding is_utf8 c_string
listing_utf8 ids = rw (c_string-cs ids) (cs_utf8 ids)

listing_read :
    (ids : List Bytes)
    → All (λ id. depth id < 1) ids
    → toy_crates.read_strings (c_string (b'L' ∷ cs ids)) ≡ done (map source_of ids)
unfolding c_string bytes_eq
listing_read ids h = rw (c_string-cs ids) (ap done (letters-cs ids h))

list_codec-Serves : Serves node list_codec node_client source_of
unfolding get_program or_raw get_request
list_codec-Serves id t =
    rw
      (fetch_recovers node node_client (program_url id)
        (calm_env-IsCalm _ node_client (program_url id)) t (source_of id) 0 1 refl (omega arith)
        refl)
      refl

depth_b : depth (codes "b.aleo") ≡ 1
unfolding bytes_eq endpoint
depth_b = refl

buildable : IsBuildable toy_crates source_of knows depth list_codec [] call
unfolding is_empty is_utf8 c_string has_nul has_prefix bytes_eq member endpoint
buildable = record {
  given = refl;
  key_utf8 = refl;
  name_utf8 = refl;
  source_utf8 = refl;
  source_no_nul = refl;
  foreign = refl;
  key = codes "sk";
  key_read = refl;
  inputs_text = b'L' ∷ b'x' ∷ [];
  inputs_marshalled = refl;
  inputs_utf8 = refl;
  input_texts = codes "1field" ∷ [];
  inputs_listed = refl;
  inputs = codes "1field" ∷ [];
  inputs_read = Authorized.next refl Authorized.nothing;
  listing = λ ids. b'L' ∷ cs ids;
  sources_marshalled = listing_marshalled;
  sources_utf8 = λ ids h. listing_utf8 ids;
  sources_read = listing_read;
  loaded = credits ∷ [];
  process_loaded = refl;
  knows_credits = credits_known;
  knows_no_other = none_known;
  authorization = λ p. 7;
  authorizes = λ p h. refl;
  text = λ p. codes "{}";
  writes = λ p. refl;
  plain = λ p. record { no_nul = refl; no_error = refl };
}

call_taken : Takes toy_crates source_of knows depth (suc (depth (codes "b.aleo")))
unfolding bytes_eq endpoint
call_taken = toy_crates-Takes

build_authorization_with_cache-knows_example :
    (p : List Bytes) × (knows p (codes "b.aleo") ≡ true)
    × ((build_authorization_with_cache node list_codec
          (linked toy_crates [] [])
          node_client
          2
          call
          (record { trace = []; cache = none })).0
        ≡ some (ok (record { raw = buildable.text p })))
build_authorization_with_cache-knows_example =
    build_authorization_with_cache-knows toy_crates source_of knows depth depth-IsBelow node
      list_codec node_client list_codec-Serves [] [] 2 call (record { trace = []; cache = none })
      (omega (arith, depth_b)) (none-Agrees node list_codec node_client source_of) call_taken
      buildable
