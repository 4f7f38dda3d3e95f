-- ===== src/Imports/Built.antt =====
-- BuildAuthorization through to the Rust library: the source of the program, its imports, and the
-- authorization.
use provable_sdk.Base.{
  ℕ, suc, ◌<◌, ◌≡◌, refl, ap, true, false, some, List, [], ◌∷◌, map, Bytes, Bool, arith, All,
  All-imp, Bool-cases, inl, inr,
}
use provable_sdk.Text.{bytes_eq, bytes_eq_sound, bytes_eq_refl, is_empty}
use provable_sdk.Exec.{ok}
use provable_sdk.Http.Env.{Env}
use provable_sdk.Json.{Json}
use provable_sdk.Network.{NetworkClient}
use provable_sdk.Bridge.{Library, c_string}
use provable_sdk.Bridge
use provable_sdk.Bridge.Rust.{done}
use provable_sdk.Bridge.Rust.Crates.{Crates}
use provable_sdk.Bridge.Rust.Authorize.{aleo_authorize}
use provable_sdk.Bridge.Rust.Adding.{Adds}
use provable_sdk.Bridge.Rust.Authorized.{IsAuthorized, authorize-iff-IsAuthorized}
use provable_sdk.Bridge.Rust.Linked.{linked}
use provable_sdk.Bridge.Rust.Calls.{c_string-eq_self, handed_over}
use provable_sdk.Imports.Sorted.{IsBelow}
use provable_sdk.Imports.Cache.{Serves, Agrees, fetch_program_cached-Agrees}
use provable_sdk.Imports.Buildable.{IsBuildable, Takes-weaken}
use provable_sdk.Imports.Loaded.{Takes, resolve_imports_ordered-Loads}
use provable_sdk.Imports.{
  member, Programs, ProvingRequestOptions, fetch_program_cached, resolve_imports_ordered,
  authorized, build, build_authorization_with_cache,
}

module _ (env : Env) (json : Json) (lib : Library) (c : NetworkClient) where
  -- The steps of BuildAuthorizationWithCache, one after the other.
  build-ok :
      (fuel : ℕ) (opts : ProvingRequestOptions) (p : Programs)
      {source inputs_json imports_json auth : Bytes} {imports : List Bytes}
      → is_empty opts.private_key ≡ false
      → (fetch_program_cached env json c opts.program_name p).0 ≡ ok source
      → (resolve_imports_ordered env json c fuel source
          (fetch_program_cached env json c opts.program_name p).1).0
        ≡ some (ok imports)
      → json.marshal_strings opts.inputs ≡ ok inputs_json
      → json.marshal_strings (some imports) ≡ ok imports_json
      → Bridge.authorize lib json opts.private_key source opts.function_name inputs_json
          imports_json
        ≡ ok auth
      → (build_authorization_with_cache env json lib c fuel opts p).0
        ≡ some (ok (record { raw = auth }))
  unfolding build_authorization_with_cache build authorized
  build-ok fuel opts p given fetched resolved inputs imports auth =
      rw (given, fetched, resolved, inputs, imports, auth)

module _ (k : Crates) (src : Bytes → Bytes) (knows : k.Process → Bytes → Bool)
    (rank : Bytes → ℕ) where
  -- A program is not among programs of smaller rank.
  not_below :
      (name : Bytes) (ids : List Bytes)
      → All (λ id. rank id < rank name) ids
      → member name ids ≡ false
  unfolding member
  not_below name [] h = refl
  not_below name (id ∷ ids) (lt, h) = elim (Bool-cases (bytes_eq id name)) [
    | inl e ↦ absurd (omega (arith, lt, ap rank (bytes_eq_sound id name e)))
    | inr e ↦ ground (arith, e, not_below name ids h)
  ]

  module _ (json : Json) (rng rng' : Bytes) (opts : ProvingRequestOptions)
      (t : Takes k src knows rank (suc (rank opts.program_name)))
      (b : IsBuildable k src knows rank json rng opts) where
    -- What aleo_authorize does with the sources of the programs.
    buildable-IsAuthorized :
        (ids : List Bytes) (reached p : k.Process)
        → All (λ id. rank id < rank opts.program_name) ids
        → Adds k b.loaded (map src ids) reached
        → k.add_program reached (t.program opts.program_name) ≡ done p
        → knows p opts.program_name ≡ true
        → IsAuthorized k rng
            (c_string opts.private_key)
            (src opts.program_name)
            (c_string opts.function_name)
            (c_string b.inputs_text)
            (c_string (b.listing ids))
            (b.text p)
    buildable-IsAuthorized ids reached p known adds added knows_it =
        let named = t.named opts.program_name (omega arith) in
        record {
          utf8 = (b.key_utf8, b.source_utf8, b.name_utf8, b.inputs_utf8, b.sources_utf8 ids known);
          private_key = b.key;
          key_read = b.key_read;
          input_texts = b.input_texts;
          inputs = b.inputs;
          inputs_json_read = b.inputs_listed;
          inputs_read = b.inputs_read;
          imports = map src ids;
          imports_read = b.sources_read ids known;
          loaded = b.loaded;
          process_loaded = b.process_loaded;
          reached = reached;
          imports_added = adds;
          program = t.program opts.program_name;
          program_read = t.parses opts.program_name (omega arith);
          process = p;
          program_added = added;
          authorization = b.authorization p;
          authorized = rw named (b.authorizes p knows_it);
          written = b.writes p;
        }

    -- The call of the bridge.
    authorizes :
        (imports_json : Bytes) (p : k.Process)
        → IsAuthorized k rng
            (c_string opts.private_key)
            (src opts.program_name)
            (c_string opts.function_name)
            (c_string b.inputs_text)
            (c_string imports_json)
            (b.text p)
        → Bridge.authorize
            (linked k rng rng')
            json
            opts.private_key
            (src opts.program_name)
            opts.function_name
            b.inputs_text
            imports_json
          ≡ ok (b.text p)
    unfolding Bridge.authorize linked aleo_authorize
    authorizes imports_json p h =
        handed_over json k.escape _ _ (b.text p)
          (rw (c_string-eq_self (src opts.program_name) b.source_no_nul) (
            (authorize-iff-IsAuthorized k rng (c_string opts.private_key) (src opts.program_name)
                (c_string opts.function_name) (c_string b.inputs_text) (c_string imports_json)
                (b.text p)).1
              h))
          (b.plain p)

  module _ (acyclic : (id : Bytes) → IsBelow src rank (rank id) (src id)) (env : Env) (json : Json)
      (c : NetworkClient) (serves : Serves env json c src) (rng rng' : Bytes) where
    -- If the node serves the source of every program, the cache holds nothing else, every import has a
    -- smaller rank than its importer, snarkVM takes each program of rank up to that of the program to
    -- call whose imports it knows and which it does not know yet, and the request is buildable, then
    -- BuildAuthorizationWithCache succeeds, with fuel for that rank and one more: with the JSON of the
    -- authorization by a process that knows the program.
    pub build_authorization_with_cache-knows :
        (fuel : ℕ) (opts : ProvingRequestOptions) (programs : Programs)
        → rank opts.program_name < fuel
        → Agrees env json c src programs.cache
        → Takes k src knows rank (suc (rank opts.program_name))
        → (b : IsBuildable k src knows rank json rng opts)
        → (p : k.Process) × (knows p opts.program_name ≡ true)
          × ((build_authorization_with_cache env json (linked k rng rng') c fuel opts programs).0
              ≡ some (ok (record { raw = b.text p })))
    build_authorization_with_cache-knows fuel opts programs lt agrees t b =
        let name = opts.program_name in
        let (fetched, agrees') =
          fetch_program_cached-Agrees env json c src serves name programs agrees in
        let (ids, l, resolved, known, supplied) =
          resolve_imports_ordered-Loads k src knows rank (rank name)
            (Takes-weaken k src knows rank (omega arith) t) acyclic b.loaded b.knows_credits
            (λ id less. b.knows_no_other id (omega (arith, less))) env json c serves fuel (src name)
            (fetch_program_cached env json c name programs).1 lt (acyclic name) agrees' in
        let ranks = All-imp (λ id h. h.0) ids known in
        let fresh : knows l.reached name ≡ false = ground (
          arith,
          l.knows_all name,
          not_below name ids ranks,
          b.knows_no_other name (omega arith) b.foreign,
        ) in
        let p = t.taken l.reached name in
        let added = t.takes l.reached name (omega arith) supplied fresh in
        let knows_it : knows p name ≡ true =
          ground (arith, t.knows-taken l.reached name name (omega arith), bytes_eq_refl name) in
        (
          p,
          knows_it,
          build-ok env json (linked k rng rng') c fuel opts programs b.given fetched resolved
              b.inputs_marshalled (b.sources_marshalled ids ranks)
              (authorizes json rng rng' opts t b (b.listing ids) p (
                buildable-IsAuthorized json rng rng' opts t b ids l.reached p ranks l.adds added
                  knows_it)),
        )
