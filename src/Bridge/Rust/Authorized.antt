-- ===== src/Bridge/Rust/Authorized.antt =====
-- rust-bridge/src/authorize.rs: what aleo_authorize does when it hands over an authorization.
use mathlib.Core.Path.{subst}
use provable_sdk.Base.{ℕ, ◌+◌, ◌≡◌, refl, List, [], ◌∷◌, true, some, Bytes, codes, ◌↔◌}
use provable_sdk.Bridge.Rust.{Outcome, done}
use provable_sdk.Bridge.Rust.Crates.{Crates}
use provable_sdk.Bridge.Rust.Pointer.{is_utf8, argument-done, collect}
use provable_sdk.Bridge.Rust.Authorize.{read_inputs, get_or_init_process, add_imports, authorize}
use provable_sdk.Bridge.Rust.Outcomes.{
  on_done, on_mapped, on_argument, >>=-eq-done, done_inj, map_err-eq-done,
}
use provable_sdk.Bridge.Rust.Adding.{Adds, add_imports-Adds}

-- Each text reads as the value at its place.
pub data Reads {A : Type 0} (read : Bytes → Outcome A) : List Bytes → List A → Type 0 where
  nothing : Reads read [] []
  next :
      {s : Bytes} {a : A} {ss : List Bytes} {rest : List A}
      → read s ≡ done a
      → Reads read ss rest
      → Reads read (s ∷ ss) (a ∷ rest)

module _ {A : Type 0} (at : ℕ → Bytes → Outcome A) (read : Bytes → Outcome A) where
  pub collect-Reads :
      ((i : ℕ) (s : Bytes) (a : A) → at i s ≡ done a → read s ≡ done a)
      → (i : ℕ) (ss : List Bytes) {rest : List A} → collect at i ss ≡ done rest
      → Reads read ss rest
  unfolding collect
  collect-Reads sound i [] h = subst (Reads read []) (done_inj h) nothing
  collect-Reads sound i (s ∷ ss) h =
      let (a, e, h1) = >>=-eq-done (at i s) _ h in
      let (as', e', h2) = >>=-eq-done (collect at (i + 1) ss) _ h1 in
      subst (Reads read (s ∷ ss)) (done_inj h2)
        (next (sound i s a e) (collect-Reads sound (i + 1) ss e'))

  pub Reads-collect :
      ((i : ℕ) (s : Bytes) (a : A) → read s ≡ done a → at i s ≡ done a)
      → (i : ℕ) (ss : List Bytes) {rest : List A} → Reads read ss rest
      → collect at i ss ≡ done rest
  unfolding collect
  Reads-collect complete i [] nothing = refl
  Reads-collect complete i (s ∷ ss) (next {a = a} e r) =
      rw (complete i s a e, Reads-collect complete (i + 1) ss r)

module _ (k : Crates) where
  -- The steps from the texts to the authorization, in JSON: all texts are UTF-8; the key and the inputs
  -- are read; the imports, then the program are added to the process as loaded; the function is
  -- authorized in what this comes to.
  pub record IsAuthorized (rng sk source name inputs_json imports_json json : Bytes) : Type 0 where
    pub utf8 :
        (is_utf8 sk ≡ true)
        × (is_utf8 source ≡ true)
        × (is_utf8 name ≡ true)
        × (is_utf8 inputs_json ≡ true)
        × (is_utf8 imports_json ≡ true)
    pub private_key : k.PrivateKey
    pub key_read : k.parse_private_key sk ≡ done private_key
    pub input_texts : List Bytes
    pub inputs : List k.Value
    pub inputs_json_read : k.read_strings inputs_json ≡ done input_texts
    pub inputs_read : Reads k.parse_value input_texts inputs
    pub imports : List Bytes
    pub imports_read : k.read_strings imports_json ≡ done imports
    pub loaded : k.Process
    pub process_loaded : k.load_process ≡ done loaded
    pub reached : k.Process
    pub imports_added : Adds k loaded imports reached
    pub program : k.Program
    pub program_read : k.parse_program source ≡ done program
    pub process : k.Process
    pub program_added : k.add_program reached program ≡ done process
    pub authorization : k.Authorization
    pub authorized :
        k.authorize process private_key (k.program_id program) name inputs rng ≡ done authorization
    pub written : k.write_authorization authorization ≡ done json

  pub loads : {p : k.Process} → get_or_init_process k ≡ done p → k.load_process ≡ done p
  unfolding get_or_init_process
  loads h = map_err-eq-done _ _ h

  pub loaded_of : {p : k.Process} → k.load_process ≡ done p → get_or_init_process k ≡ done p
  unfolding get_or_init_process
  loaded_of h = rw h

  inputs_in :
      (inputs_json : Bytes) {inputs : List k.Value}
      → read_inputs k inputs_json ≡ done inputs
      → (texts : List Bytes) × (k.read_strings inputs_json ≡ done texts)
        × Reads k.parse_value texts inputs
  unfolding read_inputs
  inputs_in inputs_json h = on_mapped _ (k.read_strings inputs_json) _ h λ texts e h.
      (texts, e, collect-Reads _ k.parse_value (λ i s a r. map_err-eq-done _ _ r) 0 texts h)

  read_inputs_of :
      (inputs_json : Bytes) {texts : List Bytes} {inputs : List k.Value}
      → k.read_strings inputs_json ≡ done texts
      → Reads k.parse_value texts inputs
      → read_inputs k inputs_json ≡ done inputs
  unfolding read_inputs
  read_inputs_of inputs_json {texts} e r =
      rw e (Reads-collect _ k.parse_value (λ i s a h. rw h) 0 texts r)

  module _ (rng sk source name inputs_json imports_json json : Bytes) where
    authorize-IsAuthorized :
        authorize k rng (some sk) (some source) (some name) (some inputs_json) (some imports_json)
          ≡ done json
        → IsAuthorized rng sk source name inputs_json imports_json json
    unfolding authorize
    authorize-IsAuthorized h = on_argument _ sk _ h λ u1 h. on_argument _ source _ h λ u2 h.
        on_argument _ name _ h λ u3 h. on_argument _ inputs_json _ h λ u4 h.
          on_argument _ imports_json _ h λ u5 h.
            on_done (k.parse_private_key sk) _ h λ key key_read h.
              on_done (read_inputs k inputs_json) _ h λ inputs read h.
                on_mapped _ (k.read_strings imports_json) _ h λ imports imports_read h.
                  on_done (get_or_init_process k) _ h λ loaded process_loaded h.
                    on_done (add_imports k 0 imports loaded) _ h λ reached added h.
                      on_done (k.parse_program source) _ h λ program program_read h.
                        on_mapped _ (k.add_program reached program) _ h λ process program_added h.
                          on_mapped _
                            (k.authorize process key (k.program_id program) name inputs rng) _ h
                            λ authorization authorized h.
                              let (texts, strings_read, each_read) = inputs_in inputs_json read in
                              record {
                                utf8 = (u1, u2, u3, u4, u5);
                                private_key = key;
                                key_read = key_read;
                                input_texts = texts;
                                inputs = inputs;
                                inputs_json_read = strings_read;
                                inputs_read = each_read;
                                imports = imports;
                                imports_read = imports_read;
                                loaded = loaded;
                                process_loaded = loads process_loaded;
                                reached = reached;
                                imports_added =
                                    (add_imports-Adds k 0 imports loaded reached).0 added;
                                program = program;
                                program_read = program_read;
                                process = process;
                                program_added = program_added;
                                authorization = authorization;
                                authorized = authorized;
                                written = map_err-eq-done _ _ h;
                              }

    IsAuthorized-authorize :
        IsAuthorized rng sk source name inputs_json imports_json json
        → authorize k rng (some sk) (some source) (some name) (some inputs_json) (some imports_json)
          ≡ done json
    unfolding authorize
    IsAuthorized-authorize a =
        let (u1, u2, u3, u4, u5) = a.utf8 in
        rw (
          argument-done (codes "null private key") sk u1,
          argument-done (codes "null program source") source u2,
          argument-done (codes "null function name") name u3,
          argument-done (codes "null inputs json") inputs_json u4,
          argument-done (codes "null imports json") imports_json u5,
          a.key_read,
          read_inputs_of inputs_json a.inputs_json_read a.inputs_read,
          a.imports_read,
          loaded_of a.process_loaded,
          (add_imports-Adds k 0 a.imports a.loaded a.reached).1 a.imports_added,
          a.program_read,
          a.program_added,
          a.authorized,
          a.written,
        )

    -- aleo_authorize hands over an authorization exactly when the texts are UTF-8, the key, the inputs
    -- and the program are read, the imports, in the order of the list, and then the program can be added
    -- one by one to the process as it was loaded, and the function is authorized in what this comes to,
    -- with the inputs in their order; and it is that authorization, in JSON.
    pub authorize-iff-IsAuthorized :
        (authorize k rng (some sk) (some source) (some name) (some inputs_json) (some imports_json)
          ≡ done json)
        ↔ IsAuthorized rng sk source name inputs_json imports_json json
    authorize-iff-IsAuthorized = (authorize-IsAuthorized, IsAuthorized-authorize)
