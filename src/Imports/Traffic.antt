-- ===== src/Imports/Traffic.antt =====
-- What the walk over imports and the building of an authorization send.
use provable_sdk.Base.{
  ℕ, zero, suc, ◌+◌, ◌≡◌, refl, List, [], ◌∷◌, ◌++◌, Option, none, some, Bytes, codes, arith,
  rounds, Bool-cases, inl, inr, Option-cases, ◌||◌,
}
use provable_sdk.Text.{bytes_eq, is_empty}
use provable_sdk.Fault.{Fault}
use provable_sdk.Exec.{Result, ok, err, lift, map_fault}
use provable_sdk.Partial.{total, Partial, proceed, blame, on_fault, ◌>>=◌}
use provable_sdk.Http.Env.{Request, Env, Trace}
use provable_sdk.Http.Within.{
  Grows, Grows-refl, Grows-trans, Grows-imp, Within-pure, Within-bind, Within-on_fault,
}
use provable_sdk.Json.{Json}
use provable_sdk.Bridge.{Library}
use provable_sdk.Network.{NetworkClient, endpoint}
use provable_sdk.Network.Get.{get_request}
use provable_sdk.Network.Get.Bounds.{fetch-Within}
use provable_sdk.Network.Queries.{get_program}
use provable_sdk.Imports.{
  Programs, load, Walk, import_of, lines, member, credits, fetched, or_fetch, fetch_program_cached,
  found_import, enter, visit, visit_lines, collect, conclude, resolve, resolve_imports_ordered,
  append_source, ProvingRequestOptions, build, build_authorization_with_cache,
}

-- From `t` to `u` only requests that `P` allows were added.
unfoldable pub Only : (Request → Type 0) → Trace → Trace → Type 0
Only P t u = (n : ℕ) × Grows P n t u

pub Only-refl : (P : Request → Type 0) (t : Trace) → Only P t t
unfolding Only
Only-refl P t = (0, Grows-refl 0 t)

Only-trans : (P : Request → Type 0) (t u v : Trace) → Only P t u → Only P u v → Only P t v
unfolding Only
Only-trans P t u v (i, g) (j, h) = (i + j, Grows-trans i j (i + j) t (omega arith) g h)

-- Whatever its outcome, an action adds only such requests to the trace in its state.
unfoldable pub Keeps : {S A : Type 0} → (Request → Type 0) → (S → Trace) → Partial S A → Type 0
Keeps {S} P trace m = (s : S) → Only P (trace s) (trace (m s).1)

module _ {S : Type 0} (P : Request → Type 0) (trace : S → Trace) where
  proceed-Only :
      {A B : Type 0} (f : A → Partial S B) (t : Trace) (x : Option (Result A) × S)
      → ((a : A) → Keeps P trace (f a))
      → Only P t (trace x.1)
      → Only P t (trace (proceed f x).1)
  unfolding Keeps
  proceed-Only f t (some (ok a), s) hf h = Only-trans P t (trace s) _ h (hf a s)
  proceed-Only f t (some (err e), s) hf h = h
  proceed-Only f t (none, s) hf h = h

  pub Keeps-bind :
      {A B : Type 0} (m : Partial S A) (f : A → Partial S B)
      → Keeps P trace m
      → ((a : A) → Keeps P trace (f a))
      → Keeps P trace (m >>= f)
  unfolding Keeps
  Keeps-bind m f hm hf s = proceed-Only f (trace s) (m s) hf (hm s)

  blame-Only :
      {A : Type 0} (g : Fault → Fault) (t : Trace) (x : Option (Result A) × S)
      → Only P t (trace x.1)
      → Only P t (trace (blame g x).1)
  blame-Only g t (some (ok a), s) h = h
  blame-Only g t (some (err e), s) h = h
  blame-Only g t (none, s) h = h

  pub Keeps-on_fault :
      {A : Type 0} (g : Fault → Fault) (m : Partial S A)
      → Keeps P trace m
      → Keeps P trace (on_fault g m)
  unfolding Keeps
  Keeps-on_fault g m h s = blame-Only g (trace s) (m s) (h s)

module _ (env : Env) (json : Json) (c : NetworkClient) where
  -- The GET of the source of a program.
  pub IsProgramGet : Request → Type 0
  IsProgramGet q = (id : Bytes) × (q ≡ get_request c (endpoint c (codes "/program/" ++ id)))

  get_program-Only : (id : Bytes) (t : Trace) → Only IsProgramGet t (get_program env json c id t).1
  unfolding get_program Only IsProgramGet
  get_program-Only id t =
      let url : Bytes = endpoint c (codes "/program/" ++ id) in
      let n : ℕ = rounds c.max_retries in
      (
        n + 0,
        Grows-imp (λ q. q ≡ get_request c url) IsProgramGet (n + 0) (n + 0) t _ (λ q e. (id, e))
            (omega arith)
            ((Within-bind n 0 _ _ (Within-on_fault n _ _ (fetch-Within env c url))
                (λ body. Within-pure _)).at
              t),
      )

  fetched_trace :
      (id : Bytes) (p : Programs) (x : Result Bytes × Trace)
      → (fetched env json c id p x).1.trace ≡ x.1
  unfolding fetched
  fetched_trace id p (ok src, t) = refl
  fetched_trace id p (err e, t) = refl

  fetch_program_cached-Only :
      (id : Bytes) (p : Programs)
      → Only IsProgramGet p.trace (fetch_program_cached env json c id p).1.trace
  unfolding fetch_program_cached or_fetch
  fetch_program_cached-Only id p = elim (Option-cases (load id p.cache)) [
    | inl e ↦
        rw e (
          rw (fetched_trace id p (get_program env json c id p.trace)) (get_program-Only id p.trace))
    | inr (src, e) ↦ rw e (Only-refl IsProgramGet p.trace)
  ]

  abbrev Walks : {A : Type 0} → Partial (Walk A) Unit → Type 0
  Walks {A} m = Keeps {S = Walk A} {A = Unit} IsProgramGet (λ w. w.programs.trace) m

  module _ {A : Type 0} (keep : Bytes → Bytes → A → A) where
    found_import-Keeps : (id src : Bytes) → Walks (found_import env json c keep id src)
    unfolding Keeps found_import
    found_import-Keeps id src w = Only-refl IsProgramGet w.programs.trace

    module _ (deeper : Bytes → Partial (Walk A) Unit)
        (sure : (source : Bytes) → Walks (deeper source)) where
      enter-Only :
          (id : Bytes) (w : Walk A) (x : Result Bytes × Programs)
          → Only IsProgramGet w.programs.trace x.1.trace
          → Only IsProgramGet w.programs.trace
              (enter env json c keep deeper id w x).1.programs.trace
      unfolding enter Keeps
      enter-Only id w (err e, p) h = h
      enter-Only id w (ok src, p) h = Only-trans IsProgramGet w.programs.trace p.trace _ h (
          Keeps-bind IsProgramGet (λ (w : Walk A). w.programs.trace) (deeper src)
            (λ _. found_import env json c keep id src) (sure src) (λ _. found_import-Keeps id src)
            (record w { programs = p; visited = id ∷ w.visited }))

      visit-Keeps : (o : Option Bytes) → Walks (visit env json c keep deeper o)
      unfolding visit Keeps
      visit-Keeps none w = Only-refl IsProgramGet w.programs.trace
      visit-Keeps (some id) w = elim (Bool-cases (member id w.visited || bytes_eq id credits)) [
        | inl e ↦ rw e (Only-refl IsProgramGet w.programs.trace)
        | inr e ↦ rw e (enter-Only id w _ (fetch_program_cached-Only id w.programs))
      ]

      visit_lines-Keeps : (ls : List Bytes) → Walks (visit_lines env json c keep deeper ls)
      unfolding visit_lines Keeps
      visit_lines-Keeps [] w = Only-refl IsProgramGet w.programs.trace
      visit_lines-Keeps (line ∷ rest) w =
          Keeps-bind IsProgramGet (λ (w : Walk A). w.programs.trace)
            (visit env json c keep deeper (import_of line))
            (λ _. visit_lines env json c keep deeper rest) (visit-Keeps (import_of line))
            (λ _. visit_lines-Keeps rest) w

    collect-Keeps : (fuel : ℕ) (source : Bytes) → Walks (collect env json c keep fuel source)
    unfolding collect Keeps
    collect-Keeps zero source w = Only-refl IsProgramGet w.programs.trace
    collect-Keeps (suc fuel) source w =
        visit_lines-Keeps (collect env json c keep fuel) (collect-Keeps fuel) (lines source) w

    conclude_trace :
        (x : Option (Result (Unit {0})) × Walk A)
        → (conclude env json c keep x).1.trace ≡ x.1.programs.trace
    unfolding conclude
    conclude_trace (some (ok _), w) = refl
    conclude_trace (some (err e), w) = refl
    conclude_trace (none, w) = refl

  abbrev pub Sends : {A : Type 0} → Partial Programs A → Type 0
  Sends {A} m = Keeps {S = Programs} {A = A} IsProgramGet (λ p. p.trace) m

  resolve_imports_ordered-Keeps :
      (fuel : ℕ) (source : Bytes) → Sends (resolve_imports_ordered env json c fuel source)
  unfolding resolve_imports_ordered resolve Keeps
  resolve_imports_ordered-Keeps fuel source p =
      rw
        (conclude_trace append_source (
          collect env json c append_source fuel source
            (record { programs = p; visited = []; found = [] })))
        (collect-Keeps append_source fuel source
          (record { programs = p; visited = []; found = [] }))

  lifted-Keeps : {A : Type 0} (r : Result A) → Sends (total (lift r))
  unfolding Keeps
  lifted-Keeps r p = Only-refl IsProgramGet p.trace

  source-Keeps :
      (g : Fault → Fault) (id : Bytes)
      → Sends (total (λ p. let (r, q) = fetch_program_cached env json c id p in (map_fault g r, q)))
  unfolding Keeps
  source-Keeps g id p = fetch_program_cached-Only id p

  module _ (lib : Library) where
    build-Keeps : (fuel : ℕ) (opts : ProvingRequestOptions) → Sends (build env json lib c fuel opts)
    unfolding build
    build-Keeps fuel opts =
        search
          (
            lifted-Keeps,
            source-Keeps,
            resolve_imports_ordered-Keeps,
            Keeps-bind {S = Programs} IsProgramGet (λ p. p.trace),
            Keeps-on_fault {S = Programs} IsProgramGet (λ p. p.trace),
          )
          depth 12

    -- BuildAuthorizationWithCache sends only GETs of sources of programs.
    pub build_authorization_with_cache-Keeps :
        (fuel : ℕ) (opts : ProvingRequestOptions)
        → Sends (build_authorization_with_cache env json lib c fuel opts)
    unfolding build_authorization_with_cache Keeps
    build_authorization_with_cache-Keeps fuel opts p =
        elim (Bool-cases (is_empty opts.private_key)) [
          | inl e ↦ rw e (Only-refl IsProgramGet p.trace)
          | inr e ↦ rw e (build-Keeps fuel opts p)
        ]
