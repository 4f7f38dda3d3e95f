-- ===== src/Imports.antt =====
-- authorization.go: the walk over the imports of a program, with the cache of sources, and the
-- authorization that is built from them. The code's recursion has no bound: a node may name new
-- programs for ever. It runs on fuel here.
pub mod Cache
pub mod Sorted
pub mod Distinct
pub mod News
pub mod Steps
pub mod Order
pub mod Loaded
pub mod Buildable
pub mod Built
pub mod NoInputs
pub mod Refused
pub mod Traffic
use provable_sdk.Base.{
  ℕ, zero, suc, List, [], ◌∷◌, ◌++◌, Bool, true, false, ◌||◌, Option, none, some, Bytes, codes,
  if◌then◌else◌,
}
use provable_sdk.Text.{bytes_eq, is_empty, has_prefix, trim_suffix, trim_space, split, fields}
use provable_sdk.Fault.{Fault, annotate, sentinel, no_private_key}
use provable_sdk.Exec.{Result, ok, err, Exec, pure, raise, lift, map_fault}
use provable_sdk.Partial.{Partial, total, out_of_fuel, on_fault, ◌>>=◌}
use provable_sdk.Http.Env.{Env, Trace}
use provable_sdk.Json.{Json}
use provable_sdk.Types.{Authorization}
use provable_sdk.Bridge.{Library, authorize}
use provable_sdk.Network.{NetworkClient, put_entry}
use provable_sdk.Network.Queries.{get_program}

-- The world and the cache of program sources by ID; `none` is a nil cache.
pub record Programs : Type 0 where
  pub trace : Trace
  pub cache : Option (List (Bytes × Bytes))

find_entry : Bytes → List (Bytes × Bytes) → Option Bytes
find_entry key [] = none
find_entry key ((k, v) ∷ m) = if bytes_eq k key then some v else find_entry key m

-- cache.Load
pub load : Bytes → Option (List (Bytes × Bytes)) → Option Bytes
unfolding find_entry
load id none = none
load id (some m) = find_entry id m

-- cache.Store
store : Bytes → Bytes → Option (List (Bytes × Bytes)) → Option (List (Bytes × Bytes))
store id src none = none
store id src (some m) = some (put_entry id src m)

-- What the walk keeps: the sources, the IDs that it has met, and what it has found.
record Walk (A : Type 0) : Type 0 where
  pub programs : Programs
  pub visited : List Bytes
  pub found : A

unfoldable pub member : Bytes → List Bytes → Bool
member id [] = false
member id (x ∷ xs) = bytes_eq x id || member id xs

abbrev pub credits : Bytes
credits = codes "credits.aleo"

second_field : List Bytes → Option Bytes
second_field (word ∷ id ∷ words) = some (trim_suffix id (codes ";"))
second_field _ = none

-- The program that a line imports.
unfoldable pub import_of : Bytes → Option Bytes
unfolding second_field
import_of line =
    let l = trim_space line in
    if has_prefix l (codes "import ") then second_field (fields l) else none

unfoldable pub lines : Bytes → List Bytes
lines source = split source b'\n'

-- *ordered = append(*ordered, impSrc)
append_source : Bytes → Bytes → List Bytes → List Bytes
append_source id src ordered = ordered ++ src ∷ []

module _ (env : Env) (json : Json) (c : NetworkClient) where
  fetched : Bytes → Programs → Result Bytes × Trace → Result Bytes × Programs
  unfolding store
  fetched id p (ok src, t) = (ok src, record { trace = t; cache = store id src p.cache })
  fetched id p (err e, t) = (err e, record p { trace = t })

  or_fetch : Bytes → Programs → Option Bytes → Result Bytes × Programs
  unfolding fetched
  or_fetch id p (some src) = (ok src, p)
  or_fetch id p none = fetched id p (get_program env json c id p.trace)

  -- fetchProgramCached
  unfoldable pub fetch_program_cached : Bytes → Exec Programs Bytes
  unfolding or_fetch load
  fetch_program_cached id p = or_fetch id p (load id p.cache)

  -- `keep` adds an import and its source to what was found.
  module _ {A : Type 0} (keep : Bytes → Bytes → A → A) where
    found_import : Bytes → Bytes → Partial (Walk A) Unit
    found_import id src w = (some (ok tt), record w { found = keep id src w.found })

    enter :
        (Bytes → Partial (Walk A) Unit)
        → Bytes
        → Walk A
        → Result Bytes × Programs
        → Option (Result (Unit {0})) × Walk A
    unfolding found_import
    enter deeper id w (err e, p) = (
      some (err (annotate (codes "fetch import " ++ id) e)),
      record w { programs = p; visited = id ∷ w.visited },
    )
    enter deeper id w (ok src, p) =
        (do _ ← deeper src; found_import id src)
          (record w { programs = p; visited = id ∷ w.visited })

    -- one line of a source
    visit : (Bytes → Partial (Walk A) Unit) → Option Bytes → Partial (Walk A) Unit
    unfolding enter
    visit deeper none w = (some (ok tt), w)
    visit deeper (some id) w =
        if member id w.visited || bytes_eq id credits
        then (some (ok tt), w)
        else enter deeper id w (fetch_program_cached id w.programs)

    visit_lines : (Bytes → Partial (Walk A) Unit) → List Bytes → Partial (Walk A) Unit
    unfolding visit
    visit_lines deeper [] = total (pure tt)
    visit_lines deeper (line ∷ rest) = do _ ← visit deeper (import_of line); visit_lines deeper rest

    collect : ℕ → Bytes → Partial (Walk A) Unit
    unfolding visit_lines lines
    collect zero source = out_of_fuel
    collect (suc fuel) source = visit_lines (collect fuel) (lines source)

    conclude : Option (Result (Unit {0})) × Walk A → Option (Result A) × Programs
    conclude (some (ok _), w) = (some (ok w.found), w.programs)
    conclude (some (err e), w) = (some (err e), w.programs)
    conclude (none, w) = (none, w.programs)

    -- The walk from a source, with nothing met and `empty` found.
    resolve : A → ℕ → Bytes → Partial Programs A
    unfolding collect conclude
    resolve empty fuel source p =
        conclude (collect fuel source (record { programs = p; visited = []; found = empty }))

  unfoldable pub resolve_imports_ordered : ℕ → Bytes → Partial Programs (List Bytes)
  unfolding resolve append_source
  resolve_imports_ordered fuel source = resolve append_source [] fuel source

  -- NetworkClient.GetProgramImports, which walks with no cache
  unfoldable pub get_program_imports : ℕ → Bytes → Partial Trace (List (Bytes × Bytes))
  unfolding resolve
  get_program_imports fuel source t =
      let (r, p) = resolve put_entry [] fuel source (record { trace = t; cache = none }) in
      (r, p.trace)

pub record ProvingRequestOptions : Type 0 where
  pub program_name : Bytes
  pub function_name : Bytes
  pub inputs : Option (List Bytes)
  pub broadcast : Bool
  pub dps_privacy : Bool
  pub private_key : Bytes
  pub prover_url : Bytes

module _ (env : Env) (json : Json) (lib : Library) (c : NetworkClient) where
  authorized : Result Bytes → Result Authorization
  authorized (ok auth) = ok (record { raw = auth })
  authorized (err e) = err e

  build : ℕ → ProvingRequestOptions → Partial Programs Authorization
  unfolding authorized
  build fuel opts = do
    source ← total (λ p.
        let (r, q) = fetch_program_cached env json c opts.program_name p in
        (map_fault (annotate (codes "fetch program " ++ opts.program_name)) r, q))
    imports ←
        on_fault (annotate (codes "resolve imports"))
          (resolve_imports_ordered env json c fuel source)
    inputs_json ←
        total
          (lift (map_fault (annotate (codes "marshal inputs")) (json.marshal_strings opts.inputs)))
    imports_json ← total (
        lift (map_fault (annotate (codes "marshal imports")) (json.marshal_strings (some imports))))
    total (
        lift (
          authorized (
            map_fault
              (annotate
                (codes "authorize " ++ opts.program_name ++ codes "/" ++ opts.function_name))
              (authorize lib json opts.private_key source opts.function_name inputs_json
                imports_json))))

  unfoldable pub build_authorization_with_cache :
      ℕ → ProvingRequestOptions → Partial Programs Authorization
  unfolding build is_empty
  build_authorization_with_cache fuel opts p =
      if is_empty opts.private_key
      then (some (err (sentinel no_private_key)), p)
      else build fuel opts p

  -- With no cache.
  unfoldable build_authorization : ℕ → ProvingRequestOptions → Partial Trace Authorization
  build_authorization fuel opts t =
      let (r, p) = build_authorization_with_cache fuel opts (record { trace = t; cache = none }) in
      (r, p.trace)
