-- ===== src/Imports/Order.antt =====
-- resolveImportsOrdered: the order in which it lists the imports.
use mathlib.Core.Path.{subst}
use provable_sdk.Base.{
  ℕ, zero, suc, ◌<◌, ◌≡◌, refl, ap, ◌∙◌, inl, inr, Bool-cases, true, false, ◌||◌, Option, none,
  some, List, [], ◌∷◌, ◌++◌, Bytes, arith, All, map,
}
use provable_sdk.Text.{bytes_eq}
use provable_sdk.Exec.{Result, ok}
use provable_sdk.Http.Env.{Env}
use provable_sdk.Json.{Json}
use provable_sdk.Network.{NetworkClient}
use provable_sdk.Imports.{
  Programs, member, credits, import_of, lines, append_source, enter, visit, visit_lines, collect,
  conclude, resolve, fetch_program_cached, found_import, resolve_imports_ordered,
}
use provable_sdk.Imports.Sorted.{
  member-append, nowhere, member_last, member_cases, Present, Resolved, IsSorted, nothing, behind,
  Below, IsBelow, Present-weaken,
}
use provable_sdk.Imports.Cache.{Serves, Agrees, fetch_program_cached-Agrees}
use provable_sdk.Imports.Distinct.{Distinct}
use provable_sdk.Imports.News.{News-enter}
use provable_sdk.Imports.Steps.{Sources, IsReady, Step, stay, Step-IsReady, Step-trans}

module _ (env : Env) (json : Json) (c : NetworkClient) (src : Bytes → Bytes)
    (rank : Bytes → ℕ) where
  -- A part of the walk ends without an error, with a property of what is found.
  abbrev Reaches :
      ℕ → (List Bytes → Type 0) → Sources → Option (Result (Unit {0})) × Sources → Type 0
  Reaches k Q v x =
      (w : Sources) × (x ≡ (some (ok tt), w)) × Step env json c src rank k v w × Q w.found

  -- What the recursive call does for a source whose imports have rank below `r`.
  abbrev Deep : ℕ → (Bytes → Sources → Option (Result (Unit {0})) × Sources) → Type 0
  Deep k deeper =
      (source : Bytes) (r : ℕ) (w : Sources)
      → r < k
      → IsBelow src rank r source
      → IsReady env json c src rank r w
      → Reaches r (λ xs. All (Resolved src xs) (lines source)) w (deeper source w)

  module _ (serves : Serves env json c src)
      (acyclic : (id : Bytes) → IsBelow src rank (rank id) (src id)) (k : ℕ)
      (deeper : Bytes → Sources → Option (Result (Unit {0})) × Sources) (deep : Deep k deeper) where
    entered :
        (id : Bytes) (w : Sources) (q : Programs)
        → IsReady env json c src rank k w
        → rank id < k
        → member id w.visited ≡ false
        → bytes_eq id credits ≡ false
        → Agrees env json c src q.cache
        → Reaches k
            (λ xs. member (src id) xs ≡ true)
            w
            (enter env json c append_source deeper id w (ok (src id), q))
    unfolding enter found_import append_source
    entered id w q h lt unmet foreign agrees =
        let v : Sources = record w { programs = q; visited = id ∷ w.visited } in
        let ready : IsReady env json c src rank (rank id) v = record {
          agrees = agrees;
          sorted = h.sorted;
          finished = λ id' m less. elim (member_cases id' id w.visited m) [
            | inl e ↦ absurd (omega (arith, less, ap rank e))
            | inr e ↦ h.finished id' e (omega (arith, less, lt))
          ];
        } in
        let (u, e, st, found) = deep (src id) (rank id) v lt (acyclic id) ready in
        (
          record u { found = u.found ++ src id ∷ [] },
          rw e,
          record {
            agrees = st.agrees;
            sorted = behind (src id) st.sorted found;
            grows = λ s m. member-append s (src id) u.found (st.grows s m);
            fresh = λ id' m. elim (st.fresh id' m) [
              | inl f ↦ elim (member_cases id' id w.visited f) [
                | inl g ↦ inr (
                    subst (λ x. member (src x) (u.found ++ src id ∷ []) ≡ true) g
                      (member_last (src id) u.found))
                | inr g ↦ inl g
              ]
              | inr f ↦ inr (member-append (src id') (src id) u.found f)
            ];
            news = News-enter src rank k id lt foreign unmet st.news;
          },
          member_last (src id) u.found,
        )

    visited_one :
        (o : Option Bytes) (w : Sources)
        → IsReady env json c src rank k w
        → Below src rank k o
        → Reaches k (λ xs. Present src xs o) w (visit env json c append_source deeper o w)
    unfolding visit
    visited_one none w h below = (w, refl, stay env json c src rank k w h, tt)
    visited_one (some id) w h below =
        elim (Bool-cases (member id w.visited || bytes_eq id credits)) [
          | inl e ↦ (
            w,
            rw e,
            stay env json c src rank k w h,
            λ e'. elim (Bool-cases (member id w.visited)) [
              | inl f ↦ h.finished id f (below e')
              | inr f ↦ absurd (ground (arith, e, e', f))
            ],
          )
          | inr e ↦
              let other : bytes_eq id credits ≡ false = ground (arith, e) in
              let (r, agrees) =
                fetch_program_cached-Agrees env json c src serves id w.programs h.agrees in
              let (u, e', st, found) =
                entered id w (fetch_program_cached env json c id w.programs).1 h (below other)
                  (ground (arith, e)) other agrees in
              (
                u,
                rw e (
                    ap
                      (λ x.
                        enter env json c append_source deeper id w
                          (x, (fetch_program_cached env json c id w.programs).1))
                      r
                    ∙ e'),
                st,
                λ e''. found,
              )
        ]

    visited_lines :
        (ls : List Bytes) (w : Sources)
        → IsReady env json c src rank k w
        → All (λ line. Below src rank k (import_of line)) ls
        → Reaches k
            (λ xs. All (Resolved src xs) ls)
            w
            (visit_lines env json c append_source deeper ls w)
    unfolding visit_lines
    visited_lines [] w h below = (w, refl, stay env json c src rank k w h, tt)
    visited_lines (l ∷ ls) w h (p, below) =
        let (u, e, st, found) = visited_one (import_of l) w h p in
        let (v, e', st', found') =
          visited_lines ls u (Step-IsReady env json c src rank k w u h st) below in
        (
          v,
          rw e e',
          Step-trans env json c src rank k w u v st st',
          (Present-weaken src u.found v.found (import_of l) st'.grows found, found'),
        )

  module _ (serves : Serves env json c src)
      (acyclic : (id : Bytes) → IsBelow src rank (rank id) (src id)) where
    collected : (fuel : ℕ) → Deep fuel (collect env json c append_source fuel)
    unfolding collect
    collected zero source r w lt below h = absurd (omega (arith, lt))
    collected (suc n) source r w lt below h =
        visited_lines serves acyclic r (collect env json c append_source n)
          (λ source' r' w' lt' below' h'.
            collected n source' r' w' (omega (arith, lt, lt')) below' h')
          (lines source) w h below

    -- If the node serves the source of every program, the cache holds nothing else, and every import
    -- has a smaller rank than its importer, then the walk ends without an error, and its list is that
    -- of the sources of programs, none twice and none built in, of rank below the bound.
    pub resolve_imports_ordered-IsListed :
        (fuel k : ℕ) (source : Bytes) (p : Programs)
        → k < fuel
        → IsBelow src rank k source
        → Agrees env json c src p.cache
        → (ids : List Bytes) × ((resolve_imports_ordered env json c fuel source p).0
            ≡ some (ok (map src ids)))
          × IsSorted src (map src ids)
          × All (Resolved src (map src ids)) (lines source)
          × Distinct ids
          × All (λ id. (rank id < k) × (bytes_eq id credits ≡ false)) ids
    unfolding resolve_imports_ordered resolve conclude
    resolve_imports_ordered-IsListed fuel k source p lt below agrees =
        let start : Sources = record { programs = p; visited = []; found = [] } in
        let (w, e, st, found) = collected fuel source k start lt below (record {
          agrees = agrees;
          sorted = nothing;
          finished = λ id m. absurd (nowhere id m);
        }) in
        let list = st.news.appended in
        (
          st.news.ids,
          rw e (ap (λ xs. some (ok xs)) list),
          subst (IsSorted src) list st.sorted,
          subst (λ xs. All (Resolved src xs) (lines source)) list found,
          st.news.distinct,
          st.news.known,
        )

    -- If the node serves the source of every program, the cache holds nothing else, and every import
    -- has a smaller rank than its importer (there is no cycle), then the walk ends, with fuel for the
    -- highest rank, without an error: in its list every source stands behind the sources of its own
    -- imports, and the imports of the program itself are all there.
    pub resolve_imports_ordered-IsSorted :
        (fuel k : ℕ) (source : Bytes) (p : Programs)
        → k < fuel
        → IsBelow src rank k source
        → Agrees env json c src p.cache
        → (ordered : List Bytes) × ((resolve_imports_ordered env json c fuel source p).0
            ≡ some (ok ordered))
          × IsSorted src ordered
          × All (Resolved src ordered) (lines source)
    resolve_imports_ordered-IsSorted fuel k source p lt below agrees =
        let (ids, e, sorted, found, _, _) =
          resolve_imports_ordered-IsListed fuel k source p lt below agrees in
        (map src ids, e, sorted, found)
