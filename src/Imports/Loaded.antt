-- ===== src/Imports/Loaded.antt =====
-- The imports that resolveImportsOrdered lists, and the loop of aleo_authorize that adds them.
use mathlib.Core.List.{map-append}
use mathlib.Core.Path.{subst}
use provable_sdk.Base.{
  ℕ, ◌<◌, ◌≤◌, ◌≡◌, refl, sym, ap, ◌∙◌, inl, inr, Bool-cases, true, false, ◌||◌, Option, none, some,
  List, [], ◌∷◌, ◌++◌, map, Bytes, Bool, arith, All,
}
use provable_sdk.Text.{bytes_eq, bytes_eq_sound, bytes_eq_refl}
use provable_sdk.Exec.{ok}
use provable_sdk.Http.Env.{Env}
use provable_sdk.Json.{Json}
use provable_sdk.Network.{NetworkClient}
use provable_sdk.Imports.{Programs, member, credits, import_of, lines, resolve_imports_ordered}
use provable_sdk.Imports.Sorted.{Present, Resolved, IsSorted, nothing, behind, Below, IsBelow}
use provable_sdk.Imports.Cache.{Serves, Agrees}
use provable_sdk.Imports.Distinct.{map-eq-append, All-init, member-init, Distinct-init, Distinct}
use provable_sdk.Imports.Order.{resolve_imports_ordered-IsListed}
use provable_sdk.Bridge.Rust.{done}
use provable_sdk.Bridge.Rust.Crates.{Crates}
use provable_sdk.Bridge.Rust.Authorize.{add_imports}
use provable_sdk.Bridge.Rust.Outcomes.{done_inj}
use provable_sdk.Bridge.Rust.Adding.{Adds, add_imports-Adds}
use provable_sdk.Bridge.Rust.Adding

module _ (k : Crates) (src : Bytes → Bytes) (knows : k.Process → Bytes → Bool) where
  -- Every import of a source is known to the process.
  abbrev pub Supplied : k.Process → Option Bytes → Type 0
  Supplied p none = Unit
  Supplied p (some id) = knows p id ≡ true

  -- What snarkVM documents of programs: those of rank below `n` are read from their sources, and a
  -- process that knows all imports of such a program and does not know the program itself takes it, and
  -- then knows it, and else what it knew.
  pub record Takes (rank : Bytes → ℕ) (n : ℕ) : Type 0 where
    pub program : Bytes → k.Program
    pub parses : (id : Bytes) → rank id < n → k.parse_program (src id) ≡ done (program id)
    pub named : (id : Bytes) → rank id < n → k.program_id (program id) ≡ id
    pub taken : k.Process → Bytes → k.Process
    pub takes :
        (p : k.Process) (id : Bytes)
        → rank id < n
        → All (λ line. Supplied p (import_of line)) (lines (src id))
        → knows p id ≡ false
        → k.add_program p (program id) ≡ done (taken p id)
    pub knows-taken :
        (p : k.Process) (id id' : Bytes)
        → rank id < n
        → knows (taken p id) id' ≡ (bytes_eq id id' || knows p id')

  module _ (rank : Bytes → ℕ) (n : ℕ) (t : Takes rank n) where
    -- A program is known by its source.
    same_program : (i j : Bytes) → rank i < n → rank j < n → src i ≡ src j → i ≡ j
    same_program i j hi hj e =
        sym (t.named i hi)
        ∙ ap k.program_id (done_inj (sym (t.parses i hi) ∙ ap k.parse_program e ∙ t.parses j hj))
        ∙ t.named j hj

    listed_by_id :
        (j : Bytes) (ids : List Bytes)
        → rank j < n
        → All (λ id. (rank id < n) × (bytes_eq id credits ≡ false)) ids
        → member (src j) (map src ids) ≡ true
        → member j ids ≡ true
    unfolding member
    listed_by_id j [] lt h m = absurd (cc m)
    listed_by_id j (id ∷ ids) lt ((lt', _), hs) m = elim (Bool-cases (bytes_eq (src id) (src j))) [
      | inl e ↦
          let same = same_program id j lt' lt (bytes_eq_sound (src id) (src j) e) in
          ground (arith, subst (λ x. bytes_eq id x ≡ true) same (bytes_eq_refl id))
      | inr e ↦ ground (arith, listed_by_id j ids lt hs (ground (arith, e, m)))
    ]

    -- What is present among the sources is known to a process that knows their programs.
    line-Supplied :
        (q : k.Process) (ids : List Bytes) (o : Option Bytes) (m : ℕ)
        → m ≤ n
        → All (λ id. (rank id < n) × (bytes_eq id credits ≡ false)) ids
        → knows q credits ≡ true
        → ((id : Bytes) → member id ids ≡ true → knows q id ≡ true)
        → Below src rank m o
        → Present src (map src ids) o
        → Supplied q o
    line-Supplied q ids none m lt known base all below present = tt
    line-Supplied q ids (some id) m lt known base all below present =
        elim (Bool-cases (bytes_eq id credits)) [
          | inl e ↦ subst (λ x. knows q x ≡ true) (sym (bytes_eq_sound id credits e)) base
          | inr e ↦ all id (listed_by_id id ids (omega (arith, below e, lt)) known (present e))
        ]

    lines-Supplied :
        (q : k.Process) (ids : List Bytes) (ls : List Bytes) (m : ℕ)
        → m ≤ n
        → All (λ id. (rank id < n) × (bytes_eq id credits ≡ false)) ids
        → knows q credits ≡ true
        → ((id : Bytes) → member id ids ≡ true → knows q id ≡ true)
        → All (λ line. Below src rank m (import_of line)) ls
        → All (Resolved src (map src ids)) ls
        → All (λ line. Supplied q (import_of line)) ls
    lines-Supplied q ids [] m lt known base all below present = tt
    lines-Supplied q ids (l ∷ ls) m lt known base all (b, below) (p, present) = (
      line-Supplied q ids (import_of l) m lt known base all b p,
      lines-Supplied q ids ls m lt known base all below present,
    )

    Adds-behind :
        {p q r : k.Process} {xs : List Bytes} {program : k.Program} (s : Bytes)
        → Adds k p xs q
        → k.parse_program s ≡ done program
        → k.add_program q program ≡ done r
        → Adds k p (xs ++ s ∷ []) r
    Adds-behind s Adding.nothing e e' = Adding.next e e' Adding.nothing
    Adds-behind s (Adding.next f f' a) e e' = Adding.next f f' (Adds-behind s a e e')

    -- A process that has taken programs knows them, and else what it knew.
    pub record Loads (p : k.Process) (ids : List Bytes) : Type 0 where
      pub reached : k.Process
      pub adds : Adds k p (map src ids) reached
      pub knows_all : (id : Bytes) → knows reached id ≡ (member id ids || knows p id)

    module _ (acyclic : (id : Bytes) → IsBelow src rank (rank id) (src id)) (p : k.Process)
        (base : knows p credits ≡ true)
        (bare : (id : Bytes) → rank id < n → bytes_eq id credits ≡ false → knows p id ≡ false) where
      -- One more program, whose imports are among those that were taken.
      more-Loads :
          (init : List Bytes) (last : Bytes)
          → Loads p init
          → All (λ id. (rank id < n) × (bytes_eq id credits ≡ false)) init
          → (rank last < n) × (bytes_eq last credits ≡ false)
          → member last init ≡ false
          → All (Resolved src (map src init)) (lines (src last))
          → Loads p (init ++ last ∷ [])
      more-Loads init last l known (lt, foreign) unmet present =
          let base' : knows l.reached credits ≡ true = ground (arith, l.knows_all credits, base) in
          let fresh : knows l.reached last ≡ false =
            ground (arith, l.knows_all last, unmet, bare last lt foreign) in
          let supplied =
            lines-Supplied l.reached init (lines (src last)) (rank last) (omega (arith, lt)) known
              base' (λ id m. ground (arith, l.knows_all id, m)) (acyclic last) present in
          record {
            reached = t.taken l.reached last;
            adds =
                subst (λ xs. Adds k p xs (t.taken l.reached last))
                  (sym (map-append src init (last ∷ [])))
                  (Adds-behind (src last) l.adds (t.parses last lt)
                    (t.takes l.reached last lt supplied fresh));
            knows_all = λ id. ground (
              arith,
              t.knows-taken l.reached last id lt,
              l.knows_all id,
              member-init id last init,
            );
          }

      IsSorted-Loads :
          {xs : List Bytes}
          → IsSorted src xs
          → (ids : List Bytes) → map src ids ≡ xs
          → Distinct ids
          → All (λ id. (rank id < n) × (bytes_eq id credits ≡ false)) ids
          → Loads p ids
      unfolding member
      IsSorted-Loads nothing [] e d h = record {
        reached = p;
        adds = Adding.nothing;
        knows_all = λ id. refl;
      }
      IsSorted-Loads nothing (id ∷ ids) e d h = absurd (cc e)
      IsSorted-Loads (behind {xs = xs} s sorted present) ids e d h =
          let (init, last, same, e', e'') = map-eq-append src ids xs s e in
          let (known, last_known) = All-init _ init last (subst (All _) same h) in
          let (distinct, unmet) = Distinct-init init last (subst Distinct same d) in
          subst (Loads p) (sym same) (
            more-Loads init last (IsSorted-Loads sorted init e' distinct known) known last_known
              unmet
              (subst (λ ys. All (Resolved src ys) (lines (src last))) (sym e')
                (subst (λ x. All (Resolved src xs) (lines x)) (sym e'') present)))

      module _ (env : Env) (json : Json) (c : NetworkClient) (serves : Serves env json c src) where
        -- The imports as a list of programs, and the process that has taken them.
        pub resolve_imports_ordered-Loads :
            (fuel : ℕ) (source : Bytes) (programs : Programs)
            → n < fuel
            → IsBelow src rank n source
            → Agrees env json c src programs.cache
            → (ids : List Bytes) × (l : Loads p ids) × ((resolve_imports_ordered env json c fuel
                  source programs).0
                ≡ some (ok (map src ids)))
              × All (λ id. (rank id < n) × (bytes_eq id credits ≡ false)) ids
              × All (λ line. Supplied l.reached (import_of line)) (lines source)
        resolve_imports_ordered-Loads fuel source programs lt below agrees =
            let (ids, e, sorted, found, distinct, known) =
              resolve_imports_ordered-IsListed env json c src rank serves acyclic fuel n source
                programs lt below agrees in
            let l = IsSorted-Loads sorted ids refl distinct known in
            (
              ids,
              l,
              e,
              known,
              lines-Supplied l.reached ids (lines source) n (omega arith) known
                  (ground (arith, l.knows_all credits, base))
                  (λ id m. ground (arith, l.knows_all id, m)) below found,
            )

        -- If the node serves the source of every program, the cache holds nothing else, every import has
        -- a smaller rank than its importer, snarkVM takes each program of rank below the bound whose
        -- imports it knows and which it does not know yet, and the process knows the built-in program
        -- and no program of such rank: then resolveImportsOrdered ends without an error, with fuel for
        -- the bound, aleo_authorize adds all that it lists, in its order, and the process that this
        -- comes to knows every import of the program itself.
        pub resolve_imports_ordered-add_imports :
            (fuel : ℕ) (source : Bytes) (programs : Programs)
            → n < fuel
            → IsBelow src rank n source
            → Agrees env json c src programs.cache
            → (ordered : List Bytes) × (reached : k.Process) × ((resolve_imports_ordered env json c
                  fuel source programs).0
                ≡ some (ok ordered))
              × (add_imports k 0 ordered p ≡ done reached)
              × All (λ line. Supplied reached (import_of line)) (lines source)
        resolve_imports_ordered-add_imports fuel source programs lt below agrees =
            let (ids, l, e, known, supplied) =
              resolve_imports_ordered-Loads fuel source programs lt below agrees in
            (
              map src ids,
              l.reached,
              e,
              (add_imports-Adds k 0 (map src ids) p l.reached).1 l.adds,
              supplied,
            )
