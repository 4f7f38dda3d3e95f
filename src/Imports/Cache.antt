-- ===== src/Imports/Cache.antt =====
-- fetchProgramCached against a node that serves every program.
use mathlib.Core.Path.{subst}
use provable_sdk.Base.{
  ◌≡◌, refl, sym, ap, ◌∙◌, ◌⊎◌, inl, inr, Bool-cases, false, Option, none, some, List, [], ◌∷◌,
  Bytes, arith,
}
use provable_sdk.Text.{bytes_eq, bytes_eq_sound}
use provable_sdk.Exec.{Result, ok, err}
use provable_sdk.Http.Env.{Env, Trace}
use provable_sdk.Json.{Json}
use provable_sdk.Network.{NetworkClient, put_entry}
use provable_sdk.Network.Queries.{get_program}
use provable_sdk.Imports.{
  Programs, find_entry, load, store, fetched, or_fetch, fetch_program_cached,
}

-- An entry that is found behind an update is the new one, or was there before.
find_entry-put_entry :
    (k k' v : Bytes) (m : List (Bytes × Bytes)) {s : Bytes}
    → find_entry k' (put_entry k v m) ≡ some s
    → ((s ≡ v) × (k ≡ k')) ⊎ (find_entry k' m ≡ some s)
unfolding find_entry put_entry
find_entry-put_entry k k' v [] h = elim (Bool-cases (bytes_eq k k')) [
  | inl e ↦ inl (ground (arith, e), bytes_eq_sound k k' e)
  | inr e ↦ absurd (ground (arith, e))
]
find_entry-put_entry k k' v ((j, u) ∷ m) {s} h = elim (Bool-cases (bytes_eq j k)) [
  | inl e ↦ elim (Bool-cases (bytes_eq k k')) [
    | inl f ↦ inl (ground (arith, e, f), bytes_eq_sound k k' f)
    | inr f ↦
        let g : bytes_eq j k' ≡ false = ap (λ x. bytes_eq x k') (bytes_eq_sound j k e) ∙ f in
        inr (ground (arith, e, f, g))
  ]
  | inr e ↦ elim (Bool-cases (bytes_eq j k')) [
    | inl f ↦ inr (ground (arith, e, f))
    | inr f ↦
        let rest = find_entry-put_entry k k' v m {s = s} (ground (arith, e, f)) in
        elim rest [ inl q ↦ inl q | inr q ↦ inr (ground (arith, f, q)) ]
  ]
]

module _ (env : Env) (json : Json) (c : NetworkClient) (src : Bytes → Bytes) where
  -- The node gives every program its source.
  abbrev pub Serves : Type 0
  Serves = (id : Bytes) (t : Trace) → (get_program env json c id t).0 ≡ ok (src id)

  abbrev pub Agrees : Option (List (Bytes × Bytes)) → Type 0
  Agrees cache = (id s : Bytes) → load id cache ≡ some s → s ≡ src id

  pub none-Agrees : Agrees none
  unfolding load
  none-Agrees id s e = absurd (cc e)

  store-Agrees :
      (id : Bytes) (cache : Option (List (Bytes × Bytes)))
      → Agrees cache
      → Agrees (store id (src id) cache)
  unfolding store load
  store-Agrees id none h id' s e = absurd (cc e)
  store-Agrees id (some m) h id' s e = elim (find_entry-put_entry id id' (src id) m e) [
    | inl (p, q) ↦ p ∙ ap src q
    | inr p ↦ h id' s p
  ]

  Fetches : Bytes → Result Bytes × Programs → Type 0
  Fetches id (r, p) = (r ≡ ok (src id)) × Agrees p.cache

  fetched-Fetches :
      (id : Bytes) (p : Programs) (x : Result Bytes × Trace)
      → x.0 ≡ ok (src id)
      → Agrees p.cache
      → Fetches id (fetched env json c id p x)
  unfolding fetched Fetches
  fetched-Fetches id p (ok s, t) e h = (
    e,
    subst (λ x. Agrees (store id x p.cache)) (sym (ground (arith, e))) (store-Agrees id p.cache h),
  )
  fetched-Fetches id p (err f, t) e h = absurd (cc e)

  module _ (serves : Serves) where
    or_fetch-Fetches :
        (id : Bytes) (p : Programs) (o : Option Bytes)
        → load id p.cache ≡ o
        → Agrees p.cache
        → Fetches id (or_fetch env json c id p o)
    unfolding or_fetch Fetches
    or_fetch-Fetches id p (some s) e h = (ap ok (h id s e), h)
    or_fetch-Fetches id p none e h = fetched-Fetches id p _ (serves id p.trace) h

    pub fetch_program_cached-Agrees :
        (id : Bytes) (p : Programs)
        → Agrees p.cache
        → ((fetch_program_cached env json c id p).0 ≡ ok (src id))
          × Agrees (fetch_program_cached env json c id p).1.cache
    unfolding fetch_program_cached Fetches
    fetch_program_cached-Agrees id p h = or_fetch-Fetches id p (load id p.cache) refl h
