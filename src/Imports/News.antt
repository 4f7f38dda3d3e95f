-- ===== src/Imports/News.antt =====
-- The programs that a part of the walk lists: each is met for the first time in this part.
use mathlib.Core.List.{map-append}
use provable_sdk.Base.{
  ℕ, ◌<◌, ◌≡◌, sym, ap, ◌∙◌, inl, inr, Bool-cases, true, false, List, [], ◌∷◌, ◌++◌, map,
  append-nil, append_assoc, Bytes, arith, All, All-imp, All-append,
}
use provable_sdk.Text.{bytes_eq}
use provable_sdk.Imports.{member, credits}
use provable_sdk.Imports.Distinct.{
  one_more, not_new, not_behind, met_behind, met_first, Distinct-append, Distinct,
}

module _ (src : Bytes → Bytes) (rank : Bytes → ℕ) where
  -- From what is met and found first, to what is met and found then: sources of programs that were not
  -- met before, of rank below `k`, each once and none of them built in.
  pub record News (k : ℕ) (visited found visited' found' : List Bytes) : Type 0 where
    pub ids : List Bytes
    pub appended : found' ≡ found ++ map src ids
    pub distinct : Distinct ids
    pub fresh : All (λ id. member id visited ≡ false) ids
    pub met : All (λ id. member id visited' ≡ true) ids
    pub known : All (λ id. (rank id < k) × (bytes_eq id credits ≡ false)) ids
    pub keeps : (id : Bytes) → member id visited ≡ true → member id visited' ≡ true

  pub same-News : (k : ℕ) (visited found : List Bytes) → News k visited found visited found
  same-News k visited found = record {
    ids = [];
    appended = sym (append-nil found);
    distinct = tt;
    fresh = tt;
    met = tt;
    known = tt;
    keeps = λ id h. h;
  }

  not_met :
      (v w : List Bytes)
      → ((id : Bytes) → member id v ≡ true → member id w ≡ true)
      → (id : Bytes) → member id w ≡ false
      → member id v ≡ false
  not_met v w keeps id h = elim (Bool-cases (member id v)) [
    | inl e ↦ absurd (cc (keeps id e))
    | inr e ↦ e
  ]

  pub News-trans :
      (k : ℕ) {v f v' f' v'' f'' : List Bytes}
      → News k v f v' f'
      → News k v' f' v'' f''
      → News k v f v'' f''
  News-trans k {v} {f} {v'} {f'} {v''} {f''} a b = record {
    ids = a.ids ++ b.ids;
    appended =
        b.appended
        ∙ ap (λ x. x ++ map src b.ids) a.appended
        ∙ append_assoc f (map src a.ids) (map src b.ids)
        ∙ ap (λ x. f ++ x) (sym (map-append src a.ids b.ids));
    distinct = Distinct-append a.ids b.ids v' a.distinct b.distinct a.met b.fresh;
    fresh =
        All-append _ a.ids b.ids a.fresh
          (All-imp (λ id h. not_met v v' a.keeps id h) b.ids b.fresh);
    met = All-append _ a.ids b.ids (All-imp (λ id h. b.keeps id h) a.ids a.met) b.met;
    known = All-append _ a.ids b.ids a.known b.known;
    keeps = λ id h. b.keeps id (a.keeps id h);
  }

  -- A program that is entered, and listed behind what is listed below it.
  pub News-enter :
      (k : ℕ) (id : Bytes) {v f v' f' : List Bytes}
      → rank id < k
      → bytes_eq id credits ≡ false
      → member id v ≡ false
      → News (rank id) (id ∷ v) f v' f'
      → News k v f v' (f' ++ src id ∷ [])
  News-enter k id {v} {f} lt foreign unmet n = record {
    ids = n.ids ++ id ∷ [];
    appended =
        ap (λ x. x ++ src id ∷ []) n.appended
        ∙ append_assoc f (map src n.ids) (src id ∷ [])
        ∙ ap (λ x. f ++ x) (sym (map-append src n.ids (id ∷ [])));
    distinct = one_more n.ids id n.distinct (not_new id n.ids (id ∷ v) (met_first id v) n.fresh);
    fresh =
        All-append _ n.ids (id ∷ []) (All-imp (λ y h. not_behind y id v h) n.ids n.fresh)
          (unmet, tt);
    met = All-append _ n.ids (id ∷ []) n.met (n.keeps id (met_first id v), tt);
    known =
        All-append _ n.ids (id ∷ []) (All-imp (λ y h. (omega (arith, lt, h.0), h.1)) n.ids n.known)
          ((lt, foreign), tt);
    keeps = λ y h. n.keeps y (met_behind y id v h);
  }
