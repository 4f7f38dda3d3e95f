-- ===== src/Imports/Steps.antt =====
-- What the walk of resolveImportsOrdered has met and listed, and what a part of it adds.
use provable_sdk.Base.{ℕ, ◌<◌, ◌≡◌, ◌⊎◌, inl, inr, true, List, Bytes}
use provable_sdk.Http.Env.{Env}
use provable_sdk.Json.{Json}
use provable_sdk.Network.{NetworkClient}
use provable_sdk.Imports.{Walk, member}
use provable_sdk.Imports.Sorted.{IsSorted}
use provable_sdk.Imports.Cache.{Agrees}
use provable_sdk.Imports.News.{News, same-News, News-trans}

abbrev pub Sources : Type 0
Sources = Walk (List Bytes)

module _ (env : Env) (json : Json) (c : NetworkClient) (src : Bytes → Bytes)
    (rank : Bytes → ℕ) where
  -- The walk may go on from here, at imports of rank below `k`: whatever was met of that rank is done.
  pub record IsReady (k : ℕ) (w : Sources) : Type 0 where
    pub agrees : Agrees env json c src w.programs.cache
    pub sorted : IsSorted src w.found
    pub finished :
        (id : Bytes) → member id w.visited ≡ true → rank id < k → member (src id) w.found ≡ true

  -- What a part of the walk does.
  pub record Step (k : ℕ) (v w : Sources) : Type 0 where
    pub agrees : Agrees env json c src w.programs.cache
    pub sorted : IsSorted src w.found
    pub grows : (s : Bytes) → member s v.found ≡ true → member s w.found ≡ true
    pub fresh :
        (id : Bytes)
        → member id w.visited ≡ true
        → (member id v.visited ≡ true) ⊎ (member (src id) w.found ≡ true)
    pub news : News src rank k v.visited v.found w.visited w.found

  pub stay : (k : ℕ) (w : Sources) → IsReady k w → Step k w w
  stay k w h = record {
    agrees = h.agrees;
    sorted = h.sorted;
    grows = λ s m. m;
    fresh = λ id m. inl m;
    news = same-News src rank k w.visited w.found;
  }

  pub Step-IsReady : (k : ℕ) (v w : Sources) → IsReady k v → Step k v w → IsReady k w
  Step-IsReady k v w h st = record {
    agrees = st.agrees;
    sorted = st.sorted;
    finished = λ id m lt. elim (st.fresh id m) [
      | inl e ↦ st.grows (src id) (h.finished id e lt)
      | inr e ↦ e
    ];
  }

  pub Step-trans : (k : ℕ) (u v w : Sources) → Step k u v → Step k v w → Step k u w
  Step-trans k u v w a b = record {
    agrees = b.agrees;
    sorted = b.sorted;
    grows = λ s m. b.grows s (a.grows s m);
    fresh = λ id m. elim (b.fresh id m) [
      | inl e ↦ elim (a.fresh id e) [ inl f ↦ inl f | inr f ↦ inr (b.grows (src id) f) ]
      | inr e ↦ inr e
    ];
    news = News-trans src rank k a.news b.news;
  }
