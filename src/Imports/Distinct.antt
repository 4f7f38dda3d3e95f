-- ===== src/Imports/Distinct.antt =====
-- Lists of program IDs in which none stands twice, and what is met on a walk.
use provable_sdk.Base.{
  ◌≡◌, refl, sym, ap, ◌∙◌, inl, inr, Bool-cases, true, false, List, [], ◌∷◌, ◌++◌, ◌||◌, map, Bytes,
  arith, All,
}
use provable_sdk.Text.{bytes_eq, bytes_eq_sound, bytes_eq_refl}
use provable_sdk.Imports.{member}

-- No text stands twice.
abbrev pub Distinct : List Bytes → Type 0
Distinct [] = Unit
Distinct (x ∷ xs) = (member x xs ≡ false) × Distinct xs

pub member-append_none :
    (y : Bytes) (xs ys : List Bytes)
    → member y xs ≡ false
    → member y ys ≡ false
    → member y (xs ++ ys) ≡ false
unfolding member
member-append_none y [] ys h k = k
member-append_none y (x ∷ xs) ys h k = let r = member-append_none y xs ys in ground (arith, r)

-- What is met is not what is not met.
pub apart :
    (x y : Bytes) (v : List Bytes) → member x v ≡ true → member y v ≡ false → bytes_eq x y ≡ false
apart x y v hx hy = elim (Bool-cases (bytes_eq x y)) [
  | inl e ↦ absurd (cc (ap (λ z. member z v) (bytes_eq_sound x y e)))
  | inr e ↦ e
]

pub bytes_eq_swap : (x y : Bytes) → bytes_eq x y ≡ false → bytes_eq y x ≡ false
bytes_eq_swap x y h = elim (Bool-cases (bytes_eq y x)) [
  | inl e ↦ absurd (cc (h, bytes_eq_refl x, bytes_eq_sound y x e))
  | inr e ↦ e
]

pub none_of :
    (y : Bytes) (xs v : List Bytes)
    → All (λ x. member x v ≡ true) xs
    → member y v ≡ false
    → member y xs ≡ false
unfolding member
none_of y [] v h k = refl
none_of y (x ∷ xs) v (h, hs) k = ground (arith, none_of y xs v hs k, apart x y v h k)

pub not_new :
    (x : Bytes) (ys v : List Bytes)
    → member x v ≡ true
    → All (λ y. member y v ≡ false) ys
    → member x ys ≡ false
unfolding member
not_new x [] v h k = refl
not_new x (y ∷ ys) v h (k, ks) =
    ground (arith, not_new x ys v h ks, bytes_eq_swap x y (apart x y v h k))

pub Distinct-append :
    (xs ys v : List Bytes)
    → Distinct xs
    → Distinct ys
    → All (λ x. member x v ≡ true) xs
    → All (λ y. member y v ≡ false) ys
    → Distinct (xs ++ ys)
Distinct-append [] ys v dx dy hx hy = dy
Distinct-append (x ∷ xs) ys v (nx, dx) dy (h, hx) hy =
    (member-append_none x xs ys nx (not_new x ys v h hy), Distinct-append xs ys v dx dy hx hy)

pub one_more :
    (xs : List Bytes) (y : Bytes) → Distinct xs → member y xs ≡ false → Distinct (xs ++ y ∷ [])
unfolding member
one_more [] y d h = (refl, tt)
one_more (x ∷ xs) y (nx, d) h = (
  member-append_none x xs (y ∷ []) nx (ground (arith, bytes_eq_swap x y, h)),
  one_more xs y d (ground (arith, h)),
)

-- What is not among more is not among less.
pub not_behind : (y x : Bytes) (xs : List Bytes) → member y (x ∷ xs) ≡ false → member y xs ≡ false
unfolding member
not_behind y x xs h = ground (arith, h)

pub met_behind : (y x : Bytes) (xs : List Bytes) → member y xs ≡ true → member y (x ∷ xs) ≡ true
unfolding member
met_behind y x xs h = ground (arith, h)

pub met_first : (x : Bytes) (xs : List Bytes) → member x (x ∷ xs) ≡ true
unfolding member
met_first x xs = ground (arith, bytes_eq_refl x)

-- A list that ends as the image of another does.
pub map-eq-append :
    (f : Bytes → Bytes) (ids xs : List Bytes) (s : Bytes)
    → map f ids ≡ xs ++ s ∷ []
    → (init : List Bytes) × (id : Bytes) × (ids ≡ init ++ id ∷ []) × (map f init ≡ xs) × (f id ≡ s)
map-eq-append f [] [] s h = absurd (cc h)
map-eq-append f [] (x ∷ xs) s h = absurd (cc h)
map-eq-append f (id ∷ []) [] s h = ([], id, refl, refl, cc)
map-eq-append f (id ∷ j ∷ ids) [] s h = absurd (cc h)
map-eq-append f (id ∷ ids) (x ∷ xs) s h =
    let (init, last, e, e', e'') = map-eq-append f ids xs s (cc) in
    (id ∷ init, last, ap (λ l. id ∷ l) e, ground (arith, e'), e'')

pub All-init {ℓ κ} :
    {A : Type ℓ} (P : A → Type κ) (xs : List A) (x : A) → All P (xs ++ x ∷ []) → All P xs × P x
All-init P [] x (h, _) = (tt, h)
All-init P (y ∷ xs) x (h, hs) = let (rest, last) = All-init P xs x hs in ((h, rest), last)

pub member-init :
    (y x : Bytes) (xs : List Bytes) → member y (xs ++ x ∷ []) ≡ (bytes_eq x y || member y xs)
unfolding member
member-init y x [] = refl
member-init y x (z ∷ xs) = let ih = member-init y x xs in ground (arith, ih)

pub Distinct-init :
    (xs : List Bytes) (x : Bytes) → Distinct (xs ++ x ∷ []) → Distinct xs × (member x xs ≡ false)
unfolding member
Distinct-init [] x d = (tt, refl)
Distinct-init (y ∷ xs) x (n, d) =
    let (rest, unmet) = Distinct-init xs x d in
    let here : (bytes_eq x y || member y xs) ≡ false = sym (member-init y x xs) ∙ n in
    ((ground (arith, here), rest), ground (arith, here, unmet, bytes_eq_swap x y))
