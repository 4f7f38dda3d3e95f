-- ===== src/Imports/Sorted.antt =====
-- What it means that sources are in dependency order, and the membership that it is stated with.
use provable_sdk.Base.{
  ℕ, ◌<◌, ◌≡◌, ◌≢◌, ◌⊎◌, inl, inr, Bool-cases, true, false, Option, none, some, List, [], ◌∷◌, ◌++◌,
  Bytes, arith, All,
}
use provable_sdk.Text.{bytes_eq, bytes_eq_sound, bytes_eq_refl}
use provable_sdk.Imports.{member, credits, import_of, lines}

pub member-append :
    (s x : Bytes) (xs : List Bytes) → member s xs ≡ true → member s (xs ++ x ∷ []) ≡ true
unfolding member
member-append s x [] h = absurd (cc h)
member-append s x (y ∷ xs) h = elim (Bool-cases (bytes_eq y s)) [
  | inl e ↦ ground (arith, e)
  | inr e ↦ let rest = member-append s x xs (ground (arith, h, e)) in ground (arith, e, rest)
]

pub nowhere : (id : Bytes) → member id [] ≢ true
unfolding member
nowhere id m = absurd (cc m)

pub member_last : (x : Bytes) (xs : List Bytes) → member x (xs ++ x ∷ []) ≡ true
unfolding member
member_last x [] = ground (arith, bytes_eq_refl x)
member_last x (y ∷ xs) = elim (Bool-cases (bytes_eq y x)) [
  | inl e ↦ ground (arith, e)
  | inr e ↦ ground (arith, e, member_last x xs)
]

pub member_cases :
    (id x : Bytes) (xs : List Bytes) → member id (x ∷ xs) ≡ true → (x ≡ id) ⊎ (member id xs ≡ true)
unfolding member
member_cases id x xs h = elim (Bool-cases (bytes_eq x id)) [
  | inl e ↦ inl (bytes_eq_sound x id e)
  | inr e ↦ inr (ground (arith, e, h))
]

module _ (src : Bytes → Bytes) where
  -- The source of an import is among some sources; the built-in program needs none.
  abbrev pub Present : List Bytes → Option Bytes → Type 0
  Present xs none = Unit
  Present xs (some id) = bytes_eq id credits ≡ false → member (src id) xs ≡ true

  abbrev pub Resolved : List Bytes → Bytes → Type 0
  Resolved xs line = Present xs (import_of line)

  -- Every source in the list stands behind the sources of its imports.
  pub data IsSorted : List Bytes → Type 0 where
    nothing : IsSorted []
    behind :
        {xs : List Bytes} (s : Bytes)
        → IsSorted xs
        → All (Resolved xs) (lines s)
        → IsSorted (xs ++ s ∷ [])

  -- The imports of a source have a smaller rank than some bound.
  abbrev pub Below : (Bytes → ℕ) → ℕ → Option Bytes → Type 0
  Below rank k none = Unit
  Below rank k (some id) = bytes_eq id credits ≡ false → rank id < k

  abbrev pub IsBelow : (Bytes → ℕ) → ℕ → Bytes → Type 0
  IsBelow rank k source = All (λ line. Below rank k (import_of line)) (lines source)

  pub Present-weaken :
      (xs ys : List Bytes) (o : Option Bytes)
      → ((s : Bytes) → member s xs ≡ true → member s ys ≡ true)
      → Present xs o
      → Present ys o
  Present-weaken xs ys none g h = tt
  Present-weaken xs ys (some id) g h = λ e. g (src id) (h e)
