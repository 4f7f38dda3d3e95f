-- ===== src/Partial.antt =====
-- Actions on fuel: Go functions with an error that may also run for ever. `none` says that the fuel
-- ran out.
use provable_sdk.Base.{◌≡◌, refl, ap, Option, none, some}
use provable_sdk.Fault.{Fault}
use provable_sdk.Exec.{Result, ok, err, Exec}

abbrev pub Partial : Type 0 → Type 0 → Type 0
Partial S A = S → Option (Result A) × S

module _ {S : Type 0} where
  abbrev pub total : {A : Type 0} → Exec S A → Partial S A
  total m s = let (r, s') = m s in (some r, s')

  abbrev pub out_of_fuel : {A : Type 0} → Partial S A
  out_of_fuel s = (none, s)

  -- What follows an action, by its outcome.
  abbrev pub proceed :
      {A B : Type 0} → (A → Partial S B) → Option (Result A) × S → Option (Result B) × S
  proceed f (some (ok a), s) = f a s
  proceed f (some (err e), s) = (some (err e), s)
  proceed f (none, s) = (none, s)

  infixl 5 ◌>>=◌
  abbrev pub ◌>>=◌ : {A B : Type 0} → Partial S A → (A → Partial S B) → Partial S B
  ◌>>=◌ m f s = proceed f (m s)

  abbrev pub blame : {A : Type 0} → (Fault → Fault) → Option (Result A) × S → Option (Result A) × S
  blame g (some (ok a), s) = (some (ok a), s)
  blame g (some (err e), s) = (some (err (g e)), s)
  blame g (none, s) = (none, s)

  abbrev pub on_fault : {A : Type 0} → (Fault → Fault) → Partial S A → Partial S A
  on_fault g m s = blame g (m s)

module _ {S A B : Type 0} where
  proceed-eq-ok :
      (x : Option (Result A) × S) (f : A → Partial S B) {b : B} {u : S}
      → proceed f x ≡ (some (ok b), u)
      → (a : A) × (t : S) × (x ≡ (some (ok a), t)) × (f a t ≡ (some (ok b), u))
  proceed-eq-ok (some (ok a), s) f h = (a, s, refl, h)
  proceed-eq-ok (some (err e), s) f h = absurd (cc (ap (λ (p : Option (Result B) × S). p.0) h))
  proceed-eq-ok (none, s) f h = absurd (cc (ap (λ (p : Option (Result B) × S). p.0) h))

  -- A block that gives a value has had one from its first step, and then from the rest.
  pub >>=-eq-ok :
      (m : Partial S A) (f : A → Partial S B) (s : S) {b : B} {u : S}
      → (m >>= f) s ≡ (some (ok b), u)
      → (a : A) × (t : S) × (m s ≡ (some (ok a), t)) × (f a t ≡ (some (ok b), u))
  >>=-eq-ok m f s h = proceed-eq-ok (m s) f h

blame-eq-ok :
    {S A : Type 0} (g : Fault → Fault) (x : Option (Result A) × S) {a : A} {u : S}
    → blame g x ≡ (some (ok a), u)
    → x ≡ (some (ok a), u)
blame-eq-ok g (some (ok a), s) h = h
blame-eq-ok {S} {A} g (some (err e), s) h = absurd (cc (ap (λ (p : Option (Result A) × S). p.0) h))
blame-eq-ok {S} {A} g (none, s) h = absurd (cc (ap (λ (p : Option (Result A) × S). p.0) h))

pub on_fault-eq-ok :
    {S A : Type 0} (g : Fault → Fault) (m : Partial S A) (s : S) {a : A} {u : S}
    → on_fault g m s ≡ (some (ok a), u)
    → m s ≡ (some (ok a), u)
on_fault-eq-ok g m s h = blame-eq-ok g (m s) h
