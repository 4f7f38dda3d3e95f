-- ===== src/Exec.antt =====
-- Go functions that return `(value, error)` and change a state: what was changed before an error
-- stays changed. A nil error is `ok`; the value beside an error is not looked at.
use provable_sdk.Base.{◌≡◌, ap, refl, ◌⊎◌, inl, inr, Option, none, some}
use provable_sdk.Fault.{Fault}

pub data Result {ℓ} (A : Type ℓ) : Type ℓ where
  ok : A → Result A
  err : Fault → Result A

pub Result-cases {ℓ} :
    {A : Type ℓ} (r : Result A) → ((a : A) × (r ≡ ok a)) ⊎ ((e : Fault) × (r ≡ err e))
Result-cases (ok a) = inl (a, refl)
Result-cases (err e) = inr (e, refl)

pub ok_inj : {A : Type 0} {a b : A} → ok a ≡ ok b → a ≡ b
ok_inj {A} {a} h = ap (λ (r : Result A). elim r [ ok x ↦ x | err e ↦ a ]) h

abbrev pub map_fault {ℓ} : {A : Type ℓ} → (Fault → Fault) → Result A → Result A
map_fault f (ok a) = ok a
map_fault f (err e) = err (f e)

abbrev pub Exec {ℓ} : Type ℓ → Type ℓ → Type ℓ
Exec S A = S → Result A × S

module _ {ℓ} {S A : Type ℓ} where
  abbrev pub pure : A → Exec S A
  pure a s = (ok a, s)

  abbrev pub raise : Fault → Exec S A
  raise e s = (err e, s)

  abbrev pub lift : Result A → Exec S A
  lift r s = (r, s)

  -- `if err != nil { return …, f(err) }` behind a call
  abbrev pub on_fault : (Fault → Fault) → Exec S A → Exec S A
  on_fault f m s = let (r, s') = m s in (map_fault f r, s')

  abbrev pub or_raise : Option Fault → A → Exec S A
  or_raise none a = pure a
  or_raise (some e) a = raise e

module _ {ℓ} {S A B : Type ℓ} where
  abbrev pub continue : Result A → (A → Exec S B) → Exec S B
  continue (ok a) f s = f a s
  continue (err e) f s = (err e, s)

  infixl 5 ◌>>=◌
  abbrev pub ◌>>=◌ : Exec S A → (A → Exec S B) → Exec S B
  ◌>>=◌ m f s = let (r, s') = m s in continue r f s'

-- Running an action over a part of a larger state.
abbrev pub zoom {ℓ} : {S T A : Type ℓ} → (T → S) → (T → S → T) → Exec S A → Exec T A
zoom get put m t = let (r, s) = m (get t) in (r, put t s)
