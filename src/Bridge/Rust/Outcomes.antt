-- ===== src/Bridge/Rust/Outcomes.antt =====
-- How the outcome of a do block of the Rust library is taken apart.
use mathlib.Core.Path.{subst}
use provable_sdk.Base.{◌≢◌, ◌≡◌, refl, ap, ◌⊎◌, inl, inr, Bytes, some, true}
use provable_sdk.Bridge.Rust.Pointer.{argument, is_utf8, argument-cases}
use provable_sdk.Bridge.Rust.{Outcome, done, failed, panicked, ◌>>=◌, map_err}

module _ {A B : Type 0} where
  pub >>=-eq-done :
      (m : Outcome A) (f : A → Outcome B) {b : B}
      → (m >>= f) ≡ done b
      → (a : A) × (m ≡ done a) × (f a ≡ done b)
  >>=-eq-done (done a) f h = (a, refl, h)
  >>=-eq-done (failed e) f h = cc
  >>=-eq-done panicked f h = cc

  pub >>=-eq-failed :
      (m : Outcome A) (f : A → Outcome B) {e : Bytes}
      → (m >>= f) ≡ failed e
      → (m ≡ failed e) ⊎ ((a : A) × (m ≡ done a) × (f a ≡ failed e))
  >>=-eq-failed (done a) f h = inr (a, refl, h)
  >>=-eq-failed (failed x) f h = inl (cc)
  >>=-eq-failed panicked f h = cc

module _ {A : Type 0} where
  pub done_inj : {a b : A} → done a ≡ done b → a ≡ b
  done_inj {a} h = ap (λ (r : Outcome A). elim r [ done x ↦ x | failed e ↦ a | panicked ↦ a ]) h

  pub map_err-eq-done :
      (f : Bytes → Bytes) (m : Outcome A) {a : A} → map_err f m ≡ done a → m ≡ done a
  map_err-eq-done f (done a) h = h
  map_err-eq-done f (failed e) h = cc
  map_err-eq-done f panicked h = cc

  pub map_err-eq-failed :
      (f : Bytes → Bytes) (m : Outcome A) {e : Bytes}
      → map_err f m ≡ failed e
      → (x : Bytes) × (m ≡ failed x) × (e ≡ f x)
  map_err-eq-failed f (done a) h = cc
  map_err-eq-failed f (failed x) h = (x, refl, cc)
  map_err-eq-failed f panicked h = cc

failed-ne-done : {B : Type 0} (e : Bytes) (b : B) → failed e ≢ done b
failed-ne-done e b h = cc

module _ {A B C : Type 0} where
  -- The same with what follows from it, so that long blocks are taken apart over variables.
  pub on_done :
      (m : Outcome A) (f : A → Outcome B) {b : B}
      → (m >>= f) ≡ done b
      → ((a : A) → m ≡ done a → f a ≡ done b → C)
      → C
  on_done (done a) f h next = next a refl h
  on_done (failed e) f h next = absurd (cc h)
  on_done panicked f h next = absurd (cc h)

  pub on_mapped :
      (g : Bytes → Bytes) (m : Outcome A) (f : A → Outcome B) {b : B}
      → (map_err g m >>= f) ≡ done b
      → ((a : A) → m ≡ done a → f a ≡ done b → C)
      → C
  on_mapped g (done a) f h next = next a refl h
  on_mapped g (failed e) f h next = absurd (cc h)
  on_mapped g panicked f h next = absurd (cc h)

-- A pointer to a text.
pub on_argument :
    {B C : Type 0} (message s : Bytes) (f : Bytes → Outcome B) {b : B}
    → (argument message (some s) >>= f) ≡ done b
    → (is_utf8 s ≡ true → f s ≡ done b → C)
    → C
on_argument message s f {b} h next = elim (argument-cases message s) [
  | inl (e, read) ↦ next e (subst (λ m. (m >>= f) ≡ done b) read h)
  | inr (e, read) ↦ absurd (failed-ne-done message b (subst (λ m. (m >>= f) ≡ done b) read h))
]
