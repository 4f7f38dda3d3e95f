-- ===== src/Account/Created.antt =====
-- The accounts that AccountFromPrivateKey makes, and the arrays in which their keys stand.
use mathlib.Core.Path.{subst}
use provable_sdk.Base.{
  ℕ, ◌≤◌, ◌<◌, ◌≡◌, refl, false, Option, none, some, Bytes, arith, Bool-cases, inl, inr,
}
use provable_sdk.Text.{is_empty}
use provable_sdk.Exec.{Result, Result-cases, ok, err}
use provable_sdk.Json.{Json}
use provable_sdk.Types.{DerivedKeys}
use provable_sdk.Bridge.{Library, derive_all_keys}
use provable_sdk.Memory.{Memory, Slice, read}
use provable_sdk.Account.{
  Account, private_key, alloc_raw, new_account_of, account_from_sk, account_from_private_key,
  zeroize,
}
use provable_sdk.Account.Erasure.{is_at, zeroize-zeros}

-- The slice is in use, or is new, with respect to a memory.
abbrev pub Below : Memory → Slice → Type 0
Below m none = Unit
Below m (some p) = p < m.next

abbrev Above : Memory → Slice → Type 0
Above m none = Unit
Above m (some p) = m.next ≤ p

-- A memory with more arrays in it, the old ones as they were.
pub record Extends (m m' : Memory) : Type 0 where
  pub larger : m.next ≤ m'.next
  pub same : (p : ℕ) → p < m.next → m'.cell p ≡ m.cell p

-- What the making of an account from a private key leaves.
pub record IsCreated (sk : Bytes) (m : Memory) (a : Account) (m' : Memory) : Type 0 where
  pub extends : Extends m m'
  pub holds : private_key m' a ≡ sk
  pub new_private : Above m a.private_key
  pub new_view : Above m a.view_key
  pub new_compute : Above m a.compute_key
  pub new_graph : Above m a.graph_key

alloc_raw-Extends :
    (o : Option Bytes) (m : Memory) → Extends m (alloc_raw o m).1 × Above m (alloc_raw o m).0
unfolding alloc_raw
alloc_raw-Extends none m = (record { larger = omega arith; same = λ p h. refl }, tt)
alloc_raw-Extends (some b) m =
    (record { larger = omega arith; same = λ p h. ground arith }, omega arith)

abbrev Makes : Bytes → Memory → Result Account × Memory → Type 0
Makes sk m (ok a, m') = IsCreated sk m a m'
Makes sk m (err e, m') = m' ≡ m

new_account_of-Makes :
    (sk : Bytes) (keys : DerivedKeys) (m : Memory) → Makes sk m (new_account_of sk keys m)
unfolding new_account_of private_key read
new_account_of-Makes sk keys m =
    let (ext, above) = alloc_raw-Extends keys.compute_key m in
    record {
      extends = record {
        larger = omega (arith, ext.larger);
        same = λ p h. ground (arith, ext.larger, ext.same p h);
      };
      holds = ground arith;
      new_private = ext.larger;
      new_view = omega (arith, ext.larger);
      new_compute = above;
      new_graph = omega (arith, ext.larger);
    }

module _ (lib : Library) (json : Json) where
  account_from_sk-Makes : (sk : Bytes) (m : Memory) → Makes sk m (account_from_sk lib json sk m)
  unfolding account_from_sk
  account_from_sk-Makes sk m = elim (Result-cases (derive_all_keys lib json sk)) [
    | inr (x, e) ↦ rw e refl
    | inl (text, e) ↦ rw e (elim (Result-cases (json.derived_keys text)) [
      | inr (x, f) ↦ rw f refl
      | inl (keys, f) ↦ rw f (new_account_of-Makes sk keys m)
    ])
  ]

  account_from_private_key-Makes :
      (sk : Bytes) (m : Memory) → Makes sk m (account_from_private_key lib json sk m)
  unfolding account_from_private_key
  account_from_private_key-Makes sk m = elim (Bool-cases (is_empty sk)) [
    | inl e ↦ rw e refl
    | inr e ↦ rw e (account_from_sk-Makes sk m)
  ]

  -- If AccountFromPrivateKey makes an account, then the account holds that private key, its keys stand
  -- in new arrays, and all other arrays are as they were.
  pub account_from_private_key-IsCreated :
      (sk : Bytes) (m : Memory) {a : Account} {m' : Memory}
      → account_from_private_key lib json sk m ≡ (ok a, m')
      → IsCreated sk m a m'
  account_from_private_key-IsCreated sk m e =
      subst (Makes sk m) e (account_from_private_key-Makes sk m)

  not_at : (m : Memory) (s : Slice) (p : ℕ) → Above m s → p < m.next → is_at s p ≡ false
  not_at m none p h lt = refl
  not_at m (some q) p h lt = ground arith

  read_same :
      (m m' : Memory) (s : Slice)
      → Below m s
      → ((p : ℕ) → p < m.next → m'.cell p ≡ m.cell p)
      → read m' s ≡ read m s
  unfolding read
  read_same m m' none h same = refl
  read_same m m' (some p) h same = same p h

  -- When an account that AccountFromPrivateKey has made is erased, every slice that was in use before
  -- it was made reads as it did then.
  pub zeroize-separate :
      (sk : Bytes) (m : Memory) (s : Slice) {a : Account} {m' : Memory}
      → account_from_private_key lib json sk m ≡ (ok a, m')
      → Below m s
      → read (zeroize a m').1 s ≡ read m s
  zeroize-separate sk m s {a} {m'} e below =
      let made = account_from_private_key-IsCreated sk m e in
      read_same m (zeroize a m').1 s below (λ p lt. ground (
        arith,
        (zeroize-zeros a m').1 p,
        made.extends.same p lt,
        not_at m a.private_key p made.new_private lt,
        not_at m a.view_key p made.new_view lt,
        not_at m a.compute_key p made.new_compute lt,
        not_at m a.graph_key p made.new_graph lt,
      ))
