-- ===== src/Account/Erasure.antt =====
-- Account.Zeroize: what is left in memory.
use provable_sdk.Base.{ℕ, ◌≡◌, refl, Bool, false, ◌||◌, none, some, arith, ◌==◌, if◌then◌else◌}
use provable_sdk.Memory.{Memory, Slice, zeros, zero_bytes, zeros-zeros}
use provable_sdk.Account.{Account, zero_keys, erased, zeroize}

-- Is the slice the array at the address?
abbrev pub is_at : Slice → ℕ → Bool
is_at none p = false
is_at (some q) p = p == q

-- Is the array at the address one of the account's keys?
abbrev pub owns : Account → ℕ → Bool
owns a p =
    is_at a.private_key p || is_at a.view_key p || is_at a.compute_key p || is_at a.graph_key p

zero_bytes_cell :
    (s : Slice) (m : Memory) (p : ℕ)
    → (zero_bytes s m).cell p ≡ (if is_at s p then zeros (m.cell p) else m.cell p)
unfolding zero_bytes
zero_bytes_cell none m p = refl
zero_bytes_cell (some q) m p = ground arith

-- Zeroize leaves an account with no keys and no address. In memory, every byte of its four keys is 0,
-- also where two of them share an array, and every other array is as it was.
pub zeroize-zeros :
    (a : Account) (m : Memory)
    → ((zeroize a m).0 ≡ erased)
      × ((p : ℕ) → (zeroize a m).1.cell p ≡ (if owns a p then zeros (m.cell p) else m.cell p))
unfolding zeroize zero_keys
zeroize-zeros a m = (
  refl,
  λ p. ground (
    arith,
    zero_bytes_cell a.private_key m p,
    zero_bytes_cell a.view_key (zero_bytes a.private_key m) p,
    zero_bytes_cell a.compute_key (zero_bytes a.view_key (zero_bytes a.private_key m)) p,
    zero_bytes_cell a.graph_key
        (zero_bytes a.compute_key (zero_bytes a.view_key (zero_bytes a.private_key m))) p,
    zeros-zeros (m.cell p),
  ),
)
