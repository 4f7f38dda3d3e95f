-- ===== src/Memory.antt =====
-- Byte slices that share memory. A slice here is a whole backing array, named by its address; a nil
-- slice is `none`. Addresses below `next` are in use.
use provable_sdk.Base.{
  ℕ, suc, ◌≡◌, refl, ap, Option, none, some, [], ◌∷◌, Bytes, arith, length, ◌==◌, if◌then◌else◌,
}

pub record Memory : Type 0 where
  pub next : ℕ
  pub cell : ℕ → Bytes

abbrev pub Slice : Type 0
Slice = Option ℕ

abbrev pub write : Memory → ℕ → Bytes → Memory
write m p b = record m { cell = λ q. if q == p then b else m.cell q }

-- []byte(s): a new array
abbrev pub alloc : Bytes → Memory → ℕ × Memory
alloc b m = (m.next, record { next = suc m.next; cell = λ q. if q == m.next then b else m.cell q })

-- string(s): a copy
unfoldable pub read : Memory → Slice → Bytes
read m none = []
read m (some p) = m.cell p

-- for i := range b { b[i] = 0 }
unfoldable pub zeros : Bytes → Bytes
zeros [] = []
zeros (c ∷ s) = 0 ∷ zeros s

unfoldable pub zero_bytes : Slice → Memory → Memory
unfolding zeros
zero_bytes none m = m
zero_bytes (some p) m = write m p (zeros (m.cell p))

pub zeros-zeros : (s : Bytes) → zeros (zeros s) ≡ zeros s
unfolding zeros
zeros-zeros [] = refl
zeros-zeros (c ∷ s) = ap (λ r. 0 ∷ r) (zeros-zeros s)

length-zeros : (s : Bytes) → length (zeros s) ≡ length s
unfolding zeros
length-zeros [] = refl
length-zeros (c ∷ s) = omega (arith, length-zeros s)
