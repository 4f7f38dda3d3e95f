-- ===== src/Manager/Batch/Invariant.antt =====
-- What holds of an ExecuteBatch while it runs: what the semaphore and the WaitGroup count, and how many
-- steps are left.
use provable_sdk.Base.{ℕ, ◌+◌, ◌*◌, ◌≤◌, ◌≡◌, List, [], ◌∷◌, ◌++◌, arith, map, length, Bytes, All}
use provable_sdk.Exec.{Result}
use provable_sdk.Manager.Batch.{
  ExecuteRequest, ExecuteResult, Phase, starting, executing, stored, released, finished, Slot,
  Batch, max_batch_concurrency, result_of,
}

-- The sum of a weight over the goroutines.
abbrev pub total : (Slot → ℕ) → List Slot → ℕ
total w [] = 0
total w (y ∷ ys) = w y + total w ys

pub total-append : (w : Slot → ℕ) (xs ys : List Slot) → total w (xs ++ ys) ≡ total w xs + total w ys
total-append w [] ys = omega arith
total-append w (x ∷ xs) ys = omega (arith, total-append w xs ys)

-- A goroutine has a token of the semaphore from its send to its receive.
abbrev pub token : Phase → ℕ
token starting = 0
token executing = 1
token stored = 1
token released = 0
token finished = 0

-- The WaitGroup counts a goroutine until it is done.
abbrev pub waits : Phase → ℕ
waits starting = 1
waits executing = 1
waits stored = 1
waits released = 1
waits finished = 0

-- The steps left to a goroutine.
abbrev pub left : Phase → ℕ
left starting = 4
left executing = 3
left stored = 2
left released = 1
left finished = 0

abbrev pub holds : Slot → ℕ
holds y = token y.phase

abbrev pub lives : Slot → ℕ
lives y = waits y.phase

abbrev pub steps : Slot → ℕ
steps y = left y.phase

-- The steps left to all, with the five of a goroutine that is not started.
abbrev pub measure : Batch → ℕ
measure b = 5 * length b.pending + total steps b.slots

module _ (Returns : ExecuteRequest → Result Bytes → Type 0) where
  -- A result is what Execute returned for the request.
  unfoldable pub IsAnswer : ExecuteRequest → ExecuteResult → Type 0
  IsAnswer r x = (o : Result Bytes) × Returns r o × (x ≡ result_of o)

  -- From the store on, the goroutine's element of `results` is an answer to its request.
  abbrev pub IsRight : Phase → ExecuteRequest → ExecuteResult → Type 0
  IsRight starting r x = Unit
  IsRight executing r x = Unit
  IsRight stored r x = IsAnswer r x
  IsRight released r x = IsAnswer r x
  IsRight finished r x = IsAnswer r x

  abbrev pub Settled : Slot → Type 0
  Settled y = IsRight y.phase y.request y.result

  pub record Inv (requests : List ExecuteRequest) (b : Batch) : Type 0 where
    pub capacity : b.sem ≤ max_batch_concurrency
    pub tokens : b.sem ≡ total holds b.slots
    pub counted : b.wg ≡ total lives b.slots
    pub kept : map Slot.request b.slots ++ b.pending ≡ requests
    pub settled : All Settled b.slots
