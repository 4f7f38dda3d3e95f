-- ===== src/Manager/Batch.antt =====
-- ExecuteBatch of program_manager.go: a goroutine for each request, a semaphore and a WaitGroup, as a
-- relation between states whose steps interleave in any order.
pub mod Invariant
pub mod Moves
pub mod Results
pub mod Return
pub mod Executed
use provable_sdk.Base.{ℕ, ◌+◌, ◌-◌, ◌<◌, ◌≡◌, List, [], ◌∷◌, ◌++◌, Option, none, some, Bytes, map}
use provable_sdk.Fault.{Fault}
use provable_sdk.Exec.{Result, ok, err}
use provable_sdk.Manager.Execute.{ExecuteOption}

abbrev max_batch_concurrency : ℕ
max_batch_concurrency = 8

pub record ExecuteRequest : Type 0 where
  pub program_name : Bytes
  pub function_name : Bytes
  pub options : List ExecuteOption

-- A nil error is `none`.
pub record ExecuteResult : Type 0 where
  pub tx_id : Bytes
  pub error : Option Fault

abbrev zero_result : ExecuteResult
zero_result = record { tx_id = []; error = none }

-- ExecuteResult{TxID: txID, Error: err}; Execute returns no ID beside an error
unfoldable pub result_of : Result Bytes → ExecuteResult
result_of (ok id) = record { tx_id = id; error = none }
result_of (err e) = record { tx_id = []; error = some e }

-- Where a goroutine stands.
pub data Phase : Type 0 where
  starting : Phase  -- before sem <- struct{}{}
  executing : Phase  -- in Execute
  stored : Phase  -- before the deferred <-sem
  released : Phase  -- before the deferred wg.Done()
  finished : Phase

-- A goroutine, with its arguments and the element of `results` that it alone writes.
pub record Slot : Type 0 where
  pub request : ExecuteRequest
  pub phase : Phase
  pub result : ExecuteResult

-- A step of one goroutine from the values of the semaphore and the WaitGroup: a send on a full channel
-- and a receive from an empty one wait. `Returns` is what Execute may return for a request, whatever
-- the other goroutines do meanwhile.
pub data Move (Returns : ExecuteRequest → Result Bytes → Type 0) (sem wg : ℕ) (y : Slot)
    : ℕ → ℕ → Slot → Type 0 where
  acquire :
      y.phase ≡ starting
      → sem < max_batch_concurrency
      → Move Returns sem wg y (sem + 1) wg (record y { phase = executing })
  store :
      (o : Result Bytes)
      → y.phase ≡ executing
      → Returns y.request o
      → Move Returns sem wg y sem wg (record y { phase = stored; result = result_of o })
  release :
      y.phase ≡ stored
      → 0 < sem
      → Move Returns sem wg y (sem - 1) wg (record y { phase = released })
  done :
      y.phase ≡ released
      → 0 < wg
      → Move Returns sem wg y sem (wg - 1) (record y { phase = finished })

-- The requests that the loop has not reached, the goroutines it has started, the tokens in `sem`, and
-- the counter of `wg`.
pub record Batch : Type 0 where
  pub pending : List ExecuteRequest
  pub slots : List Slot
  pub sem : ℕ
  pub wg : ℕ

abbrev pub started : ExecuteRequest → Slot
started r = record { request = r; phase = starting; result = zero_result }

pub data Step (Returns : ExecuteRequest → Result Bytes → Type 0) (b : Batch) : Batch → Type 0 where
  -- wg.Add(1), and the `go` statement
  spawn :
      (r : ExecuteRequest) (rs : List ExecuteRequest)
      → b.pending ≡ r ∷ rs
      → Step Returns b
          (record b { pending = rs; slots = b.slots ++ (started r ∷ []); wg = b.wg + 1 })
  turn :
      (xs : List Slot) (y : Slot) (ys : List Slot) {sem wg : ℕ} {y' : Slot}
      → b.slots ≡ xs ++ y ∷ ys
      → Move Returns b.sem b.wg y sem wg y'
      → Step Returns b (record b { slots = xs ++ y' ∷ ys; sem = sem; wg = wg })

abbrev pub init : List ExecuteRequest → Batch
init requests = record { pending = requests; slots = []; sem = 0; wg = 0 }

-- A run of so many steps.
pub data Run (Returns : ExecuteRequest → Result Bytes → Type 0) (requests : List ExecuteRequest)
    : ℕ → Batch → Type 0 where
  start : Run Returns requests 0 (init requests)
  later :
      {k : ℕ} {b b' : Batch}
      → Run Returns requests k b
      → Step Returns b b'
      → Run Returns requests (k + 1) b'

-- wg.Wait() has returned, after the loop, and so has ExecuteBatch.
pub data Returned (b : Batch) : List ExecuteResult → Type 0 where
  waited : b.pending ≡ [] → b.wg ≡ 0 → Returned b (map Slot.result b.slots)
