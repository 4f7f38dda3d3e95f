-- ===== src/Provable/Jwt/Locked.antt =====
-- Calls of GetJWT in several goroutines that share one client: Lock, the check, fetchJWT, the two
-- stores and the deferred Unlock, as a relation between states whose steps interleave in any order.
-- The goroutines do nothing else, and no other request is sent meanwhile.
pub mod Serial
pub mod Ending
use provable_sdk.Base.{ℕ, zero, suc, ◌+◌, ◌≡◌, List, [], ◌∷◌, ◌++◌, Bool, true, false, Bytes}
use provable_sdk.Fault.{Fault}
use provable_sdk.Exec.{Result, ok, err}
use provable_sdk.Http.Env.{Env}
use provable_sdk.Json.{Json}
use provable_sdk.Security.{Primitives}
use provable_sdk.Provable.{ProvableClient, Session}
use provable_sdk.Provable.Jwt.{is_fresh, fetch_jwt, store_jwt}

-- Where a goroutine stands.
pub data Phase : Type 0 where
  waiting : Phase  -- before c.jwtMu.Lock()
  holding : Phase  -- before the check of the token
  stale : Phase  -- before c.fetchJWT(ctx)
  fetched : Result Bytes → Phase  -- behind it
  leaving : Result Bytes → Phase  -- before the deferred c.jwtMu.Unlock()
  returned : Result Bytes → Phase

-- The goroutines, what they share, and whether one of them holds jwtMu.
pub record Callers : Type 0 where
  pub session : Session
  pub held : Bool
  pub slots : List Phase

-- So many goroutines before their Lock.
abbrev pub queue : ℕ → List Phase
queue zero = []
queue (suc n) = waiting ∷ queue n

module _ (env : Env) (json : Json) (prim : Primitives) (c : ProvableClient) where
  -- A step of one goroutine; Lock waits while jwtMu is held.
  pub data Move (s : Session) (held : Bool) (p : Phase) : Session → Bool → Phase → Type 0 where
    lock : p ≡ waiting → held ≡ false → Move s held p s true holding
    hit :
        p ≡ holding → is_fresh env json prim c s ≡ true → Move s held p s held (leaving (ok s.jwt))
    miss : p ≡ holding → is_fresh env json prim c s ≡ false → Move s held p s held stale
    ask :
        p ≡ stale
        → Move s held p
            (record s { trace = (fetch_jwt env json prim c s.trace).1 })
            held
            (fetched (fetch_jwt env json prim c s.trace).0)
    fail : (e : Fault) → p ≡ fetched (err e) → Move s held p s held (leaving (err e))
    store :
        (jwt : Bytes)
        → p ≡ fetched (ok jwt)
        → Move s held p (store_jwt env json prim c jwt s).1 held (leaving (ok jwt))
    unlock : (r : Result Bytes) → p ≡ leaving r → Move s held p s false (returned r)

  pub data Step (b : Callers) : Callers → Type 0 where
    turn :
        (xs : List Phase) (p : Phase) (ys : List Phase) {s : Session} {held : Bool} {p' : Phase}
        → b.slots ≡ xs ++ p ∷ ys
        → Move b.session b.held p s held p'
        → Step b (record { session = s; held = held; slots = xs ++ p' ∷ ys })

  -- A run of so many steps of so many goroutines.
  pub data Run (s : Session) (n : ℕ) : ℕ → Callers → Type 0 where
    start : Run s n 0 (record { session = s; held = false; slots = queue n })
    later : {k : ℕ} {b b' : Callers} → Run s n k b → Step b b' → Run s n (k + 1) b'
