-- ===== src/Provable/Jwt/Locked/Ending.antt =====
-- The goroutines in GetJWT all come to an end.
use mathlib.Core.List.{Perm}
use mathlib.Core.Path.{subst}
use provable_sdk.Base.{
  ℕ, zero, suc, ◌+◌, ◌*◌, ◌≤◌, ◌≡◌, ◌⊎◌, inl, inr, refl, ap, List, [], ◌∷◌, ◌++◌, Bool, true, false,
  Bool-cases, Bytes, arith, length, map,
}
use provable_sdk.Exec.{Result, ok, err}
use provable_sdk.Http.Env.{Env}
use provable_sdk.Json.{Json}
use provable_sdk.Security.{Primitives}
use provable_sdk.Provable.{ProvableClient, Session}
use provable_sdk.Provable.Jwt.{is_fresh}
use provable_sdk.Provable.Jwt.Locked.{
  Phase, waiting, holding, stale, fetched, leaving, returned, Callers, queue, Move, lock, hit, miss,
  ask, fail, store, unlock, Step, turn, Run, start, later,
}
use provable_sdk.Provable.Jwt.Locked.Serial.{
  active, flag, total, answers, Serial, Run-counted, Run-Serial,
}

-- At most so many steps are left to a goroutine.
abbrev left : Phase → ℕ
left waiting = 5
left holding = 4
left stale = 3
left (fetched r) = 2
left (leaving r) = 1
left (returned r) = 0

abbrev todo : List Phase → ℕ
todo [] = 0
todo (p ∷ ps) = left p + todo ps

todo-append : (xs ys : List Phase) → todo (xs ++ ys) ≡ todo xs + todo ys
todo-append [] ys = omega arith
todo-append (x ∷ xs) ys = omega (arith, todo-append xs ys)

length-replace :
    (xs : List Phase) (p p' : Phase) (ys : List Phase)
    → length (xs ++ p' ∷ ys) ≡ length (xs ++ p ∷ ys)
length-replace [] p p' ys = refl
length-replace (x ∷ xs) p p' ys = ap suc (length-replace xs p p' ys)

queue-todo : (n : ℕ) → todo (queue n) ≡ 5 * n
queue-todo zero = refl
queue-todo (suc n) = omega (arith, queue-todo n)

length-queue : (n : ℕ) → length (queue n) ≡ n
length-queue zero = refl
length-queue (suc n) = omega (arith, length-queue n)

-- A goroutine with its place among the others.
record At (slots : List Phase) : Type 0 where
  before : List Phase
  slot : Phase
  after : List Phase
  is_at : slots ≡ before ++ slot ∷ after

abbrev here : (p : Phase) (ps : List Phase) → At (p ∷ ps)
here p ps = record { before = []; slot = p; after = ps; is_at = refl }

abbrev further : (p : Phase) {ps : List Phase} → At ps → At (p ∷ ps)
further p a = record {
  before = p ∷ a.before;
  slot = a.slot;
  after = a.after;
  is_at = ap (λ qs. p ∷ qs) a.is_at;
}

-- A goroutine between its Lock and its Unlock; or one before its Lock, and none between; or all have
-- returned.
data Scan (slots : List Phase) : Type 0 where
  running : (a : At slots) → active a.slot ≡ 1 → Scan slots
  queued : (a : At slots) → a.slot ≡ waiting → total slots ≡ 0 → Scan slots
  over : (rs : List (Result Bytes)) → slots ≡ map returned rs → total slots ≡ 0 → Scan slots

Scan-waiting : {ps : List Phase} → Scan ps → Scan (waiting ∷ ps)
Scan-waiting (running a h) = running (further waiting a) h
Scan-waiting {ps} (queued a h e) = queued (here waiting ps) refl (omega (arith, e))
Scan-waiting {ps} (over rs h e) = queued (here waiting ps) refl (omega (arith, e))

Scan-returned : (r : Result Bytes) {ps : List Phase} → Scan ps → Scan (returned r ∷ ps)
Scan-returned r (running a h) = running (further (returned r) a) h
Scan-returned r (queued a h e) = queued (further (returned r) a) h (omega (arith, e))
Scan-returned r (over rs h e) = over (r ∷ rs) (ap (λ ps. returned r ∷ ps) h) (omega (arith, e))

scan : (ps : List Phase) → Scan ps
scan [] = over [] refl refl
scan (waiting ∷ ps) = Scan-waiting (scan ps)
scan (holding ∷ ps) = running (here holding ps) refl
scan (stale ∷ ps) = running (here stale ps) refl
scan (fetched r ∷ ps) = running (here (fetched r) ps) refl
scan (leaving r ∷ ps) = running (here (leaving r) ps) refl
scan (returned r ∷ ps) = Scan-returned r (scan ps)

answers-returned : (rs : List (Result Bytes)) → answers (map returned rs) ≡ rs
answers-returned [] = refl
answers-returned (r ∷ rs) = ap (λ os. r ∷ os) (answers-returned rs)

length-returned : (rs : List (Result Bytes)) → length (map returned rs) ≡ length rs
length-returned [] = refl
length-returned (r ∷ rs) = ap suc (length-returned rs)

held_off : (held : Bool) → flag held ≡ 0 → held ≡ false
held_off true h = absurd (omega (arith, h))
held_off false h = refl

module _ (env : Env) (json : Json) (prim : Primitives) (c : ProvableClient) where
  Move-left :
      {s s' : Session} {held held' : Bool} {p p' : Phase}
      → Move env json prim c s held p s' held' p'
      → left p' + 1 ≤ left p
  Move-left (lock h e) = omega (arith, ap left h)
  Move-left (hit h e) = omega (arith, ap left h)
  Move-left (miss h e) = omega (arith, ap left h)
  Move-left (ask h) = omega (arith, ap left h)
  Move-left (fail e h) = omega (arith, ap left h)
  Move-left (store jwt h) = omega (arith, ap left h)
  Move-left (unlock r h) = omega (arith, ap left h)

  Run-todo :
      {s : Session} {n k : ℕ} {b : Callers}
      → Run env json prim c s n k b
      → (k + todo b.slots ≤ 5 * n) × (length b.slots ≡ n)
  Run-todo {n = n} start = (omega (arith, queue-todo n), length-queue n)
  Run-todo (later run (turn xs p ys {p' = p'} e mv)) =
      let (le, len) = Run-todo run in
      (
        omega
            (arith, le, ap todo e, Move-left mv, todo-append xs (p ∷ ys), todo-append xs (p' ∷ ys)),
        omega (arith, len, ap length e, length-replace xs p p' ys),
      )

  -- the step of an active goroutine
  active_moves :
      (s : Session) (held : Bool) (p : Phase)
      → active p ≡ 1
      → (s' : Session) × (held' : Bool) × (p' : Phase) × Move env json prim c s held p s' held' p'
  active_moves s held waiting h = absurd (omega (arith, h))
  active_moves s held holding h = elim (Bool-cases (is_fresh env json prim c s)) [
    | inl e ↦ (_, _, _, hit refl e)
    | inr e ↦ (_, _, _, miss refl e)
  ]
  active_moves s held stale h = (_, _, _, ask refl)
  active_moves s held (fetched (ok jwt)) h = (_, _, _, store jwt refl)
  active_moves s held (fetched (err e)) h = (_, _, _, fail e refl)
  active_moves s held (leaving r) h = (_, _, _, unlock r refl)
  active_moves s held (returned r) h = absurd (omega (arith, h))

  -- All goroutines have returned, with the results of calls of get_jwt one after the other.
  abbrev pub AllReturned : Session → ℕ → Callers → Type 0
  AllReturned s n b =
      (os : List (Result Bytes)) × (rs : List (Result Bytes)) × (b.slots ≡ map returned os)
      × (length os ≡ n)
      × Serial env json prim c s rs b.session
      × Perm os rs

  ends :
      {s : Session} {n k : ℕ} {b : Callers}
      → Run env json prim c s n k b
      → Scan b.slots
      → ((b' : Callers) × Step env json prim c b b') ⊎ AllReturned s n b
  ends {b = b} run (running a h) =
      let (_, _, _, mv) = active_moves b.session b.held a.slot h in
      inl (_, turn a.before a.slot a.after a.is_at mv)
  ends {b = b} run (queued a h e) = inl (
    _,
    turn a.before a.slot a.after a.is_at
        (lock h (held_off b.held (omega (arith, e, Run-counted env json prim c run)))),
  )
  ends {s} {n} {b = b} run (over os h e) =
      let (rs, ser, perm) =
        Run-Serial env json prim c s n run
          (held_off b.held (omega (arith, e, Run-counted env json prim c run))) in
      inr (
        os,
        rs,
        h,
        omega (arith, ap length h, length-returned os, (Run-todo run).1),
        ser,
        subst (λ xs. Perm xs rs) (answers-returned os) (subst (λ ps. Perm (answers ps) rs) h perm),
      )

  -- However the steps of n goroutines that call GetJWT on one client interleave, there are at most 5 * n
  -- of them, and none is stuck: a state has a further step, or all n goroutines have returned, and then
  -- the token, its expiry, the requests sent and, up to their order, the results are those of n calls of
  -- GetJWT one after the other.
  pub Run-Ends :
      (s : Session) (n : ℕ) {k : ℕ} {b : Callers}
      → Run env json prim c s n k b
      → (k ≤ 5 * n) × (((b' : Callers) × Step env json prim c b b') ⊎ AllReturned s n b)
  Run-Ends s n {b = b} run = (omega (arith, (Run-todo run).0), ends run (scan b.slots))
