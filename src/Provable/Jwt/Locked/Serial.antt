-- ===== src/Provable/Jwt/Locked/Serial.antt =====
-- The goroutines in GetJWT take their turns.
use mathlib.Core.Path.{subst}
use mathlib.Core.List.{perm_middle, Perm}
use mathlib.Core.List.Perm
use provable_sdk.Base.{
  ℕ, zero, suc, ◌+◌, ◌≤◌, ◌≡◌, refl, sym, ap, List, [], ◌∷◌, ◌++◌, Bool, true, false, Bytes, All,
  All-append, arith, append_assoc,
}
use provable_sdk.Fault.{Fault}
use provable_sdk.Exec.{Result, ok, err}
use provable_sdk.Http.Env.{Env}
use provable_sdk.Json.{Json}
use provable_sdk.Security.{Primitives}
use provable_sdk.Provable.{ProvableClient, Session}
use provable_sdk.Provable.Jwt.{is_fresh, fetch_jwt, store_jwt, get_jwt}
use provable_sdk.Provable.Jwt.Locked.{
  Phase, waiting, holding, stale, fetched, leaving, returned, Callers, queue, Move, lock, hit, miss,
  ask, fail, store, unlock, Step, turn, Run, start, later,
}

-- A goroutine is active from its Lock to its Unlock.
abbrev pub active : Phase → ℕ
active waiting = 0
active holding = 1
active stale = 1
active (fetched r) = 1
active (leaving r) = 1
active (returned r) = 0

abbrev pub flag : Bool → ℕ
flag true = 1
flag false = 0

abbrev pub total : List Phase → ℕ
total [] = 0
total (p ∷ ps) = active p + total ps

-- What a goroutine has returned.
abbrev answer : Phase → List (Result Bytes)
answer waiting = []
answer holding = []
answer stale = []
answer (fetched r) = []
answer (leaving r) = []
answer (returned r) = r ∷ []

-- What the goroutines have returned, in their order.
abbrev pub answers : List Phase → List (Result Bytes)
answers [] = []
answers (p ∷ ps) = answer p ++ answers ps

flag-le : (b : Bool) → flag b ≤ 1
flag-le true = omega arith
flag-le false = omega arith

total-append : (xs ys : List Phase) → total (xs ++ ys) ≡ total xs + total ys
total-append [] ys = omega arith
total-append (x ∷ xs) ys = omega (arith, total-append xs ys)

answers-append : (xs ys : List Phase) → answers (xs ++ ys) ≡ answers xs ++ answers ys
answers-append [] ys = refl
answers-append (x ∷ xs) ys =
    rw (answers-append xs ys, append_assoc (answer x) (answers xs) (answers ys)) refl

answer-middle :
    (p : Phase) (rs rs' : List (Result Bytes))
    → Perm (rs ++ (answer p ++ rs')) (answer p ++ (rs ++ rs'))
answer-middle waiting rs rs' = Perm.refl _
answer-middle holding rs rs' = Perm.refl _
answer-middle stale rs rs' = Perm.refl _
answer-middle (fetched r) rs rs' = Perm.refl _
answer-middle (leaving r) rs rs' = Perm.refl _
answer-middle (returned r) rs rs' = perm_middle rs rs'

answers-replace :
    (xs : List Phase) (p p' : Phase) (ys : List Phase)
    → answer p ≡ []
    → Perm (answers (xs ++ p' ∷ ys)) (answer p' ++ answers (xs ++ p ∷ ys))
answers-replace xs p p' ys h =
    rw (answers-append xs (p' ∷ ys), answers-append xs (p ∷ ys), h)
      (answer-middle p' (answers xs) (answers ys))

queue-total : (n : ℕ) → total (queue n) ≡ 0
queue-total zero = refl
queue-total (suc n) = omega (arith, queue-total n)

queue-answers : (n : ℕ) → answers (queue n) ≡ []
queue-answers zero = refl
queue-answers (suc n) = queue-answers n

All-parts :
    (P : Phase → Type 0) (xs : List Phase) (y : Phase) (ys : List Phase)
    → All P (xs ++ y ∷ ys)
    → All P xs × P y × All P ys
All-parts P [] y ys h = (tt, h.0, h.1)
All-parts P (x ∷ xs) y ys h = let (a, b, d) = All-parts P xs y ys (h.1) in ((h.0, a), b, d)

module _ (env : Env) (json : Json) (prim : Primitives) (c : ProvableClient) where
  -- Calls of get_jwt one after the other, with their results, the last one first.
  pub data Serial (s : Session) : List (Result Bytes) → Session → Type 0 where
    none_yet : Serial s [] s
    one_more :
        {rs : List (Result Bytes)} {s' : Session}
        → Serial s rs s'
        → Serial s ((get_jwt env json prim c s').0 ∷ rs) (get_jwt env json prim c s').1

  -- How far an active goroutine is with the call of get_jwt on `s`, where `s1` is what is shared now.
  abbrev Fits : Session → Session → Phase → Type 0
  Fits s s1 waiting = Unit
  Fits s s1 holding = s1 ≡ s
  Fits s s1 stale = (s1 ≡ s) × (is_fresh env json prim c s ≡ false)
  Fits s s1 (fetched r) =
      (is_fresh env json prim c s ≡ false)
      × (fetch_jwt env json prim c s.trace ≡ (r, s1.trace))
      × (s1 ≡ record s { trace = s1.trace })
  Fits s s1 (leaving r) = get_jwt env json prim c s ≡ (r, s1)
  Fits s s1 (returned r) = Unit

  Fits-idle : (s s1 : Session) (ps : List Phase) → total ps ≡ 0 → All (Fits s s1) ps
  Fits-idle s s1 [] h = tt
  Fits-idle s s1 (waiting ∷ ps) h = (tt, Fits-idle s s1 ps (omega (arith, h)))
  Fits-idle s s1 (holding ∷ ps) h = absurd (omega (arith, h))
  Fits-idle s s1 (stale ∷ ps) h = absurd (omega (arith, h))
  Fits-idle s s1 (fetched r ∷ ps) h = absurd (omega (arith, h))
  Fits-idle s s1 (leaving r ∷ ps) h = absurd (omega (arith, h))
  Fits-idle s s1 (returned r ∷ ps) h = (tt, Fits-idle s s1 ps (omega (arith, h)))

  get_jwt_hit :
      (s : Session) → is_fresh env json prim c s ≡ true → get_jwt env json prim c s ≡ (ok s.jwt, s)
  unfolding get_jwt
  get_jwt_hit s h = rw h refl

  get_jwt_fail :
      (s s1 : Session) (e : Fault)
      → Fits s s1 (fetched (err e))
      → get_jwt env json prim c s ≡ (err e, s1)
  unfolding get_jwt
  get_jwt_fail s s1 e (h, f, g) = rw (h, f) (ap (λ z. (err e, z)) (sym g))

  get_jwt_store :
      (s s1 : Session) (jwt : Bytes)
      → Fits s s1 (fetched (ok jwt))
      → get_jwt env json prim c s ≡ (ok jwt, (store_jwt env json prim c jwt s1).1)
  unfolding get_jwt store_jwt
  get_jwt_store s s1 jwt (h, f, g) = rw (h, f) refl

  -- What a move keeps: `base` is where the last call has ended.
  record Kept (s s1 : Session) (p : Phase) (s1' : Session) (held' : Bool) (p' : Phase) (held : Bool)
      : Type 0 where
    base : Session
    fits : Fits base s1' p'
    none_answered : answer p ≡ []
    serial :
        {s0 : Session} {rs : List (Result Bytes)}
        → Serial s0 rs s
        → Serial s0 (answer p' ++ rs) base
    counted : flag held' + active p ≡ flag held + active p'
    alone : flag held ≡ active p
    idle : held' ≡ false → s1' ≡ base

  held_on : {A : Type 0} (held : Bool) → 1 ≤ flag held → held ≡ false → A
  held_on true h e = absurd (cc e)
  held_on false h e = absurd (omega (arith, h))

  flag_one : (held : Bool) → 1 ≤ flag held → flag held ≡ 1
  flag_one held h = omega (arith, h, flag-le held)

  -- a move in the middle of a call
  inner :
      {s s1 s1' : Session} {p p' : Phase} (held : Bool)
      → active p ≡ 1
      → active p ≤ flag held
      → answer p ≡ []
      → active p' ≡ 1
      → answer p' ≡ []
      → Fits s s1' p'
      → Kept s s1 p s1' held p' held
  inner {s} {p = p} {p' = p'} held a le out a' out' fits = record {
    base = s;
    fits = fits;
    none_answered = out;
    serial = λ ser. rw out' ser;
    counted = omega (arith, a, a');
    alone = omega (arith, a, le, flag-le held);
    idle = held_on held (omega (arith, a, le));
  }

  Move-Kept :
      {s s1 s1' : Session} {held held' : Bool} {p p' : Phase}
      → Move env json prim c s1 held p s1' held' p'
      → active p ≤ flag held
      → (held ≡ false → s1 ≡ s)
      → Fits s s1 p
      → Kept s s1 p s1' held' p' held
  Move-Kept {s} {s1} (lock h e) le idle f = record {
    base = s;
    fits = idle e;
    none_answered = ap answer h;
    serial = λ ser. ser;
    counted = omega (arith, ap active h, ap flag e);
    alone = omega (arith, ap active h, ap flag e);
    idle = λ e'. absurd (cc e');
  }
  Move-Kept {s} {s1} {held = held} (hit h e) le idle f =
      let same : s1 ≡ s = subst (Fits s s1) h f in
      inner held (ap active h) le (ap answer h) refl refl
        (subst (λ z. get_jwt env json prim c z ≡ (ok s1.jwt, s1)) same (get_jwt_hit s1 e))
  Move-Kept {s} {s1} {held = held} (miss h e) le idle f =
      let same : s1 ≡ s = subst (Fits s s1) h f in
      inner held (ap active h) le (ap answer h) refl refl
        (same, subst (λ z. is_fresh env json prim c z ≡ false) same e)
  Move-Kept {s} {s1} {held = held} (ask h) le idle f =
      let (same, e) : (s1 ≡ s) × (is_fresh env json prim c s ≡ false) = subst (Fits s s1) h f in
      inner held (ap active h) le (ap answer h) refl refl (
        e,
        ap (λ z. fetch_jwt env json prim c z.trace) (sym same),
        ap {A = Session} {B = Session}
            (λ z. record z { trace = (fetch_jwt env json prim c s1.trace).1 }) same,
      )
  Move-Kept {s} {s1} {held = held} (fail e h) le idle f =
      inner held (ap active h) le (ap answer h) refl refl
        (get_jwt_fail s s1 e (subst (Fits s s1) h f))
  Move-Kept {s} {s1} {held = held} (store jwt h) le idle f =
      inner held (ap active h) le (ap answer h) refl refl
        (get_jwt_store s s1 jwt (subst (Fits s s1) h f))
  Move-Kept {s} {s1} {held = held} (unlock r h) le idle f =
      let call : get_jwt env json prim c s ≡ (r, s1) = subst (Fits s s1) h f in
      record {
        base = s1;
        fits = tt;
        none_answered = ap answer h;
        serial = λ {s0} {rs} ser. subst (λ z. Serial s0 (z.0 ∷ rs) z.1) call (one_more ser);
        counted = omega (arith, ap active h, le, flag-le held);
        alone = omega (arith, ap active h, le, flag-le held);
        idle = λ e. refl;
      }

  record Inv (s0 : Session) (b : Callers) : Type 0 where
    base : Session
    done : List (Result Bytes)
    serial : Serial s0 done base
    fits : All (Fits base b.session) b.slots
    counted : total b.slots ≡ flag b.held
    idle : b.held ≡ false → b.session ≡ base
    same : Perm (answers b.slots) done

  Step-Inv : {s0 : Session} {b b' : Callers} → Step env json prim c b b' → Inv s0 b → Inv s0 b'
  Step-Inv {b = b} (turn xs p ys {s} {held} {p'} e mv) inv =
      let count : total xs + (active p + total ys) ≡ flag b.held =
        omega (arith, total-append xs (p ∷ ys), ap total e, inv.counted) in
      let (fx, f, fy) =
        All-parts (Fits inv.base b.session) xs p ys
          (subst (All (Fits inv.base b.session)) e inv.fits) in
      let kept = Move-Kept mv (omega (arith, count)) inv.idle f in
      record {
        base = kept.base;
        done = answer p' ++ inv.done;
        serial = kept.serial inv.serial;
        fits =
            All-append (Fits kept.base s) xs (p' ∷ ys)
              (Fits-idle kept.base s xs (omega (arith, count, kept.alone)))
              (kept.fits, Fits-idle kept.base s ys (omega (arith, count, kept.alone)));
        counted = omega (arith, total-append xs (p' ∷ ys), count, kept.counted);
        idle = kept.idle;
        same =
            Perm.trans (answers-replace xs p p' ys kept.none_answered)
              (Perm.append_left (answer p') (subst (λ ps. Perm (answers ps) inv.done) e inv.same));
      }

  Run-Inv : {s : Session} {n k : ℕ} {b : Callers} → Run env json prim c s n k b → Inv s b
  Run-Inv {s} {n} start = record {
    base = s;
    done = [];
    serial = none_yet;
    fits = Fits-idle s s (queue n) (queue-total n);
    counted = queue-total n;
    idle = λ e. refl;
    same = rw (queue-answers n) (Perm.refl []);
  }
  Run-Inv (later run step) = Step-Inv step (Run-Inv run)

  pub Run-counted :
      {s : Session} {n k : ℕ} {b : Callers}
      → Run env json prim c s n k b
      → total b.slots ≡ flag b.held
  Run-counted run = (Run-Inv run).counted

  -- However the steps of goroutines that call GetJWT on one client interleave: whenever none of them
  -- holds jwtMu, the token, its expiry and the requests sent are those of calls of GetJWT one after the
  -- other, and these calls give the results that the goroutines have returned so far, up to their order.
  pub Run-Serial :
      (s : Session) (n : ℕ) {k : ℕ} {b : Callers}
      → Run env json prim c s n k b
      → b.held ≡ false
      → (rs : List (Result Bytes)) × Serial s rs b.session × Perm (answers b.slots) rs
  Run-Serial s n {b = b} run e =
      let inv = Run-Inv run in
      (inv.done, subst (Serial s inv.done) (sym (inv.idle e)) inv.serial, inv.same)
