-- ===== src/Manager/Batch/Return.antt =====
-- The progress of ExecuteBatch: the steps that are open in a state, and the return.
use mathlib.Core.Path.{subst}
use provable_sdk.Base.{
  ℕ, zero, suc, ◌+◌, ◌*◌, ◌≤◌, ◌≡◌, ◌⊎◌, inl, inr, refl, ap, sym, ◌∙◌, List, [], ◌∷◌, ◌++◌, arith,
  map, length, Bytes, All,
}
use provable_sdk.Exec.{Result}
use provable_sdk.Manager.Batch.{
  ExecuteRequest, ExecuteResult, Phase, starting, executing, stored, released, finished, Slot,
  Batch, Move, acquire, store, release, done, Step, spawn, turn, Run, later, Returned, waited,
}
use provable_sdk.Manager.Batch.Invariant.{
  total, total-append, token, waits, holds, lives, measure, Inv,
}
use provable_sdk.Manager.Batch.Moves.{Run-Inv, Run-measure, Step-measure}

-- A goroutine with its place among the others.
record At (slots : List Slot) : Type 0 where
  before : List Slot
  slot : Slot
  after : List Slot
  is_at : slots ≡ before ++ slot ∷ after

-- A goroutine in Execute or after it and not done; or one before its send where none has a token; or
-- all are done.
data Scan (slots : List Slot) : Type 0 where
  in_execute : (a : At slots) → a.slot.phase ≡ executing → Scan slots
  after_store : (a : At slots) → a.slot.phase ≡ stored → Scan slots
  after_release : (a : At slots) → a.slot.phase ≡ released → Scan slots
  before_send : (a : At slots) → a.slot.phase ≡ starting → total holds slots ≡ 0 → Scan slots
  all_done : total holds slots ≡ 0 → total lives slots ≡ 0 → Scan slots

abbrev here : (y : Slot) (ys : List Slot) → At (y ∷ ys)
here y ys = record { before = []; slot = y; after = ys; is_at = refl }

abbrev further : (y : Slot) {ys : List Slot} → At ys → At (y ∷ ys)
further y a = record {
  before = y ∷ a.before;
  slot = a.slot;
  after = a.after;
  is_at = ap (λ zs. y ∷ zs) a.is_at;
}

-- The goroutine in front is before its send, or done.
past :
    (y : Slot) {ys : List Slot}
    → token y.phase ≡ 0
    → (y.phase ≡ starting) ⊎ (waits y.phase ≡ 0)
    → Scan ys
    → Scan (y ∷ ys)
past y t w (in_execute a h) = in_execute (further y a) h
past y t w (after_store a h) = after_store (further y a) h
past y t w (after_release a h) = after_release (further y a) h
past y t w (before_send a h e) = before_send (further y a) h (omega (arith, t, e))
past y {ys} t (inl w) (all_done e e') = before_send (here y ys) w (omega (arith, t, e))
past y t (inr w) (all_done e e') = all_done (omega (arith, t, e)) (omega (arith, w, e'))

Scan-cons : (y : Slot) (ys : List Slot) (p : Phase) → y.phase ≡ p → Scan ys → Scan (y ∷ ys)
Scan-cons y ys starting h s = past y (ap token h) (inl h) s
Scan-cons y ys executing h s = in_execute (here y ys) h
Scan-cons y ys stored h s = after_store (here y ys) h
Scan-cons y ys released h s = after_release (here y ys) h
Scan-cons y ys finished h s = past y (ap token h) (inr (ap waits h)) s

scan : (slots : List Slot) → Scan slots
scan [] = all_done refl refl
scan (y ∷ ys) = Scan-cons y ys y.phase refl (scan ys)

weight-le : (w : Slot → ℕ) {slots : List Slot} (a : At slots) → w a.slot ≤ total w slots
weight-le w a = omega (arith, total-append w a.before (a.slot ∷ a.after), ap (total w) a.is_at)

All-front :
    (P : ExecuteRequest → Type 0) (xs ys : List ExecuteRequest) → All P (xs ++ ys) → All P xs
All-front P [] ys h = tt
All-front P (x ∷ xs) ys h = (h.0, All-front P xs ys (h.1))

All-request :
    (P : ExecuteRequest → Type 0) (xs : List Slot) (y : Slot) (ys : List Slot)
    → All P (map Slot.request (xs ++ y ∷ ys))
    → P y.request
All-request P [] y ys h = h.0
All-request P (x ∷ xs) y ys h = All-request P xs y ys (h.1)

-- Steps one after another.
pub data Steps (Returns : ExecuteRequest → Result Bytes → Type 0) : Batch → Batch → Type 0 where
  none_left : {b : Batch} → Steps Returns b b
  one_more : {b b' b'' : Batch} → Step Returns b b' → Steps Returns b' b'' → Steps Returns b b''

module _ (Returns : ExecuteRequest → Result Bytes → Type 0) where
  -- A step, or the return.
  abbrev pub Progress : Batch → Type 0
  Progress b =
      ((b' : Batch) × Step Returns b b') ⊎ ((results : List ExecuteResult) × Returned b results)

  turn_on :
      (b : Batch) (a : At b.slots) {sem wg : ℕ} {y' : Slot}
      → Move Returns b.sem b.wg a.slot sem wg y'
      → Progress b
  turn_on b a mv = inl (_, turn a.before a.slot a.after a.is_at mv)

  -- From the state there are steps to a return.
  pub CanReturn : Batch → Type 0
  CanReturn b =
      (b' : Batch) × Steps Returns b b' × ((results : List ExecuteResult) × Returned b' results)

  -- Execute returns something for the request.
  abbrev HasReturn : ExecuteRequest → Type 0
  HasReturn r = (o : Result Bytes) × Returns r o

  module _ (requests : List ExecuteRequest) (returns : All HasReturn requests) where
    return_at : (b : Batch) (a : At b.slots) → Inv Returns requests b → HasReturn a.slot.request
    return_at b a inv = All-request HasReturn a.before a.slot a.after (
        subst (λ ys. All HasReturn (map Slot.request ys)) a.is_at
          (All-front HasReturn (map Slot.request b.slots) b.pending
            (subst (All HasReturn) (sym inv.kept) returns)))

    Progress-Scan :
        (b : Batch) → b.pending ≡ [] → Inv Returns requests b → Scan b.slots → Progress b
    Progress-Scan b e inv (in_execute a h) =
        let (o, r) = return_at b a inv in turn_on b a (store o h r)
    Progress-Scan b e inv (after_store a h) =
        turn_on b a (release h (omega (arith, weight-le holds a, ap token h, inv.tokens)))
    Progress-Scan b e inv (after_release a h) =
        turn_on b a (done h (omega (arith, weight-le lives a, ap waits h, inv.counted)))
    Progress-Scan b e inv (before_send a h none_held) =
        turn_on b a (acquire h (omega (arith, none_held, inv.tokens)))
    Progress-Scan b e inv (all_done _ h) = inr (_, waited e (inv.counted ∙ h))

    progress :
        (b : Batch) (rs : List ExecuteRequest)
        → b.pending ≡ rs
        → Inv Returns requests b
        → Progress b
    progress b [] e inv = Progress-Scan b e inv (scan b.slots)
    progress b (r ∷ rs) e inv = inl (_, spawn r rs e)

    -- When Execute returns for each of the requests, a run of ExecuteBatch has at most five steps for
    -- each request, and in every state of it either some goroutine or the loop has a step, or
    -- ExecuteBatch returns.
    pub Run-Progress :
        {k : ℕ} {b : Batch} → Run Returns requests k b → (k ≤ 5 * length requests) × Progress b
    Run-Progress {b} run = (
      omega (arith, Run-measure Returns requests run),
      progress b b.pending refl (Run-Inv Returns requests run),
    )

    stopped : {b : Batch} → measure b ≡ 0 → Progress b → CanReturn b
    unfolding CanReturn
    stopped e (inl (b', st)) = absurd (omega (arith, e, Step-measure Returns st))
    stopped e (inr r) = (_, none_left, r)

    go_on :
        (n : ℕ) (k : ℕ) (b : Batch)
        → ((b' : Batch) → Run Returns requests (k + 1) b' → measure b' ≤ n → CanReturn b')
        → Run Returns requests k b
        → measure b ≤ suc n
        → Progress b
        → CanReturn b
    unfolding CanReturn
    go_on n k b deeper run le (inl (b', st)) =
        let (b'', sts, r) = deeper b' (later run st) (omega (arith, le, Step-measure Returns st)) in
        (b'', one_more st sts, r)
    go_on n k b deeper run le (inr r) = (b, none_left, r)

    can_return :
        (n : ℕ) (k : ℕ) (b : Batch) → Run Returns requests k b → measure b ≤ n → CanReturn b
    can_return zero k b run le = stopped (omega (arith, le)) ((Run-Progress run).1)
    can_return (suc n) k b run le =
        go_on n k b (λ b' run' le'. can_return n (k + 1) b' run' le') run le ((Run-Progress run).1)

    -- When Execute returns for each of the requests, then from every state that a run of ExecuteBatch
    -- comes to, there are steps with which it returns.
    pub Run-CanReturn : {k : ℕ} {b : Batch} → Run Returns requests k b → CanReturn b
    Run-CanReturn {k} {b} run = can_return (measure b) k b run (omega arith)
