-- ===== src/Bridge/Heap/Balanced.antt =====
-- What the calls of the bridge leave on the heap.
use provable_sdk.Base.{ℕ, suc, ◌≤◌, ◌≡◌, refl, List, ◌∷◌, Option, none, some, Bytes, arith}
use provable_sdk.Exec.{Result}
use provable_sdk.Json.{Json}
use provable_sdk.Bridge.{c_string, result_or_error}
use provable_sdk.Bridge.Heap.{
  Owner, go, rust, Block, Heap, find, Cmd, ◌>>=◌, pure, load, free, with_c_string, load_optional,
  hand_over,
}
use provable_sdk.Bridge.Heap.Calls

abbrev pub block : ℕ → Owner → Bytes → Block
block p owner s = record { address = p; owner = owner; text = s }

abbrev pub pushed : Bytes → Heap → Heap
pushed s h = record { next = suc h.next; blocks = block h.next go (c_string s) ∷ h.blocks }

-- The command ends with the value and no fault, every block that was in use is in use as it was, and no
-- other is.
pub record Balanced {A : Type 0} (m : Cmd A) (a : A) (h : Heap) : Type 0 where
  pub end : Heap
  pub runs : m h ≡ some (a, end)
  pub same : end.blocks ≡ h.blocks
  pub larger : h.next ≤ end.next

free_top :
    (owner : Owner) (p : ℕ) (s : Bytes) (h : Heap) (bs : List Block)
    → h.blocks ≡ block p owner s ∷ bs
    → free owner p h ≡ some (tt, record h { blocks = bs })
unfolding free
free_top go p s h bs e = ground (arith, e)
free_top rust p s h bs e = ground (arith, e)

load_top :
    (owner : Owner) (p : ℕ) (s : Bytes) (h : Heap) (bs : List Block)
    → h.blocks ≡ block p owner s ∷ bs
    → load p h ≡ some (s, h)
unfolding load
load_top owner p s h bs e = ground (arith, e)

module _ {A : Type 0} where
  pub Balanced-pure : (a : A) (h : Heap) → Balanced (pure a) a h
  Balanced-pure a h = record { end = h; runs = refl; same = refl; larger = omega arith }

  pub Balanced-load :
      (p : ℕ) (owner : Owner) (s : Bytes) (f : Bytes → Cmd A) {a : A} {h : Heap}
      → find p h.blocks ≡ some (block p owner s)
      → Balanced (f s) a h
      → Balanced (load p >>= f) a h
  unfolding load
  Balanced-load p owner s f {a} {h} e b = record {
    end = b.end;
    runs = rw e b.runs;
    same = b.same;
    larger = b.larger;
  }

  pub Balanced-load_optional :
      (p : ℕ) (owner : Owner) (s : Bytes) (f : Option Bytes → Cmd A) {a : A} {h : Heap}
      → find p h.blocks ≡ some (block p owner s)
      → Balanced (f (some s)) a h
      → Balanced (load_optional (some p) >>= f) a h
  unfolding load_optional load
  Balanced-load_optional p owner s f {a} {h} e b = record {
    end = b.end;
    runs = rw e b.runs;
    same = b.same;
    larger = b.larger;
  }

  pub Balanced-load_null :
      (f : Option Bytes → Cmd A) {a : A} {h : Heap}
      → Balanced (f none) a h
      → Balanced (load_optional none >>= f) a h
  unfolding load_optional
  Balanced-load_null f b = record { end = b.end; runs = b.runs; same = b.same; larger = b.larger }

  pub Balanced-with_c_string :
      (s : Bytes) (body : ℕ → Cmd A) {a : A} {h : Heap}
      → Balanced (body h.next) a (pushed s h)
      → Balanced (with_c_string s body) a h
  unfolding with_c_string
  Balanced-with_c_string s body {a} {h} b = record {
    end = record b.end { blocks = h.blocks };
    runs = rw (b.runs, free_top go h.next (c_string s) b.end h.blocks b.same) refl;
    same = refl;
    larger = omega (arith, b.larger);
  }

module _ (json : Json) where
  pub Balanced-result :
      (o : Option Bytes) (h : Heap)
      → Balanced (hand_over o >>= Calls.result_on_heap json) (result_or_error json o) h
  unfolding hand_over Calls.result_on_heap result_or_error
  Balanced-result none h = record { end = h; runs = refl; same = refl; larger = omega arith }
  Balanced-result (some s) h = record {
    end = record h { next = suc h.next };
    runs =
        let h' : Heap = record { next = suc h.next; blocks = block h.next rust s ∷ h.blocks } in
        rw (load_top rust h.next s h' h.blocks refl, free_top rust h.next s h' h.blocks refl) refl;
    same = refl;
    larger = omega arith;
  }

  pub Balanced-one_text :
      (f : Bytes → Option Bytes) (s : Bytes) (h : Heap)
      → Balanced (Calls.one_text json f s) (result_or_error json (f (c_string s))) h
  unfolding Calls.one_text find
  Balanced-one_text f s h = Balanced-with_c_string s _ (
      Balanced-load h.next go (c_string s) _ (ground arith)
        (Balanced-result (f (c_string s)) (pushed s h)))

pub Balanced-answered :
    (f : Result Bytes → Calls.Answer) (m : Cmd (Result Bytes)) {r : Result Bytes} {h : Heap}
    → Balanced m r h
    → Balanced (Calls.answered f m) (f r) h
unfolding Calls.answered
Balanced-answered f m b = record {
  end = b.end;
  runs = rw b.runs refl;
  same = b.same;
  larger = b.larger;
}
