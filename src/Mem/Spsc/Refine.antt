-- ===== src/Mem/Spsc/Refine.antt =====
-- The calls of a valid `SpscQueue` beside the queue that it promises.
use alpha_smart_router.Base.{
  ℕ, suc, ◌+◌, ◌-◌, ◌%◌, ◌<◌, ◌≡◌, ◌≢◌, refl, ◌∙◌, ap, sym, Bool, true, false, Option, none, some,
  List, [], ◌∷◌, ◌++◌, arith, length, get_elem?, set, length-set, length-append, get_elem?-set_self,
  get_elem?-set_ne, get_elem?-lt, get_elem?-snoc, inl, inr, dec_lt, subst, lt→ltb, not_lt→ltb,
}
use mathlib.Core.Option
use alpha_smart_router.Mem.Fifo
use alpha_smart_router.Mem.Fifo.{Call, put, get, Reply, pushed, popped}
use alpha_smart_router.Mem.Spsc.{SpscQueue, next_index, push, push_move, pop}
use alpha_smart_router.Mem.Spsc.Invariant.{
  Frame, Holds, next_index_lem, slot-suc, slot_head, tail_next-eq-head, tail_next-ne-head,
  tail-ne-slot, head-ne-slot, head-ne-tail, head-eq-tail, grow-Frame, shrink-Frame,
}

module _ {ℓ} {A : Type ℓ} (q : SpscQueue A) (xs : List A) (h : Holds q xs) where
  open h use {frame, cells}
  open frame use {valid, placed}

  abbrev extended : A → SpscQueue A
  extended v = record q { buf = set q.buf q.tail (some v); tail = next_index q q.tail }

  -- The slots of the elements held are not the one at the tail.
  extended_cells :
      (v : A) (i : ℕ) (w : A)
      → get_elem? (xs ++ (v ∷ [])) i ≡ some w
      → get_elem? (set q.buf q.tail (some v)) ((q.head + i) % q.capacity) ≡ some (some w)
  extended_cells v i w e = elim (get_elem?-snoc xs v i e) [
    | inl (lt, held) ↦
        get_elem?-set_ne q.buf (some v) (tail-ne-slot q (length xs) frame i lt) ∙ cells i w held
    | inr (last, same) ↦
        rw (last, ← placed, ← same)
          (get_elem?-set_self q.buf q.tail (some v) (omega (arith, valid.stored, valid.tail_in)))
  ]

  -- Writing at the tail appends to the elements held.
  extended-Holds : (v : A) → suc (length xs) < q.capacity → Holds (extended v) (xs ++ (v ∷ []))
  extended-Holds v lt = record {
    frame =
        subst (Frame (extended v)) (omega (arith, length-append xs (v ∷ [])))
          (grow-Frame q (length xs) frame _ (length-set q.buf q.tail (some v)) lt);
    cells = extended_cells v;
  }

  push-room : (v : A) → suc (length xs) < q.capacity → push q v ≡ some (true, extended v)
  unfolding push
  push-room v lt =
      ground (arith, tail_next-ne-head q (length xs) frame lt, valid.stored, valid.tail_in)

  pub push-full : (v : A) → suc (length xs) ≡ q.capacity → push q v ≡ some (false, q)
  unfolding push
  push-full v e = ground (arith, tail_next-eq-head q (length xs) frame e)

module _ {ℓ} {A : Type ℓ} (moved : A → A) (q : SpscQueue A) (x : A) (xs : List A)
    (h : Holds q (x ∷ xs)) where
  open h use {frame, cells}
  open frame use {valid, bounded}

  abbrev advanced : SpscQueue A
  advanced = record q { buf = set q.buf q.head (some (moved x)); head = next_index q q.head }

  head_cell : get_elem? q.buf q.head ≡ some (some x)
  head_cell = ap (get_elem? q.buf) (sym (slot_head q (length (x ∷ xs)) frame)) ∙ cells 0 x refl

  -- The slots of the other elements are not the one at the head.
  advanced_cells :
      (i : ℕ) (w : A)
      → get_elem? xs i ≡ some w
      → get_elem? (set q.buf q.head (some (moved x))) ((next_index q q.head + i) % q.capacity)
        ≡ some (some w)
  advanced_cells i w e =
      rw (next_index_lem q q.head valid valid.head_in, slot-suc)
        (get_elem?-set_ne q.buf (some (moved x)) apart ∙ cells (suc i) w e)
    where
      apart : q.head ≢ (q.head + suc i) % q.capacity
      apart = head-ne-slot q (length (x ∷ xs)) frame i (omega (arith, bounded, get_elem?-lt xs i e))

  -- Advancing the head drops the oldest element.
  advanced-Holds : Holds advanced xs
  advanced-Holds = record {
    frame = shrink-Frame q (length xs) _ (length-set q.buf q.head (some (moved x))) frame;
    cells = advanced_cells;
  }

  pop-some : pop moved q ≡ some (some x, advanced)
  unfolding pop
  pop-some = ground (arith, head-ne-tail q (length (x ∷ xs)) frame (omega arith), head_cell)

pub pop-none {ℓ} :
    {A : Type ℓ} (moved : A → A) (q : SpscQueue A) → Holds q [] → pop moved q ≡ some (none, q)
unfolding pop
pop-none moved q h = ground (arith, head-eq-tail q 0 h.frame refl)

module _ {ℓ} {A : Type ℓ} where
  -- `push` never touches memory out of bounds, and does what a queue of `capacity - 1` elements
  -- does: it appends, or it reports that the queue is full and changes nothing.
  pub push_refines :
      (q : SpscQueue A) (xs : List A) (v : A)
      → Holds q xs
      → (q' : SpscQueue A) × (push q v ≡ some ((Fifo.push (q.capacity - 1) xs v).0, q'))
        × Holds q' (Fifo.push (q.capacity - 1) xs v).1
  unfolding Fifo.push
  push_refines q xs v h = elim (dec_lt (suc (length xs)) q.capacity) [
    | yes room ↦
        rw (lt→ltb (length xs) (q.capacity - 1) (omega arith))
          (extended q xs h v, push-room q xs h v room, extended-Holds q xs h v room)
    | no full ↦
        rw (not_lt→ltb (length xs) (q.capacity - 1) (omega arith))
          (q, push-full q xs h v (omega (arith, h.bounded)), h)
  ]

  -- `pop` never reads a raw cell, and takes the oldest element or reports that there is none.
  pub pop_refines :
      (moved : A → A) (q : SpscQueue A) (xs : List A)
      → Holds q xs
      → (q' : SpscQueue A) × (pop moved q ≡ some ((Fifo.pop xs).0, q')) × Holds q' (Fifo.pop xs).1
  unfolding Fifo.pop
  pop_refines moved q [] h = (q, pop-none moved q h, h)
  pop_refines moved q (x ∷ xs) h =
      (advanced moved q x xs h, pop-some moved q x xs h, advanced-Holds moved q x xs h)

-- `push(T&&)` does to the queue what `push(const T&)` does.
pub push_move-push {ℓ} :
    {A : Type ℓ} (moved : A → A) (q : SpscQueue A) (v : A)
    → Option.map (λ (r : Bool × A × SpscQueue A). (r.0, r.2)) (push_move moved q v) ≡ push q v
unfolding push push_move
push_move-push moved q v = ground arith

-- With room for one more, `push` succeeds and appends.
pub push_with_room {ℓ} :
    {A : Type ℓ} (q : SpscQueue A) (xs : List A) (v : A)
    → Holds q xs
    → suc (length xs) < q.capacity
    → (q' : SpscQueue A) × (push q v ≡ some (true, q'))
      × Holds q' (xs ++ (v ∷ []))
      × (q'.capacity ≡ q.capacity)
push_with_room q xs v h room =
    (extended q xs h v, push-room q xs h v room, extended-Holds q xs h v room, refl)

-- With an element, `pop` takes the oldest.
pub pop_with_some {ℓ} :
    {A : Type ℓ} (moved : A → A) (q : SpscQueue A) (x : A) (xs : List A)
    → Holds q (x ∷ xs)
    → (q' : SpscQueue A) × (pop moved q ≡ some (some x, q'))
      × Holds q' xs
      × (q'.capacity ≡ q.capacity)
pop_with_some moved q x xs h =
    (advanced moved q x xs h, pop-some moved q x xs h, advanced-Holds moved q x xs h, refl)

-- A client's calls in order, with what each tells it; `none` if one of them is undefined behaviour.
pub run {ℓ} : {A : Type ℓ} → (A → A) → SpscQueue A → List (Call A) → Option (List (Reply A))
run moved q [] = some []
run moved q (put v ∷ calls) = elim (push q v) [
  | none ↦ none
  | some (done, q') ↦ Option.map (λ rest. pushed done ∷ rest) (run moved q' calls)
]
run moved q (get ∷ calls) = elim (pop moved q) [
  | none ↦ none
  | some (out, q') ↦ Option.map (λ rest. popped out ∷ rest) (run moved q' calls)
]

cap-push {ℓ} :
    {A : Type ℓ} (q : SpscQueue A) (v : A) {done : Bool} {q' : SpscQueue A}
    → push q v ≡ some (done, q')
    → q'.capacity ≡ q.capacity
unfolding push
cap-push q v e = ground arith

cap-pop {ℓ} :
    {A : Type ℓ} (moved : A → A) (q : SpscQueue A) {out : Option A} {q' : SpscQueue A}
    → pop moved q ≡ some (out, q')
    → q'.capacity ≡ q.capacity
unfolding pop
cap-pop moved q e = ground arith

-- For a ring that has an object of the element type in each cell, as `with_capacity` makes it of
-- trivially copyable types only, and that holds the list `xs`: on any sequence of pushes and pops every reply is that of
-- the first-in first-out queue bounded by `capacity - 1` that starts with `xs`, and no call is
-- undefined behaviour.
pub run_refines {ℓ} :
    {A : Type ℓ} (moved : A → A) (q : SpscQueue A) (xs : List A) (calls : List (Call A))
    → Holds q xs
    → run moved q calls ≡ some (Fifo.run (q.capacity - 1) xs calls)
unfolding run Fifo.run
run_refines moved q xs [] h = refl
run_refines moved q xs (put v ∷ calls) h =
    let (q', e, h') = push_refines q xs v h in
    rw (e, run, run_refines moved q' _ calls h', cap-push q v e)
run_refines moved q xs (get ∷ calls) h =
    let (q', e, h') = pop_refines moved q xs h in
    rw (e, run, run_refines moved q' _ calls h', cap-pop moved q e)
