-- ===== src/Mem/Fifo.antt =====
-- What `SpscQueue` promises: a first-in first-out queue of at most `bound` elements.
use alpha_smart_router.Base.{
  ℕ, Bool, true, false, Option, none, some, List, [], ◌∷◌, ◌++◌, ltb, if◌then◌else◌, length,
}

pub data Call {ℓ} (A : Type ℓ) : Type ℓ where
  put : A → Call A
  get : Call A

-- What a call tells its caller: the `bool` of a push, or the element of a pop.
pub data Reply {ℓ} (A : Type ℓ) : Type ℓ where
  pushed : Bool → Reply A
  popped : Option A → Reply A

module _ {ℓ} {A : Type ℓ} where
  unfoldable pub push : ℕ → List A → A → Bool × List A
  push bound xs v = if ltb (length xs) bound then (true, xs ++ (v ∷ [])) else (false, xs)

  unfoldable pub pop : List A → Option A × List A
  pop [] = (none, [])
  pop (x ∷ xs) = (some x, xs)

  unfoldable pub run : ℕ → List A → List (Call A) → List (Reply A)
  run bound xs [] = []
  run bound xs (put v ∷ calls) =
      let (done, ys) = push bound xs v in pushed done ∷ run bound ys calls
  run bound xs (get ∷ calls) = let (out, ys) = pop xs in popped out ∷ run bound ys calls
