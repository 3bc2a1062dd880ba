-- ===== src/TailQueue.antt =====
-- The tail queues of sys/queue.h, which list.c links its items with: a parameter of the model, with
-- what its manual page says of the operations. An element is an address.
pub mod Sequence
use bflib.Base.{ℕ, ◌≡◌, ◌≢◌, Option, none, some, List, [], ◌∷◌, ◌++◌}

abbrev pub head? : List ℕ → Option ℕ
head? [] = none
head? (a ∷ rest) = some a

abbrev pub last? : List ℕ → Option ℕ
last? [] = none
last? (a ∷ []) = some a
last? (a ∷ b ∷ rest) = last? (b ∷ rest)

abbrev pub NotIn : ℕ → List ℕ → Type 0
NotIn a [] = Unit
NotIn a (b ∷ bs) = (a ≢ b) × NotIn a bs

abbrev pub IsDistinct : List ℕ → Type 0
IsDistinct [] = Unit
IsDistinct (a ∷ rest) = NotIn a rest × IsDistinct rest

pub record TailQueue : Type 1 where
  pub Head : Type 0
  pub init : Head
  pub first : Head → Option ℕ
  pub last : Head → Option ℕ
  pub next : Head → ℕ → Option ℕ
  pub prev : Head → ℕ → Option ℕ
  pub insert_head : Head → ℕ → Head
  pub insert_tail : Head → ℕ → Head
  pub insert_after : Head → (elm : ℕ) → (new : ℕ) → Head
  pub remove : Head → ℕ → Head
  -- the elements of a queue, from the first to the last
  pub order : Head → List ℕ
  pub order-init : order init ≡ []
  pub first-order : (q : Head) → first q ≡ head? (order q)
  pub last-order : (q : Head) → last q ≡ last? (order q)
  -- the rest is said of an element that is in the queue once, and of a new one that is not in it
  pub next-order :
      (q : Head) (xs : List ℕ) (a : ℕ) (ys : List ℕ)
      → order q ≡ xs ++ (a ∷ ys)
      → IsDistinct (xs ++ (a ∷ ys))
      → next q a ≡ head? ys
  pub prev-order :
      (q : Head) (xs : List ℕ) (a : ℕ) (ys : List ℕ)
      → order q ≡ xs ++ (a ∷ ys)
      → IsDistinct (xs ++ (a ∷ ys))
      → prev q a ≡ last? xs
  pub order-insert_head :
      (q : Head) (new : ℕ) → NotIn new (order q) → order (insert_head q new) ≡ new ∷ order q
  pub order-insert_tail :
      (q : Head) (new : ℕ) → NotIn new (order q) → order (insert_tail q new) ≡ order q ++ (new ∷ [])
  pub order-insert_after :
      (q : Head) (xs : List ℕ) (a : ℕ) (ys : List ℕ) (new : ℕ)
      → order q ≡ xs ++ (a ∷ ys)
      → IsDistinct (xs ++ (a ∷ ys))
      → NotIn new (order q)
      → order (insert_after q a new) ≡ xs ++ (a ∷ new ∷ ys)
  pub order-remove :
      (q : Head) (xs : List ℕ) (a : ℕ) (ys : List ℕ)
      → order q ≡ xs ++ (a ∷ ys)
      → IsDistinct (xs ++ (a ∷ ys))
      → order (remove q a) ≡ xs ++ ys
