-- ===== src/TailQueue/Sequence.antt =====
-- A tail queue that is the list of its elements: the documented behaviour can be met.
use bflib.Base.{
  ℕ, ◌≡◌, ◌≢◌, refl, sym, ap, ◌∙◌, Option, none, some, List, [], ◌∷◌, ◌++◌, ◌==◌, if◌then◌else◌,
  arith,
}
use bflib.TailQueue.{TailQueue, head?, last?, NotIn, IsDistinct}

abbrev after : List ℕ → ℕ → Option ℕ
after [] a = none
after (b ∷ bs) a = if a == b then head? bs else after bs a

abbrev before : List ℕ → Option ℕ → ℕ → Option ℕ
before [] previous a = none
before (b ∷ bs) previous a = if a == b then previous else before bs (some b) a

abbrev put_after : List ℕ → ℕ → ℕ → List ℕ
put_after [] a new = []
put_after (b ∷ bs) a new = if a == b then b ∷ new ∷ bs else b ∷ put_after bs a new

abbrev take_out : List ℕ → ℕ → List ℕ
take_out [] a = []
take_out (b ∷ bs) a = if a == b then bs else b ∷ take_out bs a

NotIn-middle : (b : ℕ) (xs : List ℕ) (a : ℕ) (ys : List ℕ) → NotIn b (xs ++ (a ∷ ys)) → a ≢ b
NotIn-middle b [] a ys h = λ e. h.0 (sym e)
NotIn-middle b (x ∷ xs) a ys h = NotIn-middle b xs a ys h.1

pub after-middle :
    (xs : List ℕ) (a : ℕ) (ys : List ℕ)
    → IsDistinct (xs ++ (a ∷ ys))
    → after (xs ++ (a ∷ ys)) a ≡ head? ys
after-middle [] a ys d = ground arith
after-middle (x ∷ xs) a ys d =
    let ih = after-middle xs a ys d.1 in let differ = NotIn-middle x xs a ys d.0 in ground arith

pub put_after-middle :
    (xs : List ℕ) (a : ℕ) (ys : List ℕ) (new : ℕ)
    → IsDistinct (xs ++ (a ∷ ys))
    → put_after (xs ++ (a ∷ ys)) a new ≡ xs ++ (a ∷ new ∷ ys)
put_after-middle [] a ys new d = ground arith
put_after-middle (x ∷ xs) a ys new d =
    let ih = put_after-middle xs a ys new d.1 in
    let differ = NotIn-middle x xs a ys d.0 in ground arith

pub take_out-middle :
    (xs : List ℕ) (a : ℕ) (ys : List ℕ)
    → IsDistinct (xs ++ (a ∷ ys))
    → take_out (xs ++ (a ∷ ys)) a ≡ xs ++ ys
take_out-middle [] a ys d = ground arith
take_out-middle (x ∷ xs) a ys d =
    let ih = take_out-middle xs a ys d.1 in let differ = NotIn-middle x xs a ys d.0 in ground arith

abbrev last_or : Option ℕ → List ℕ → Option ℕ
last_or previous [] = previous
last_or previous (x ∷ xs) = last_or (some x) xs

last_or-last? : (x : ℕ) (xs : List ℕ) → last_or (some x) xs ≡ last? (x ∷ xs)
last_or-last? x [] = refl
last_or-last? x (y ∷ xs) = last_or-last? y xs

pub last_or-none : (xs : List ℕ) → last_or none xs ≡ last? xs
last_or-none [] = refl
last_or-none (x ∷ xs) = last_or-last? x xs

pub before-middle :
    (xs : List ℕ) (previous : Option ℕ) (a : ℕ) (ys : List ℕ)
    → IsDistinct (xs ++ (a ∷ ys))
    → before (xs ++ (a ∷ ys)) previous a ≡ last_or previous xs
before-middle [] previous a ys d = ground arith
before-middle (x ∷ xs) previous a ys d =
    let ih = before-middle xs (some x) a ys d.1 in
    let differ = NotIn-middle x xs a ys d.0 in ground arith

abbrev pub sequence : TailQueue
sequence = record {
  Head = List ℕ;
  init = [];
  first = head?;
  last = last?;
  next = after;
  prev = λ q a. before q none a;
  insert_head = λ q new. new ∷ q;
  insert_tail = λ q new. q ++ (new ∷ []);
  insert_after = put_after;
  remove = take_out;
  order = λ q. q;
  order-init = refl;
  first-order = λ q. refl;
  last-order = λ q. refl;
  next-order = λ q xs a ys e d. ap (λ q. after q a) e ∙ after-middle xs a ys d;
  prev-order =
      λ q xs a ys e d. ap (λ q. before q none a) e ∙ before-middle xs none a ys d ∙ last_or-none xs;
  order-insert_head = λ q new h. refl;
  order-insert_tail = λ q new h. refl;
  order-insert_after =
      λ q xs a ys new e d h. ap (λ q. put_after q a new) e ∙ put_after-middle xs a ys new d;
  order-remove = λ q xs a ys e d. ap (λ q. take_out q a) e ∙ take_out-middle xs a ys d;
}
