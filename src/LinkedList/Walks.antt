-- ===== src/LinkedList/Walks.antt =====
-- The loops over a list of list.c: they end, and visit every item in order.
use bflib.Base.{
  ℕ, zero, suc, ◌<◌, ◌≡◌, refl, sym, ap, ◌∙◌, Bool, false, Option, none, some, List, [], ◌∷◌, ◌++◌,
  arith, length, if◌then◌else◌,
}
use mathlib.Core.List.{append_assoc}
use bflib.Run.{Run, Returns, returns, Returns-bind, Returns-if}
use bflib.TailQueue.{TailQueue, head?}
use bflib.LinkedList.{
  LinkedList, value, for_each, loop, find_from, list_find_iterator, list_find, found_value,
  list_remove_first_match, remove_found,
}
use bflib.LinkedList.Contents.{addrs, values, values-append, Cells-value, Holds}
use bflib.LinkedList.Change.{list_first-Holds, list_next-Holds, list_remove-Holds}

-- the first item that matches, and the others
abbrev pub first_match : {A : Type 0} → (A → Bool) → List A → Option A
first_match match [] = none
first_match match (x ∷ xs) = if match x then some x else first_match match xs

abbrev pub without_match : {A : Type 0} → (A → Bool) → List A → List A
without_match match [] = []
without_match match (x ∷ xs) = if match x then xs else x ∷ without_match match xs

module _ {A : Type 0} where
  pub length-values : (es : List (ℕ × A)) → length (values es) ≡ length es
  length-values [] = refl
  length-values ((a, x) ∷ es) = ap suc (length-values es)

  abbrev pub NoMatch : (A → Bool) → List (ℕ × A) → Type 0
  NoMatch match [] = Unit
  NoMatch match ((a, x) ∷ es) = (match x ≡ false) × NoMatch match es

  NoMatch-snoc :
      (match : A → Bool) (xs : List (ℕ × A)) (a : ℕ) (x : A)
      → NoMatch match xs
      → match x ≡ false
      → NoMatch match (xs ++ ((a, x) ∷ []))
  NoMatch-snoc match [] a x miss e = (e, tt)
  NoMatch-snoc match ((b, y) ∷ xs) a x (e', miss) e = (e', NoMatch-snoc match xs a x miss e)

  first_match-skip :
      (match : A → Bool) (xs ys : List (ℕ × A))
      → NoMatch match xs
      → first_match match (values (xs ++ ys)) ≡ first_match match (values ys)
  first_match-skip match [] ys miss = refl
  first_match-skip match ((a, x) ∷ xs) ys (e, miss) =
      let ih = first_match-skip match xs ys miss in ground arith

  without_match-skip :
      (match : A → Bool) (xs ys : List (ℕ × A))
      → NoMatch match xs
      → without_match match (values (xs ++ ys)) ≡ values xs ++ without_match match (values ys)
  without_match-skip match [] ys miss = refl
  without_match-skip match ((a, x) ∷ xs) ys (e, miss) =
      let ih = without_match-skip match xs ys miss in ground arith

  -- where list_find_iterator stops
  abbrev pub FoundAt : (A → Bool) → List (ℕ × A) → Option ℕ → Type 0
  FoundAt match es none =
      (first_match match (values es) ≡ none) × (without_match match (values es) ≡ values es)
  FoundAt match es (some a) =
      (before after : List (ℕ × A)) × (x : A) × (es ≡ before ++ ((a, x) ∷ after))
      × (first_match match (values es) ≡ some x)
      × (without_match match (values es) ≡ values (before ++ after))

-- the items of a list in order
abbrev pub Contains : {queue : TailQueue} {A : Type 0} → LinkedList queue A → List A → Type 0
Contains {A = A} list xs = (es : List (ℕ × A)) × Holds list es × (values es ≡ xs)

module _ {queue : TailQueue} {A : Type 0} where
  -- `I rest s`: what holds of the variables with the items of `rest` left
  for_each-Returns :
      {S : Type 0} (I : List A → S → Type 0) (list : LinkedList queue A) (body : ℕ → S → Run S)
      → ((a : ℕ) (x : A) (rest : List A) (s : S)
          → list.item a ≡ some x
          → I (x ∷ rest) s
          → Returns (I rest) (body a s))
      → (fuel : ℕ) (xs ys : List (ℕ × A)) (s : S) → Holds list (xs ++ ys)
      → length ys < fuel
      → I (values ys) s
      → Returns (I []) (for_each fuel list (head? (addrs ys)) body s)
  unfolding for_each
  for_each-Returns I list body keep zero xs ys s h l i = absurd (omega arith)
  for_each-Returns I list body keep (suc fuel) xs [] s h l i = returns i
  for_each-Returns I list body keep (suc fuel) xs ((a, x) ∷ ys) s h l i =
      Returns-bind (keep a x (values ys) s (Cells-value list.item list.fresh xs a x ys h.cells) i)
        (λ s' i'. rw (list_next-Holds list xs a x ys h) (
          for_each-Returns I list body keep fuel (xs ++ ((a, x) ∷ [])) ys s'
            (rw (append_assoc xs ((a, x) ∷ []) ys) h) (omega arith) i'))

  pub loop-Returns :
      {S : Type 0} (I : List A → S → Type 0) (list : LinkedList queue A) (body : ℕ → S → Run S)
      → ((a : ℕ) (x : A) (rest : List A) (s : S)
          → list.item a ≡ some x
          → I (x ∷ rest) s
          → Returns (I rest) (body a s))
      → (es : List (ℕ × A)) (s : S) → Holds list es
      → I (values es) s
      → Returns (I []) (loop list body s)
  loop-Returns I list body keep es s h i =
      let count = h.count in
      rw (list_first-Holds list es h)
        (for_each-Returns I list body keep (suc list.fresh) [] es s h (omega arith) i)

  find_from-FoundAt :
      (list : LinkedList queue A) (match : A → Bool) (fuel : ℕ) (xs ys : List (ℕ × A))
      → Holds list (xs ++ ys)
      → length ys < fuel
      → NoMatch match xs
      → Returns (FoundAt match (xs ++ ys)) (find_from fuel list (head? (addrs ys)) match)
  unfolding find_from
  find_from-FoundAt list match zero xs ys h l miss = absurd (omega arith)
  find_from-FoundAt list match (suc fuel) xs [] h l miss = returns (
    first_match-skip match xs [] miss,
    without_match-skip match xs [] miss ∙ sym (values-append xs []),
  )
  find_from-FoundAt list match (suc fuel) xs ((a, x) ∷ ys) h l miss =
      rw (Cells-value list.item list.fresh xs a x ys h.cells, value)
        (Returns-if (match x)
          (λ e. returns (
            xs,
            ys,
            x,
            refl,
            first_match-skip match xs ((a, x) ∷ ys) miss ∙ rw (e, first_match) refl,
            without_match-skip match xs ((a, x) ∷ ys) miss
                ∙ rw (e, without_match) (sym (values-append xs ys)),
          ))
          (λ e.
            let regroup = append_assoc xs ((a, x) ∷ []) ys in
            rw (list_next-Holds list xs a x ys h, sym regroup)
              (find_from-FoundAt list match fuel (xs ++ ((a, x) ∷ [])) ys (rw regroup h)
                (omega arith) (NoMatch-snoc match xs a x miss e))))

  pub list_find_iterator-FoundAt :
      (list : LinkedList queue A) (match : A → Bool) (es : List (ℕ × A))
      → Holds list es
      → Returns (FoundAt match es) (list_find_iterator list match)
  unfolding list_find_iterator
  list_find_iterator-FoundAt list match es h =
      let count = h.count in
      rw (list_first-Holds list es h)
        (find_from-FoundAt list match (suc list.fresh) [] es h (omega arith) tt)

  remove_found-Returns :
      (list : LinkedList queue A) (match : A → Bool) (es : List (ℕ × A)) (found : Option ℕ)
      → Holds list es
      → FoundAt match es found
      → Returns
          (λ r.
            (r.0 ≡ first_match match (values es)) × Contains r.1 (without_match match (values es)))
          (remove_found list found)
  unfolding remove_found
  remove_found-Returns list match es none h (first, rest) = returns (sym first, (es, h, sym rest))
  remove_found-Returns list match es (some a) h (before, after, x, e, first, rest) =
      Returns-bind (list_remove-Holds list before a x after (rw e at h))
        (λ r (same, h'). returns (ap some same ∙ sym first, (before ++ after, h', sym rest)))

  found_value-Returns :
      (list : LinkedList queue A) (match : A → Bool) (es : List (ℕ × A)) (found : Option ℕ)
      → Holds list es
      → FoundAt match es found
      → Returns (λ r. r ≡ first_match match (values es)) (found_value list found)
  unfolding found_value
  found_value-Returns list match es none h (first, rest) = returns (sym first)
  found_value-Returns list match es (some a) h (before, after, x, e, first, rest) =
      let h' : Holds list (before ++ ((a, x) ∷ after)) = rw e at h in
      rw (Cells-value list.item list.fresh before a x after h'.cells, value) (returns (sym first))

  -- On a list that contains `xs`, list_find returns the first item of `xs` that matches, and
  -- list_remove_first_match the same one, leaving a list that contains the others in their order;
  -- both return NULL if no item matches, and the list then stays.
  pub list_remove_first_match_lem :
      (list : LinkedList queue A) (match : A → Bool) (xs : List A)
      → Contains list xs
      → Returns (λ r. r ≡ first_match match xs) (list_find list match)
        × Returns
            (λ r. (r.0 ≡ first_match match xs) × Contains r.1 (without_match match xs))
            (list_remove_first_match list match)
  unfolding list_find list_remove_first_match
  list_remove_first_match_lem list match xs (es, h, e) = (
    Returns-bind (list_find_iterator-FoundAt list match es h)
        (λ found at. rw (sym e) (found_value-Returns list match es found h at)),
    Returns-bind (list_find_iterator-FoundAt list match es h)
        (λ found at. rw (sym e) (remove_found-Returns list match es found h at)),
  )
