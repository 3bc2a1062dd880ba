-- ===== src/Tree/Sorted.antt =====
-- Sorted lists of entries: the abstract view of a tree of tree.c, with its lookup and insertion.
pub mod Map
pub mod Walk
pub mod Removal
use Prim.Native.Nat.{Ordering}
use bflib.Base.{
  ◌≡◌, ◌≢◌, refl, ap, ◌∙◌, Option, none, some, List, [], ◌∷◌, ◌++◌, ◌⊎◌, inl, inr, arith,
  Ordering-cases,
}

abbrev pub swap : Ordering → Ordering
swap Ordering.lt = Ordering.gt
swap Ordering.eq = Ordering.eq
swap Ordering.gt = Ordering.lt

-- what the tree relies on in the caller's `cmp`
pub record IsOrder {K : Type 0} (cmp : K → K → Ordering) : Type 0 where
  pub flip : (a b : K) → cmp b a ≡ swap (cmp a b)
  pub trans : (a b c : K) → cmp a b ≡ Ordering.lt → cmp b c ≡ Ordering.lt → cmp a c ≡ Ordering.lt
  pub same : (a b c : K) → cmp a b ≡ Ordering.eq → cmp a c ≡ cmp b c

cmp_refl :
    {K : Type 0} (cmp : K → K → Ordering) → IsOrder cmp → (key : K) → cmp key key ≡ Ordering.eq
cmp_refl cmp order key =
    let turned = order.flip key key in
    elim (Ordering-cases (cmp key key)) [
      | inl less ↦ ground arith
      | inr (inl same) ↦ same
      | inr (inr more) ↦ ground arith
    ]

abbrev pub value_or : {V : Type 0} → V → Option V → V
value_or value none = value
value_or value (some old) = old

module _ {K V : Type 0} (cmp : K → K → Ordering) where
  -- the value under a key
  pub lookup : K → List (K × V) → Option V
  lookup key [] = none
  lookup key ((k, v) ∷ es) = elim (cmp key k) [
    | Ordering.eq ↦ some v
    | Ordering.lt ↦ lookup key es
    | Ordering.gt ↦ lookup key es
  ]

  -- a new key goes before the first greater one, and the entry of a key that is there stays
  pub insert_entry : K → V → List (K × V) → List (K × V)
  insert_entry key value [] = (key, value) ∷ []
  insert_entry key value ((k, v) ∷ es) = elim (cmp key k) [
    | Ordering.lt ↦ (key, value) ∷ (k, v) ∷ es
    | Ordering.eq ↦ (k, v) ∷ es
    | Ordering.gt ↦ (k, v) ∷ insert_entry key value es
  ]

  -- the keys are greater than `k`
  abbrev pub Above : K → List (K × V) → Type 0
  Above k [] = Unit
  Above k ((k', v) ∷ es) = (cmp k k' ≡ Ordering.lt) × Above k es

  -- the keys are less than `k`
  abbrev pub Below : List (K × V) → K → Type 0
  Below [] k = Unit
  Below ((k', v) ∷ es) k = (cmp k' k ≡ Ordering.lt) × Below es k

  abbrev pub IsSorted : List (K × V) → Type 0
  IsSorted [] = Unit
  IsSorted ((k, v) ∷ es) = Above k es × IsSorted es

  Above-split :
      (k : K) (xs : List (K × V)) (key : K) (value : V) (ys : List (K × V))
      → Above k (xs ++ ((key, value) ∷ ys))
      → Above k xs × (cmp k key ≡ Ordering.lt)
  Above-split k [] key value ys h = (tt, h.0)
  Above-split k (x ∷ xs) key value ys h =
      let (above, less) = Above-split k xs key value ys h.1 in ((h.0, above), less)

  -- the parts of a sorted list around one entry
  pub IsSorted-split :
      (xs : List (K × V)) (key : K) (value : V) (ys : List (K × V))
      → IsSorted (xs ++ ((key, value) ∷ ys))
      → IsSorted xs × Below xs key × Above key ys × IsSorted ys
  IsSorted-split [] key value ys h = (tt, tt, h.0, h.1)
  IsSorted-split ((k, v) ∷ xs) key value ys h =
      let (above, less) = Above-split k xs key value ys h.0 in
      let (s, b, a, t) = IsSorted-split xs key value ys h.1 in ((above, s), (less, b), a, t)

  lookup-Above :
      IsOrder cmp
      → (key k : K) (es : List (K × V)) → cmp key k ≡ Ordering.lt
      → Above k es
      → lookup key es ≡ none
  unfolding lookup
  lookup-Above order key k [] e h = refl
  lookup-Above order key k ((k', v) ∷ es) e h =
      let ih = lookup-Above order key k es e h.1 in
      let less = order.trans key k k' e h.0 in ground arith

  -- a key that is less than an entry's is not after that entry
  pub lookup-lt :
      IsOrder cmp
      → (key k : K) (v : V) (xs ys : List (K × V)) → cmp key k ≡ Ordering.lt
      → Above k ys
      → lookup key (xs ++ ((k, v) ∷ ys)) ≡ lookup key xs
  unfolding lookup
  lookup-lt order key k v [] ys e h = let ih = lookup-Above order key k ys e h in ground arith
  lookup-lt order key k v ((k', v') ∷ xs) ys e h =
      let ih = lookup-lt order key k v xs ys e h in ground arith

  -- a key that is greater than the first entries' is not among them
  pub lookup-Below :
      IsOrder cmp
      → (key : K) (xs es : List (K × V)) → Below xs key
      → lookup key (xs ++ es) ≡ lookup key es
  unfolding lookup
  lookup-Below order key [] es h = refl
  lookup-Below order key ((k', v') ∷ xs) es h =
      let ih = lookup-Below order key xs es h.1 in
      let greater = order.flip k' key in let less = h.0 in ground arith

  pub insert_entry-lt :
      (key : K) (value : V) (k : K) (v : V) (xs ys : List (K × V))
      → cmp key k ≡ Ordering.lt
      → insert_entry key value (xs ++ ((k, v) ∷ ys)) ≡ insert_entry key value xs ++ ((k, v) ∷ ys)
  unfolding insert_entry
  insert_entry-lt key value k v [] ys e = ground arith
  insert_entry-lt key value k v ((k', v') ∷ xs) ys e =
      let ih = insert_entry-lt key value k v xs ys e in ground arith

  pub insert_entry-Below :
      IsOrder cmp
      → (key : K) (value : V) (xs es : List (K × V)) → Below xs key
      → insert_entry key value (xs ++ es) ≡ xs ++ insert_entry key value es
  unfolding insert_entry
  insert_entry-Below order key value [] es h = refl
  insert_entry-Below order key value ((k', v') ∷ xs) es h =
      let ih = insert_entry-Below order key value xs es h.1 in
      let greater = order.flip k' key in let less = h.0 in ground arith

  Above-insert_entry :
      (k key : K) (value : V) (es : List (K × V))
      → cmp k key ≡ Ordering.lt
      → Above k es
      → Above k (insert_entry key value es)
  unfolding insert_entry
  Above-insert_entry k key value [] e h = (e, tt)
  Above-insert_entry k key value ((k', v') ∷ es) e h =
      let ih = Above-insert_entry k key value es e h.1 in
      elim (Ordering-cases (cmp key k')) [
        | inl less ↦ rw (less, Above) (e, h)
        | inr (inl same) ↦ rw (same, Above) h
        | inr (inr more) ↦ rw (more, Above) (h.0, ih)
      ]

  Above-trans :
      IsOrder cmp
      → (key k : K) (es : List (K × V)) → cmp key k ≡ Ordering.lt
      → Above k es
      → Above key es
  Above-trans order key k [] e h = tt
  Above-trans order key k ((k', v) ∷ es) e h =
      (order.trans key k k' e h.0, Above-trans order key k es e h.1)

  -- the insertion keeps the list sorted
  pub insert_entry-IsSorted :
      IsOrder cmp
      → (key : K) (value : V) (es : List (K × V)) → IsSorted es
      → IsSorted (insert_entry key value es)
  unfolding insert_entry
  insert_entry-IsSorted order key value [] h = (tt, tt)
  insert_entry-IsSorted order key value ((k, v) ∷ es) (h, t) =
      let ih = insert_entry-IsSorted order key value es t in
      elim (Ordering-cases (cmp key k)) [
        | inl less ↦ rw (less, IsSorted) ((less, Above-trans order key k es less h), (h, t))
        | inr (inl same) ↦ rw (same, IsSorted) (h, t)
        | inr (inr more) ↦
            rw (more, IsSorted)
              (Above-insert_entry k key value es (order.flip key k ∙ ap swap more) h, ih)
      ]

  -- the lookup of an inserted key: the value that was there, or the new one
  pub lookup-insert_entry :
      IsOrder cmp
      → (key : K) (value : V) (es : List (K × V)) → IsSorted es
      → lookup key (insert_entry key value es) ≡ some (value_or value (lookup key es))
  unfolding lookup insert_entry
  lookup-insert_entry order key value [] h = let same = cmp_refl cmp order key in ground arith
  lookup-insert_entry order key value ((k, v) ∷ es) (h, t) =
      let same = cmp_refl cmp order key in
      let ih = lookup-insert_entry order key value es t in
      let absent = lookup-Above order key k es in ground arith

  -- the lookup of another key does not change
  pub lookup-other :
      (other key : K) (value : V) (es : List (K × V))
      → cmp other key ≢ Ordering.eq
      → lookup other (insert_entry key value es) ≡ lookup other es
  unfolding lookup insert_entry
  lookup-other other key value [] differ = ground arith
  lookup-other other key value ((k, v) ∷ es) differ =
      let ih = lookup-other other key value es differ in ground arith
