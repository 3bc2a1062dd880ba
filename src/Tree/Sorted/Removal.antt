-- ===== src/Tree/Sorted/Removal.antt =====
-- The removal of an entry from a sorted list of entries: the abstract view of tree_delete (tree.c).
use Prim.Native.Nat.{Ordering}
use bflib.Base.{Ordering-cases, ◌≡◌, refl, none, List, [], ◌∷◌, ◌++◌, arith, inl, inr}
use bflib.Tree.Sorted.{IsOrder, lookup, IsSorted, Above, Below}

module _ {K V : Type 0} (cmp : K → K → Ordering) where
  -- the entry under the key, if any, goes
  pub delete_entry : K → List (K × V) → List (K × V)
  delete_entry key [] = []
  delete_entry key ((k, v) ∷ es) = elim (cmp key k) [
    | Ordering.eq ↦ es
    | Ordering.lt ↦ (k, v) ∷ delete_entry key es
    | Ordering.gt ↦ (k, v) ∷ delete_entry key es
  ]

  pub delete_entry-absent :
      (key : K) (es : List (K × V)) → lookup cmp key es ≡ none → delete_entry key es ≡ es
  unfolding delete_entry lookup
  delete_entry-absent key [] e = refl
  delete_entry-absent key ((k, v) ∷ es) e = let ih = delete_entry-absent key es in ground arith

  pub delete_entry-split :
      IsOrder cmp
      → (key k : K) (v : V) (xs ys : List (K × V)) → cmp key k ≡ Ordering.eq
      → Below cmp xs key
      → delete_entry key (xs ++ ((k, v) ∷ ys)) ≡ xs ++ ys
  unfolding delete_entry
  delete_entry-split order key k v [] ys e below = ground arith
  delete_entry-split order key k v ((k', v') ∷ xs) ys e (less, below) =
      let ih = delete_entry-split order key k v xs ys e below in
      let turned = order.flip k' key in ground arith

  Above-delete_entry :
      (k key : K) (es : List (K × V)) → Above cmp k es → Above cmp k (delete_entry key es)
  unfolding delete_entry
  Above-delete_entry k key [] h = tt
  Above-delete_entry k key ((k', v) ∷ es) (less, h) =
      let ih = Above-delete_entry k key es h in
      elim (Ordering-cases (cmp key k')) [
        | inl e ↦ rw (e, Above) (less, ih)
        | inr (inl e) ↦ rw (e, Above) h
        | inr (inr e) ↦ rw (e, Above) (less, ih)
      ]

  pub delete_entry-IsSorted :
      (key : K) (es : List (K × V)) → IsSorted cmp es → IsSorted cmp (delete_entry key es)
  unfolding delete_entry
  delete_entry-IsSorted key [] h = tt
  delete_entry-IsSorted key ((k, v) ∷ es) (above, h) =
      let ih = delete_entry-IsSorted key es h in
      let above' = Above-delete_entry k key es above in
      elim (Ordering-cases (cmp key k)) [
        | inl e ↦ rw (e, IsSorted) (above', ih)
        | inr (inl e) ↦ rw (e, IsSorted) h
        | inr (inr e) ↦ rw (e, IsSorted) (above', ih)
      ]
