-- ===== src/Tree/Sorted/Map.antt =====
-- The tree of tree.c as a sorted map: tree_find, tree_insert and the folds as operations on the
-- list of entries.
use Prim.Native.Nat.{Ordering}
use bflib.Base.{length, ◌+◌, ◌≡◌, ◌≢◌, refl, sym, ap, ◌∙◌, Option, none, some, List, []}
use bflib.Run.{Returns, returns, Returns-map, Returns-bind}
use bflib.Tree.{
  red, TreeNode, null, node, Frame, Tree, zip, tree_insert1, find_loop, tree_find, insert_place,
  tree_insert, insert_at,
}
use bflib.Tree.Balance.{IsTree, entries, IsRooted}
use bflib.Tree.Insert.{tree_insert1-Mended}
use bflib.Tree.Sorted.{
  IsOrder, lookup, insert_entry, IsSorted, insert_entry-IsSorted, lookup-insert_entry, lookup-other,
  value_or,
}
use bflib.Tree.Sorted.Walk.{
  find_loop-lookup, insert_leaf, insert_leaf-entries, insert_place-found, insert_place-zip,
  insert_place-FitsAround, length-insert_leaf, insert_leaf-found,
}

module _ {K V : Type 0} (cmp : K → K → Ordering) where
  place-Mended :
      (key : K) (value : V) (root : TreeNode K V)
      → IsRooted root
      → find_loop cmp key root ≡ none
      → Returns
          (λ t. IsRooted t × (entries t ≡ entries (insert_leaf cmp key value root)))
          (tree_insert1 (insert_place cmp key root []).1 (node red null key value null))
  unfolding zip
  place-Mended key value root h absent =
      Returns-map
        (tree_insert1-Mended (insert_place cmp key root []).1 null key value null
          (tt, tt, refl, (refl, refl)) (insert_place-FitsAround cmp key root [] h.0 h.1 absent))
        (λ t (rooted, same).
          (rooted, same ∙ ap entries (insert_place-zip cmp key value root [] absent)))

  insert_at-Returns :
      {Q : V × Tree K V → Type 0} (tree : Tree K V) (key : K) (value : V)
      (place : Option V × List (Frame K V))
      → ((old : V) → place.0 ≡ some old → Q (old, tree))
      → (place.0 ≡ none
          → Returns
              (λ root. Q (value, record { root = root; size = tree.size + 1 }))
              (tree_insert1 place.1 (node red null key value null)))
      → Returns Q (insert_at cmp tree key value place)
  unfolding insert_at
  insert_at-Returns tree key value (some old, path) found absent = returns (found old refl)
  insert_at-Returns tree key value (none, path) found absent =
      Returns-bind (absent refl) (λ root q. returns q)

  -- the call, with the new entries as those of an insertion below a node
  tree_insert-Returns :
      (tree : Tree K V) (key : K) (value : V)
      → IsTree tree
      → Returns
          (λ r.
            IsTree r.1
            × (entries r.1.root ≡ entries (insert_leaf cmp key value tree.root))
            × (r.0 ≡ value_or value (find_loop cmp key tree.root)))
          (tree_insert cmp tree key value)
  unfolding tree_insert
  tree_insert-Returns tree key value (rooted, counted) =
      let walk = insert_place-found cmp key tree.root [] in
      insert_at-Returns tree key value (insert_place cmp key tree.root [])
        (λ old e.
          let found = sym walk ∙ e in
          (
            (rooted, counted),
            ap entries (sym (insert_leaf-found cmp key value old tree.root found)),
            ap (value_or value) (sym found),
          ))
        (λ e.
          let absent = sym walk ∙ e in
          Returns-map (place-Mended key value tree.root rooted absent) (λ root (rooted', same). (
            (
              rooted',
              ap (λ n. n + 1) counted
                  ∙ sym (length-insert_leaf cmp key value tree.root absent)
                  ∙ ap length (sym same),
            ),
            same,
            ap (value_or value) (sym absent),
          )))

  tree_find-inserted :
      IsOrder cmp
      → (key : K) (value : V) (root root' : TreeNode K V) (k : K) → IsSorted cmp (entries root)
      → entries root' ≡ insert_entry cmp key value (entries root)
      → find_loop cmp k root' ≡ lookup cmp k (insert_entry cmp key value (entries root))
  tree_find-inserted order key value root root' k s es =
      find_loop-lookup cmp order k root'
        (rw es (insert_entry-IsSorted cmp order key value (entries root) s))
      ∙ ap (lookup cmp k) es

  -- Whatever the comparison function does, tree_insert on a red-black tree with a black root
  -- returns, without a fault, another such tree, and its size is again the number of its entries.
  pub tree_insert-IsTree :
      (tree : Tree K V) (key : K) (value : V)
      → IsTree tree
      → Returns (λ r. IsTree r.1) (tree_insert cmp tree key value)
  tree_insert-IsTree tree key value h =
      Returns-map (tree_insert-Returns tree key value h) (λ r q. q.0)

  -- On a red-black tree whose entries are sorted by a total order on keys, tree_insert does to the
  -- entries what the insertion into a sorted list does: a new key gets an entry at its place, a
  -- key that is there keeps its entry, and the entries stay sorted. It returns the value that the
  -- key has afterwards.
  pub tree_insert-entries :
      IsOrder cmp
      → (tree : Tree K V) (key : K) (value : V) → IsTree tree
      → IsSorted cmp (entries tree.root)
      → Returns
          (λ r.
            (entries r.1.root ≡ insert_entry cmp key value (entries tree.root))
            × IsSorted cmp (entries r.1.root)
            × (some r.0 ≡ lookup cmp key (entries r.1.root)))
          (tree_insert cmp tree key value)
  tree_insert-entries order tree key value h s =
      Returns-map (tree_insert-Returns tree key value h) (λ r (valid, same, result).
        let es = same ∙ insert_leaf-entries cmp order key value tree.root s in
        let value' = result ∙ ap (value_or value) (find_loop-lookup cmp order key tree.root s) in
        let after = lookup-insert_entry cmp order key value (entries tree.root) s in
        (
          es,
          rw es (insert_entry-IsSorted cmp order key value (entries tree.root) s),
          ap some value' ∙ sym after ∙ ap (lookup cmp key) (sym es),
        ))

  -- In a tree whose entries are sorted by a total order on keys, tree_find gives what the lookup
  -- in the list of entries gives, NULL for an absent key included.
  pub tree_find-lookup :
      IsOrder cmp
      → (tree : Tree K V) (key : K) → IsSorted cmp (entries tree.root)
      → tree_find cmp tree key ≡ lookup cmp key (entries tree.root)
  unfolding tree_find
  tree_find-lookup order tree key s = find_loop-lookup cmp order key tree.root s

  -- After an insertion, tree_find gives the value that the insertion returned for its key, and for
  -- every other key what it gave before.
  pub tree_find-tree_insert :
      IsOrder cmp
      → (tree : Tree K V) (key : K) (value : V) → IsTree tree
      → IsSorted cmp (entries tree.root)
      → Returns
          (λ r.
            (tree_find cmp r.1 key ≡ some r.0)
            × (r.0 ≡ value_or value (tree_find cmp tree key))
            × ((other : K)
                → cmp other key ≢ Ordering.eq
                → tree_find cmp r.1 other ≡ tree_find cmp tree other))
          (tree_insert cmp tree key value)
  unfolding tree_find
  tree_find-tree_insert order tree key value h s =
      Returns-map (tree_insert-Returns tree key value h) (λ r (valid, same, result).
        let es = same ∙ insert_leaf-entries cmp order key value tree.root s in
        let s' = insert_entry-IsSorted cmp order key value (entries tree.root) s in
        let find = λ (k : K). tree_find-inserted order key value tree.root r.1.root k s es in
        (
          find key
              ∙ lookup-insert_entry cmp order key value (entries tree.root) s
              ∙ ap (λ v. some (value_or value v)) (sym (find_loop-lookup cmp order key tree.root s))
              ∙ ap some (sym result),
          result,
          λ other differ.
              find other
              ∙ lookup-other cmp other key value (entries tree.root) differ
              ∙ sym (find_loop-lookup cmp order other tree.root s),
        ))
