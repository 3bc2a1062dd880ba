-- ===== src/Tree/Info/Counts.antt =====
-- What tree_info counts (tree.c): the nodes of each colour, and the longest and the shortest way down.
use mathlib.Core.List.{Mem, map, mem-map_of_mem, mem-append_left, mem-append_right, mem-cons_self}
use bflib.Base.{
  ℕ, suc, ◌+◌, ◌*◌, ◌≤◌, ◌≡◌, inl, inr, refl, Bool-cases, List, [], ◌∷◌, ◌++◌, All, arith, ltb, leb,
  length, length-append,
}
use bflib.Tree.{Color, red, black, TreeNode, null, node, Tree}
use bflib.Tree.Balance.{black_height, entries, IsRooted}
use bflib.Tree.Info.{taller, shorter, tree_node_info, tree_info}
use bflib.Tree.Info.Integrity.{info-black_height, is_black-count, info-heights}

-- the numbers of nodes on the ways from the root down to each place with no node
module _ {K V : Type 0} where
  abbrev pub depths : TreeNode K V → List ℕ
  depths null = 0 ∷ []
  depths (node c l k v r) = map suc (depths l ++ depths r)

  -- the colours of the nodes, in the order of the entries
  abbrev pub colors : TreeNode K V → List Color
  colors null = []
  colors (node c l k v r) = colors l ++ (c ∷ colors r)

abbrev pub reds : List Color → ℕ
reds [] = 0
reds (red ∷ cs) = suc (reds cs)
reds (black ∷ cs) = reds cs

abbrev pub blacks : List Color → ℕ
blacks [] = 0
blacks (red ∷ cs) = blacks cs
blacks (black ∷ cs) = suc (blacks cs)

reds-append : (cs ds : List Color) → reds (cs ++ ds) ≡ reds cs + reds ds
reds-append [] ds = omega arith
reds-append (red ∷ cs) ds = omega (arith, reds-append cs ds)
reds-append (black ∷ cs) ds = reds-append cs ds

blacks-append : (cs ds : List Color) → blacks (cs ++ ds) ≡ blacks cs + blacks ds
blacks-append [] ds = omega arith
blacks-append (red ∷ cs) ds = blacks-append cs ds
blacks-append (black ∷ cs) ds = omega (arith, blacks-append cs ds)

-- the greatest and the least of some numbers
abbrev pub IsGreatest : ℕ → List ℕ → Type 0
IsGreatest n ns = Mem n ns × All (λ m. m ≤ n) ns

abbrev pub IsLeast : ℕ → List ℕ → Type 0
IsLeast n ns = Mem n ns × All (λ m. n ≤ m) ns

All-append : (P : ℕ → Type 0) (xs ys : List ℕ) → All P xs → All P ys → All P (xs ++ ys)
All-append P [] ys all all' = all'
All-append P (x ∷ xs) ys (h, all) all' = (h, All-append P xs ys all all')

map-suc-le : (n : ℕ) (ns : List ℕ) → All (λ m. m ≤ n) ns → All (λ m. m ≤ suc n) (map suc ns)
map-suc-le n [] all = tt
map-suc-le n (m ∷ ns) (h, all) = (omega arith, map-suc-le n ns all)

map-suc-ge : (n : ℕ) (ns : List ℕ) → All (λ m. n ≤ m) ns → All (λ m. suc n ≤ m) (map suc ns)
map-suc-ge n [] all = tt
map-suc-ge n (m ∷ ns) (h, all) = (omega arith, map-suc-ge n ns all)

All-le : (n n' : ℕ) (ns : List ℕ) → n ≤ n' → All (λ m. m ≤ n) ns → All (λ m. m ≤ n') ns
All-le n n' [] h all = tt
All-le n n' (m ∷ ns) h (here, all) = (omega arith, All-le n n' ns h all)

All-ge : (n n' : ℕ) (ns : List ℕ) → n' ≤ n → All (λ m. n ≤ m) ns → All (λ m. n' ≤ m) ns
All-ge n n' [] h all = tt
All-ge n n' (m ∷ ns) h (here, all) = (omega arith, All-ge n n' ns h all)

taller-IsGreatest :
    (a b : ℕ) (xs ys : List ℕ)
    → IsGreatest a xs
    → IsGreatest b ys
    → IsGreatest (taller a b) (map suc (xs ++ ys))
taller-IsGreatest a b xs ys (ma, la) (mb, lb) = elim (Bool-cases (ltb b a)) [
  | inl e ↦
      let most : taller a b ≡ suc a = ground arith in
      rw most (
        mem-map_of_mem suc (mem-append_left ys ma),
        map-suc-le a (xs ++ ys)
            (All-append (λ m. m ≤ a) xs ys la (All-le b a ys (ground arith) lb)),
      )
  | inr e ↦
      let most : taller a b ≡ suc b = ground arith in
      rw most (
        mem-map_of_mem suc (mem-append_right xs mb),
        map-suc-le b (xs ++ ys)
            (All-append (λ m. m ≤ b) xs ys (All-le a b xs (ground arith) la) lb),
      )
]

shorter-IsLeast :
    (a b : ℕ) (xs ys : List ℕ)
    → IsLeast a xs
    → IsLeast b ys
    → IsLeast (shorter a b) (map suc (xs ++ ys))
shorter-IsLeast a b xs ys (ma, la) (mb, lb) = elim (Bool-cases (leb a b)) [
  | inl e ↦
      let least : shorter a b ≡ suc a = ground arith in
      rw least (
        mem-map_of_mem suc (mem-append_left ys ma),
        map-suc-ge a (xs ++ ys)
            (All-append (λ m. a ≤ m) xs ys la (All-ge b a ys (ground arith) lb)),
      )
  | inr e ↦
      let least : shorter a b ≡ suc b = ground arith in
      rw least (
        mem-map_of_mem suc (mem-append_right xs mb),
        map-suc-ge b (xs ++ ys)
            (All-append (λ m. b ≤ m) xs ys (All-ge a b xs (ground arith) la) lb),
      )
]

module _ {K V : Type 0} where
  info-heights-exact :
      (t : TreeNode K V)
      → IsGreatest (tree_node_info t).height (depths t)
        × IsLeast (tree_node_info t).min_height (depths t)
  unfolding tree_node_info
  info-heights-exact null = ((mem-cons_self, omega arith), (mem-cons_self, omega arith))
  info-heights-exact (node c l k v r) =
      let (tall_l, short_l) = info-heights-exact l in
      let (tall_r, short_r) = info-heights-exact r in
      (
        taller-IsGreatest (tree_node_info l).height (tree_node_info r).height (depths l) (depths r)
            tall_l tall_r,
        shorter-IsLeast (tree_node_info l).min_height (tree_node_info r).min_height (depths l)
            (depths r) short_l short_r,
      )

  info-numbers :
      (t : TreeNode K V)
      → ((tree_node_info t).size ≡ length (entries t))
        × ((tree_node_info t).red_number ≡ reds (colors t))
        × ((tree_node_info t).black_number ≡ blacks (colors t))
  unfolding tree_node_info
  info-numbers null = (refl, refl, refl)
  info-numbers (node red l k v r) =
      let (sl, rl, bl) = info-numbers l in
      let (sr, rr, br) = info-numbers r in
      (
        omega (arith, sl, sr, length-append (entries l) ((k, v) ∷ entries r)),
        omega (arith, rl, rr, reds-append (colors l) (red ∷ colors r)),
        omega (arith, bl, br, blacks-append (colors l) (red ∷ colors r)),
      )
  info-numbers (node black l k v r) =
      let (sl, rl, bl) = info-numbers l in
      let (sr, rr, br) = info-numbers r in
      (
        omega (arith, sl, sr, length-append (entries l) ((k, v) ∷ entries r)),
        omega (arith, rl, rr, reds-append (colors l) (black ∷ colors r)),
        omega (arith, bl, br, blacks-append (colors l) (black ∷ colors r)),
      )

  -- On a red-black tree with a black root, tree_info gives the number of the entries, the numbers of
  -- the red and of the black nodes, the greatest and the least number of nodes on a way from the root
  -- down to where no node is, and the black height; the greatest is at most twice the black height,
  -- and the least is not below it.
  pub tree_info_lem :
      (tree : Tree K V)
      → IsRooted tree.root
      → ((tree_info tree).size ≡ length (entries tree.root))
        × ((tree_info tree).red_number ≡ reds (colors tree.root))
        × ((tree_info tree).black_number ≡ blacks (colors tree.root))
        × IsGreatest (tree_info tree).height (depths tree.root)
        × IsLeast (tree_info tree).min_height (depths tree.root)
        × ((tree_info tree).black_height ≡ black_height tree.root)
        × ((tree_info tree).height ≤ 2 * black_height tree.root)
        × (black_height tree.root ≤ (tree_info tree).min_height)
  unfolding tree_info
  tree_info_lem tree (h, b) =
      let (size, red_number, black_number) = info-numbers tree.root in
      let (greatest, least) = info-heights-exact tree.root in
      let (most, enough) = info-heights tree.root h in
      let zero_red = is_black-count tree.root b in
      (
        size,
        red_number,
        black_number,
        greatest,
        least,
        info-black_height tree.root h,
        omega arith,
        omega arith,
      )
