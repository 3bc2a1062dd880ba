-- ===== src/Heap/Order.antt =====
-- The heap order, and how an exchange along an edge changes it (heap.c).
use Prim.Native.Nat.{Ordering}
use bflib.Base.{ℕ, zero, suc, ◌+◌, ◌*◌, ◌≤◌, ◌<◌, ◌≡◌, ◌≢◌, ◌⊎◌, true, false, arith}
use bflib.Heap.{parent_pos, is_neg, is_pos, update}

-- the comparison puts `x` no later than `y`
abbrev pub Le : {A : Type 0} → (A → A → Ordering) → A → A → Type 0
Le cmp x y = is_pos (cmp x y) ≡ false

-- What a heap asks of its comparison function: the sign turns round with the arguments, and the
-- order is transitive. Different items may compare equal.
pub record IsPreorder {A : Type 0} (cmp : A → A → Ordering) : Type 0 where
  pub flip : (x y : A) → is_pos (cmp x y) ≡ is_neg (cmp y x)
  pub trans : (x y z : A) → Le cmp x y → Le cmp y z → Le cmp x z

-- the memory after the exchange of two cells
abbrev pub swapped {ℓ} : {B : Type ℓ} → (ℕ → B) → ℕ → ℕ → ℕ → B
swapped f a b = update (update f a (f b)) b (f a)

module _ {A : Type 0} (cmp : A → A → Ordering) where
  -- every edge whose parent is at `lo` or later is in order
  abbrev pub IsHeapFrom : ℕ → (ℕ → A) → ℕ → Type 0
  IsHeapFrom lo f n = (c : ℕ) → 0 < c → c < n → lo ≤ parent_pos c → Le cmp (f (parent_pos c)) (f c)

  -- the edges past `i`, from its parent to its children, are in order
  abbrev pub IsBridged : ℕ → (ℕ → A) → ℕ → ℕ → Type 0
  IsBridged lo f n i =
      (c : ℕ)
      → 0 < c
      → c < n
      → parent_pos c ≡ i
      → 0 < i
      → lo ≤ parent_pos i
      → Le cmp (f (parent_pos i)) (f c)

  -- only the edge above `i` may be out of order
  pub record UpInv (f : ℕ → A) (n i : ℕ) : Type 0 where
    pub inside : i < n
    pub edges : (c : ℕ) → 0 < c → c < n → c ≢ i → Le cmp (f (parent_pos c)) (f c)
    pub bridged : IsBridged 0 f n i

  -- only the edges below `i` may be out of order
  pub record DownInv (lo : ℕ) (f : ℕ → A) (n i : ℕ) : Type 0 where
    pub edges :
        (c : ℕ)
        → 0 < c
        → c < n
        → lo ≤ parent_pos c
        → parent_pos c ≢ i
        → Le cmp (f (parent_pos c)) (f c)
    pub bridged : IsBridged lo f n i

  -- only the edges above and below `i` may be out of order
  pub record SpotInv (f : ℕ → A) (n i : ℕ) : Type 0 where
    pub inside : i < n
    pub edges : (c : ℕ) → 0 < c → c < n → c ≢ i → parent_pos c ≢ i → Le cmp (f (parent_pos c)) (f c)
    pub bridged : IsBridged 0 f n i

  -- `m` is the child of `i` that is not greater than the other
  pub record IsLeastChild (f : ℕ → A) (n i m : ℕ) : Type 0 where
    pub inside : m < n
    pub child : (m ≡ i * 2 + 1) ⊎ (m ≡ i * 2 + 2)
    pub least : (c : ℕ) → 0 < c → c < n → parent_pos c ≡ i → Le cmp (f m) (f c)

  module _ (laws : IsPreorder cmp) where
    pub UpInv-swapped :
        (f : ℕ → A) (n i : ℕ)
        → UpInv f n i
        → 0 < i
        → is_neg (cmp (f i) (f (parent_pos i))) ≡ true
        → UpInv (swapped f (parent_pos i) i) n (parent_pos i)
    UpInv-swapped f n i v pos below =
        let p = parent_pos i in
        record {
          inside = ground (arith, v.inside);
          edges = λ c q r s.
              ground (
                arith,
                laws.flip (f i) (f p),
                v.edges c,
                v.bridged c,
                laws.trans (f i) (f p) (f c),
              );
          bridged = λ c q r s t u.
              ground (arith, v.edges c, v.edges p, laws.trans (f (parent_pos p)) (f p) (f c));
        }

    pub DownInv-swapped :
        (lo : ℕ) (f : ℕ → A) (n i m : ℕ)
        → DownInv lo f n i
        → IsLeastChild f n i m
        → is_neg (cmp (f m) (f i)) ≡ true
        → DownInv lo (swapped f m i) n m
    DownInv-swapped lo f n i m v s below = record {
      edges = λ c q r t u.
          ground (
            arith,
            laws.flip (f m) (f i),
            laws.flip (f i) (f m),
            v.edges c,
            v.bridged m,
            s.least c,
          );
      bridged = λ c q r t u w. ground (arith, v.edges c);
    }

  pub Le-refl : IsPreorder cmp → (x : A) → Le cmp x x
  Le-refl laws x = ground (arith, laws.flip x x)

  root_le_below :
      IsPreorder cmp
      → (k : ℕ) (f : ℕ → A) (n i : ℕ) → IsHeapFrom 0 f n
      → i < k
      → i < n
      → Le cmp (f 0) (f i)
  root_le_below laws zero f n i h b p = absurd (omega arith)
  root_le_below laws (suc k) f n zero h b p = Le-refl laws (f 0)
  root_le_below laws (suc k) f n (suc i) h b p =
      let j = parent_pos (suc i) in
      laws.trans (f 0) (f j) (f (suc i)) (root_le_below laws k f n j h (omega arith) (omega arith))
        (h (suc i) (omega arith) p (omega arith))

  -- the root of a heap is least
  pub root_le :
      IsPreorder cmp → (f : ℕ → A) (n i : ℕ) → IsHeapFrom 0 f n → i < n → Le cmp (f 0) (f i)
  root_le laws f n i h p = root_le_below laws (suc i) f n i h (omega arith) p
