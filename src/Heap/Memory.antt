-- ===== src/Heap/Memory.antt =====
-- The cells of a heap as a collection, and what an exchange keeps (heap.c).
use mathlib.Core.List.{Perm, Mem, mem-cons_self, mem-cons_of_mem}
use mathlib.Core.List.Perm
use native.Mathlib.Numerals.{add-one}
use bflib.Base.{
  ℕ, zero, suc, ◌+◌, ◌≤◌, ◌<◌, ◌≡◌, ◌≢◌, ◌∙◌, refl, inl, inr, Bool-cases, List, [], ◌∷◌, Option, ap,
  none, some, arith, ◌==◌, All, Bool, true,
}
use bflib.Run.{ok}
use bflib.Heap.{Heap, update, set_info, load, heap_move, exchange}
use bflib.Heap.Order.{swapped}

-- the first `n` cells, from the last to the first
pub items : {A : Type 0} → (ℕ → A) → ℕ → List A
items f zero = []
items f (suc n) = f n ∷ items f n

pub items-zero : {A : Type 0} (f : ℕ → A) → items f 0 ≡ []
unfolding items
items-zero f = refl

pub items-suc : {A : Type 0} (f : ℕ → A) (n : ℕ) → items f (suc n) ≡ f n ∷ items f n
unfolding items
items-suc f n = refl

-- a test that every cell satisfies
pub items-All :
    {A : Type 0} (test : A → Bool) (f : ℕ → A) (n : ℕ)
    → ((i : ℕ) → i < n → test (f i) ≡ true)
    → All (λ x. test x ≡ true) (items f n)
unfolding items
items-All test f zero each = tt
items-All test f (suc n) each =
    (each n (omega arith), items-All test f n (λ i p. each i (omega arith)))

pub All-items :
    {A : Type 0} (test : A → Bool) (f : ℕ → A) (n i : ℕ)
    → i < n
    → All (λ x. test x ≡ true) (items f n)
    → test (f i) ≡ true
unfolding items
All-items test f zero i h all = absurd (omega arith)
All-items test f (suc n) i h (here, all) = elim (Bool-cases (i == n)) [
  | inl last ↦ let same : i ≡ n = ground arith in ap (λ k. test (f k)) same ∙ here
  | inr before ↦ All-items test f n i (ground arith) all
]

pub Mem-items : {A : Type 0} (f : ℕ → A) (n i : ℕ) → i < n → Mem (f i) (items f n)
unfolding items
Mem-items f zero i h = absurd (omega arith)
Mem-items f (suc n) i h = elim (Bool-cases (i == n)) [
  | inl last ↦ let same : i ≡ n = ground arith in rw same mem-cons_self
  | inr before ↦ mem-cons_of_mem (f n) (Mem-items f n i (ground arith))
]

-- every cell's info holds its position
abbrev pub Tracked : {A : Type 0} → Option (A → ℕ) → (ℕ → A) → ℕ → (ℕ → ℕ) → Type 0
Tracked none f n infos = Unit
Tracked (some get) f n infos = (i : ℕ) → i < n → infos (get (f i)) ≡ i

module _ {A : Type 0} where
  pub items-congr : (n : ℕ) (f g : ℕ → A) → ((i : ℕ) → i < n → f i ≡ g i) → items f n ≡ items g n
  unfolding items
  items-congr zero f g same = refl
  items-congr (suc n) f g same =
      rw (same n (omega arith), items-congr n f g (λ i h. same i (omega arith)))

  -- a write trades the old item for the new one
  items-update :
      (n : ℕ) (f : ℕ → A) (i : ℕ) (v : A)
      → i < n
      → Perm (f i ∷ items (update f i v) n) (v ∷ items f n)
  unfolding items
  items-update zero f i v h = absurd (omega arith)
  items-update (suc n) f i v h = elim (Bool-cases (i == n)) [
    | inl last ↦
        let rest = items-congr n (update f i v) f (λ j p. ground arith) in
        let same : f i ≡ f n = ground arith in rw (last, rest, same) (Perm.swap v (f n) (items f n))
    | inr before ↦ rw before (
        Perm.trans (Perm.swap (f n) (f i) _) (
          Perm.trans (Perm.cons (f n) (items-update n f i v (ground arith)))
            (Perm.swap v (f n) (items f n))))
  ]

  pub items-swapped :
      (n : ℕ) (f : ℕ → A) (a b : ℕ)
      → a < n
      → b < n
      → a ≢ b
      → Perm (items (swapped f a b) n) (items f n)
  items-swapped n f a b p q ne =
      let g = update f a (f b) in
      let kept : g b ≡ f b = ground arith in
      let second = rw kept at (items-update n g b (f a) q) in
      Perm.cons_inv (Perm.trans second (items-update n f a (f b) p))

  pub items-write_end :
      (n : ℕ) (f : ℕ → A) (item : A) → items (update f n item) (n + 1) ≡ item ∷ items f n
  unfolding items
  items-write_end n f item =
      let same : update f n item n ≡ item = ground arith in
      rw (add-one, items, same, items-congr n (update f n item) f (λ i h. ground arith))

  -- the last of `n + 1` cells written over cell `p` takes out the item of `p`
  pub items-refill :
      (n : ℕ) (f : ℕ → A) (p : ℕ)
      → p ≤ n
      → Perm (f p ∷ items (update f p (f n)) n) (items f (n + 1))
  unfolding items
  items-refill n f p h =
      rw (add-one, items)
        (elim (Bool-cases (p == n)) [
          | inl last ↦
              let same : p ≡ n = ground arith in
              let rest = items-congr n (update f p (f n)) f (λ j q. ground arith) in
              rw (rest, same) (Perm.refl _)
          | inr before ↦ items-update n f p (f n) (ground arith)
        ])

-- What a call that only moves items leaves as it was.
pub record Kept {A : Type 0} (h g : Heap A) : Type 0 where
  pub size : g.size ≡ h.size
  pub heap_size : g.heap_size ≡ h.heap_size
  pub get_info : g.get_info ≡ h.get_info
  pub perm : Perm (items g.heap g.size) (items h.heap h.size)
  pub tracked : Tracked h.get_info h.heap h.size h.infos → Tracked g.get_info g.heap g.size g.infos

module _ {A : Type 0} where
  pub Kept-refl : (h : Heap A) → Kept h h
  Kept-refl h = record {
    size = refl;
    heap_size = refl;
    get_info = refl;
    perm = Perm.refl _;
    tracked = λ t. t;
  }

  pub Kept-trans : {h g k : Heap A} → Kept h g → Kept g k → Kept h k
  Kept-trans p q = record {
    size = q.size ∙ p.size;
    heap_size = q.heap_size ∙ p.heap_size;
    get_info = q.get_info ∙ p.get_info;
    perm = Perm.trans q.perm p.perm;
    tracked = λ t. q.tracked (p.tracked t);
  }

  pub load-ok : (h : Heap A) (i : ℕ) → i < h.heap_size → load h i ≡ ok (h.heap i)
  unfolding load
  load-ok h i p = ground arith

  -- the heap after `heap_move h pos item`
  abbrev pub moved : Heap A → ℕ → A → Heap A
  moved h pos item = record h {
    heap = update h.heap pos item;
    infos = set_info h.get_info item pos h.infos;
  }

  pub heap_move-ok :
      (h : Heap A) (pos : ℕ) (item : A)
      → pos < h.heap_size
      → heap_move h pos item ≡ ok (moved h pos item)
  unfolding heap_move
  heap_move-ok h pos item p = ground arith

  -- the heap after `exchange h a b`
  abbrev pub exchanged : Heap A → ℕ → ℕ → Heap A
  exchanged h a b = record h {
    heap = swapped h.heap a b;
    infos = set_info h.get_info (h.heap a) b (set_info h.get_info (h.heap b) a h.infos);
  }

  pub exchange-ok :
      (h : Heap A) (a b : ℕ)
      → a < h.heap_size
      → b < h.heap_size
      → exchange h a b ≡ ok (exchanged h a b)
  unfolding exchange load heap_move
  exchange-ok h a b p q = ground arith

  Tracked-swapped :
      (get_info : Option (A → ℕ)) (f : ℕ → A) (n a b : ℕ) (infos : ℕ → ℕ)
      → a < n
      → b < n
      → a ≢ b
      → Tracked get_info f n infos
      → Tracked get_info
          (swapped f a b)
          n
          (set_info get_info (f a) b (set_info get_info (f b) a infos))
  Tracked-swapped none f n a b infos p q ne t = tt
  Tracked-swapped (some get) f n a b infos p q ne t = λ i h. ground (arith, t a p, t b q, t i h)

  -- the back positions after the last item was moved to `p`
  pub Tracked-refill :
      (get_info : Option (A → ℕ)) (f : ℕ → A) (n p : ℕ) (infos : ℕ → ℕ)
      → p ≤ n
      → Tracked get_info f (n + 1) infos
      → Tracked get_info (update f p (f n)) n (set_info get_info (f n) p infos)
  Tracked-refill none f n p infos q t = tt
  Tracked-refill (some get) f n p infos q t = λ i h. ground (arith, t n, t i)

  pub Tracked-less :
      (get_info : Option (A → ℕ)) (f : ℕ → A) (n : ℕ) (infos : ℕ → ℕ)
      → Tracked get_info f (n + 1) infos
      → Tracked get_info f n infos
  Tracked-less none f n infos t = tt
  Tracked-less (some get) f n infos t = λ i h. t i (omega arith)

  pub exchanged-Kept :
      (h : Heap A) (a b : ℕ) → a < h.size → b < h.size → a ≢ b → Kept h (exchanged h a b)
  exchanged-Kept h a b p q ne = record {
    size = refl;
    heap_size = refl;
    get_info = refl;
    perm = items-swapped h.size h.heap a b p q ne;
    tracked = Tracked-swapped h.get_info h.heap h.size a b h.infos p q ne;
  }
