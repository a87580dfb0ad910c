-- ===== src/Client/Queue/Swap.antt =====
-- What the loops of the heap keep: the packages but for their indices, the contents of the queue, and
-- that each package of the queue knows its position.
use magalix_agent.Prelude.{
  ℕ, ◌≤◌, ◌<◌, ◌≡◌, ◌≢◌, inl, inr, refl, sym, ap, ap₂, ◌∙◌, none, some, arith, length, ◌==◌,
  if◌then◌else◌, Bool-cases,
}
use magalix_agent.Client.Queue.{Package, Address, PriorityQueue, below, parent}
use magalix_agent.Client.Queue.Order.{Le, at, pack_at, swapped, at-swapped, length-swapped}

-- Every package of the queue has its position as its index.
abbrev pub IsIndexed : PriorityQueue → Type 0
IsIndexed q = (i : ℕ) → i < length q.items → (pack_at q i).index ≡ some i

-- The package is in the queue.
abbrev pub In : Address → PriorityQueue → Type 0
In p q = (i : ℕ) × (i < length q.items) × (at q.items i ≡ p)

-- A package without its index.
abbrev pub without_index : Package → Package
without_index p = record p { index = none }

-- Two positions hold different packages.
pub at-injective :
    (q : PriorityQueue) (i j : ℕ)
    → IsIndexed q
    → i < length q.items
    → j < length q.items
    → at q.items i ≡ at q.items j
    → i ≡ j
at-injective q i j v hi hj e =
    let first = v i hi in
    let second = v j hj in
    let same : (pack_at q i).index ≡ (pack_at q j).index =
      ap (λ (p : Address). (q.mem p).index) e in
    let both : some i ≡ some j = sym first ∙ same ∙ second in cc both

-- `q'` comes from `q` by exchanges below the position n.
pub record IsSifted (n : ℕ) (q q' : PriorityQueue) : Type 0 where
  pub size : length q'.items ≡ length q.items
  pub indexed : IsIndexed q'
  pub same : (p : Address) → without_index (q'.mem p) ≡ without_index (q.mem p)
  pub kept : (p : Address) → In p q → In p q'
  pub from : (p : Address) → In p q' → In p q
  pub beyond : (c : ℕ) → n ≤ c → at q'.items c ≡ at q.items c
  pub outside : (p : Address) → ¬ In p q → q'.mem p ≡ q.mem p

pub IsSifted-refl : (n : ℕ) (q : PriorityQueue) → IsIndexed q → IsSifted n q q
IsSifted-refl n q v = record {
  size = refl;
  indexed = v;
  same = λ p. refl;
  kept = λ p h. h;
  from = λ p h. h;
  beyond = λ c h. refl;
  outside = λ p h. refl;
}

pub IsSifted-trans :
    (n : ℕ) (a b c : PriorityQueue) → IsSifted n a b → IsSifted n b c → IsSifted n a c
IsSifted-trans n a b c f g = record {
  size = g.size ∙ f.size;
  indexed = g.indexed;
  same = λ p. g.same p ∙ f.same p;
  kept = λ p h. g.kept p (f.kept p h);
  from = λ p h. f.from p (g.from p h);
  beyond = λ i h. g.beyond i h ∙ f.beyond i h;
  outside = λ p h. g.outside p (λ k. h (f.from p k)) ∙ f.outside p h;
}

-- The order of two packages does not read their indices.
pub below_of_same :
    (a b a' b' : Package)
    → without_index a' ≡ without_index a
    → without_index b' ≡ without_index b
    → below a' b' ≡ below a b
below_of_same a b a' b' e f = ap₂ (λ (x y : Package). below x y) e f

module _ (q : PriorityQueue) (i j : ℕ) (v : IsIndexed q) (hi : i < length q.items)
    (hj : j < length q.items) where
  swapped-same : (p : Address) → without_index ((swapped q i j).mem p) ≡ without_index (q.mem p)
  unfolding swapped
  swapped-same p = ground arith

  index-swapped :
      (p : Address)
      → ((swapped q i j).mem p).index ≡ (
          if at q.items i == p
          then some j
          else if at q.items j == p
          then some i
          else (q.mem p).index)
  unfolding swapped
  index-swapped p = ground arith

  swapped-IsIndexed : IsIndexed (swapped q i j)
  swapped-IsIndexed c hc =
      let moved = at-swapped q i j hi hj c in
      let size = length-swapped q i j hi hj in
      let index = index-swapped (at (swapped q i j).items c) in
      ground (arith, moved, index, v i hi, v j hj, v c (omega (arith, size)))

  swapped-kept : (p : Address) → In p q → In p (swapped q i j)
  swapped-kept p (c, hc, e) = elim (Bool-cases (c == i)) [
    | inl first ↦
        (j, omega (arith, length-swapped q i j hi hj), ground (arith, at-swapped q i j hi hj j))
    | inr other ↦ elim (Bool-cases (c == j)) [
      | inl second ↦
          (i, omega (arith, length-swapped q i j hi hj), ground (arith, at-swapped q i j hi hj i))
      | inr third ↦
          (c, omega (arith, length-swapped q i j hi hj), ground (arith, at-swapped q i j hi hj c))
    ]
  ]

  swapped-from : (p : Address) → In p (swapped q i j) → In p q
  swapped-from p (c, hc, e) = elim (Bool-cases (j == c)) [
    | inl first ↦ (i, hi, ground (arith, at-swapped q i j hi hj c))
    | inr other ↦ elim (Bool-cases (i == c)) [
      | inl second ↦ (j, hj, ground (arith, at-swapped q i j hi hj c))
      | inr third ↦
          (c, omega (arith, length-swapped q i j hi hj), ground (arith, at-swapped q i j hi hj c))
    ]
  ]

  swapped-outside : (p : Address) → ¬ In p q → (swapped q i j).mem p ≡ q.mem p
  unfolding swapped
  swapped-outside p h =
      let x : at q.items i ≢ p = λ e. h (i, hi, e) in
      let y : at q.items j ≢ p = λ e. h (j, hj, e) in ground arith

  pub swapped-IsSifted : (n : ℕ) → i < n → j < n → IsSifted n q (swapped q i j)
  swapped-IsSifted n ni nj = record {
    size = length-swapped q i j hi hj;
    indexed = swapped-IsIndexed;
    same = swapped-same;
    kept = swapped-kept;
    from = swapped-from;
    beyond = λ c h. ground (arith, at-swapped q i j hi hj c);
    outside = swapped-outside;
  }

-- What the order reads at a position.
unfoldable pub key : PriorityQueue → ℕ → Package
key q i = without_index (pack_at q i)

pub below-key :
    (q : PriorityQueue) (i j : ℕ) → below (pack_at q i) (pack_at q j) ≡ below (key q i) (key q j)
unfolding key
below-key q i j = refl

pub key-swapped :
    (q : PriorityQueue) (i j : ℕ)
    → IsIndexed q
    → i < length q.items
    → j < length q.items
    → (c : ℕ)
    → key (swapped q i j) c ≡ (if j == c then key q i else if i == c then key q j else key q c)
unfolding key
key-swapped q i j v hi hj c =
    let e = swapped-same q i j v hi hj (at (swapped q i j).items c) in
    let at' = at-swapped q i j hi hj c in
    e ∙ ap (λ (p : Address). without_index (q.mem p)) at' ∙ ground arith

-- The first n positions are a heap: no item comes before its parent.
abbrev pub IsHeap : ℕ → PriorityQueue → Type 0
IsHeap n q = (c : ℕ) → 0 < c → c < n → Le (key q (parent c)) (key q c)

-- No child of i comes before the parent of i.
abbrev pub IsBridged : ℕ → PriorityQueue → ℕ → Type 0
IsBridged n q i = (c : ℕ) → 0 < c → c < n → parent c ≡ i → 0 < i → Le (key q (parent i)) (key q c)
