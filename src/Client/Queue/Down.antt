-- ===== src/Client/Queue/Down.antt =====
-- heap.down: from a position whose item may be too late for its place, and from one whose item may
-- be too early or too late.
use magalix_agent.Prelude.{
  ℕ, zero, suc, ◌+◌, ◌-◌, ◌*◌, ◌≤◌, ◌<◌, ◌≡◌, ◌≢◌, ◌⊎◌, inl, inr, refl, true, false, arith, length,
  Returns, Returns-bind, Returns-map, ltb, Bool-cases,
}
use magalix_agent.Client.Queue.{PriorityQueue, below, parent, smaller_child, down_loop}
use magalix_agent.Client.Queue.Order.{Le, Le_refl, Le_of_below, swapped, less-ok, swap-ok}
use magalix_agent.Client.Queue.Swap.{
  IsIndexed, IsSifted, IsSifted-refl, IsSifted-trans, swapped-IsSifted, key, key-swapped, below-key,
  IsHeap, IsBridged,
}
use magalix_agent.Client.Queue.Up.{UpInv}

-- Only the edges below i may be out of order.
record DownInv (n : ℕ) (q : PriorityQueue) (i : ℕ) : Type 0 where
  edges : (c : ℕ) → 0 < c → c < n → parent c ≢ i → Le (key q (parent c)) (key q c)
  bridged : IsBridged n q i

-- Only the edges at i, above and below, may be out of order.
pub record GapInv (n : ℕ) (q : PriorityQueue) (i : ℕ) : Type 0 where
  pub edges : (c : ℕ) → 0 < c → c < n → c ≢ i → parent c ≢ i → Le (key q (parent c)) (key q c)
  pub bridged : IsBridged n q i

-- The child of i that no other child of i comes before.
record IsSmallerChild (n : ℕ) (q : PriorityQueue) (i m : ℕ) : Type 0 where
  inside : m < n
  child : parent m ≡ i
  later : i < m
  least : (c : ℕ) → 0 < c → c < n → parent c ≡ i → Le (key q m) (key q c)

two_children : (i c : ℕ) → 0 < c → parent c ≡ i → (c ≡ 2 * i + 1) ⊎ (c ≡ 2 * i + 2)
two_children i c p e = omega arith

smaller_child-IsSmallerChild :
    (n : ℕ) (q : PriorityQueue) (i : ℕ)
    → n ≤ length q.items
    → 2 * i + 1 < n
    → Returns (IsSmallerChild n q i) (smaller_child q i n)
unfolding smaller_child
smaller_child-IsSmallerChild n q i hn h = elim (Bool-cases (ltb (2 * i + 2) n)) [
  | inr single ↦ rw single (record {
    inside = h;
    child = omega arith;
    later = omega arith;
    least =
        λ c p r t. let only : c ≡ 2 * i + 1 = ground arith in rw only (Le_refl (key q (2 * i + 1)));
  })
  | inl both ↦
      rw (both, less-ok q (2 * i + 2) (2 * i + 1) (ground arith) (omega arith), below-key)
        (elim (Bool-cases (below (key q (2 * i + 2)) (key q (2 * i + 1)))) [
          | inl right ↦ rw right (record {
            inside = ground arith;
            child = omega arith;
            later = omega arith;
            least = λ c p r t. elim (two_children i c p t) [
              | inl e ↦ rw e (Le_of_below (key q (2 * i + 2)) (key q (2 * i + 1)) right)
              | inr e ↦ rw e (Le_refl (key q (2 * i + 2)))
            ];
          })
          | inr left ↦ rw left (record {
            inside = h;
            child = omega arith;
            later = omega arith;
            least = λ c p r t. elim (two_children i c p t) [
              | inl e ↦ rw e (Le_refl (key q (2 * i + 1)))
              | inr e ↦ rw e left
            ];
          })
        ])
]

swapped-DownInv :
    (n : ℕ) (q : PriorityQueue) (i m : ℕ)
    → IsIndexed q
    → n ≤ length q.items
    → GapInv n q i
    → IsSmallerChild n q i m
    → below (key q m) (key q i) ≡ true
    → DownInv n (swapped q i m) m
swapped-DownInv n q i m v hn h s lower =
    let inside = s.inside in
    let later = s.later in
    let k = key-swapped q i m v (omega arith) (omega arith) in
    record {
      edges =
          λ c p r t. ground (arith, k c, k (parent c), h.edges c, h.bridged m, s.least c, s.child);
      bridged = λ c p r t u. ground (arith, k c, k (parent m), h.edges c, s.child);
    }

-- What a run from a gap at i leaves: a heap, if the item sank, or the queue as it was, in order below.
abbrev pub Lowered : ℕ → PriorityQueue → ℕ → PriorityQueue × ℕ → Type 0
Lowered n q i r =
    IsSifted n q r.0 × (((i < r.1) × IsHeap n r.0) ⊎ ((r.0 ≡ q) × (r.1 ≡ i) × UpInv n q i))

module _ (rounds n : ℕ)
    (later_rounds : (q : PriorityQueue) (i : ℕ)
      → n - i ≤ rounds
      → IsIndexed q
      → n ≤ length q.items
      → DownInv n q i
      → Returns (λ r. IsSifted n q r.0 × IsHeap n r.0 × (i ≤ r.1)) (down_loop rounds q i n))
    (q : PriorityQueue) (i : ℕ) (f : n - i ≤ suc rounds) (v : IsIndexed q) (hn : n ≤ length q.items)
    (h : GapInv n q i) where
  down_sink :
      (m : ℕ)
      → IsSmallerChild n q i m
      → below (key q m) (key q i) ≡ true
      → Returns (Lowered n q i) (down_loop rounds (swapped q i m) m n)
  down_sink m s lower =
      let inside = s.inside in
      let later = s.later in
      let first = swapped-IsSifted q i m v (omega arith) (omega arith) n (omega arith) inside in
      Returns-map {P = λ r. IsSifted n (swapped q i m) r.0 × IsHeap n r.0 × (m ≤ r.1)}
        (Lowered n q i) _
        (later_rounds (swapped q i m) m (omega arith) first.indexed (omega (arith, first.size))
          (swapped-DownInv n q i m v hn h s lower))
        λ r (sifted, heap, place).
          (IsSifted-trans n q (swapped q i m) r.0 first sifted, inl (omega arith, heap))

  down_settle :
      (m : ℕ) → IsSmallerChild n q i m → below (key q m) (key q i) ≡ false → Lowered n q i (q, i)
  down_settle m s settled = (
    IsSifted-refl n q v,
    inr (
      refl,
      refl,
      record { edges = λ c p r t. ground (arith, h.edges c, s.least c); bridged = h.bridged },
    ),
  )

  down_round : Returns (Lowered n q i) (down_loop (suc rounds) q i n)
  unfolding down_loop
  down_round = elim (Bool-cases (ltb (2 * i + 1) n)) [
    | inr leaf ↦ rw leaf (
      IsSifted-refl n q v,
      inr (
        refl,
        refl,
        record { edges = λ c p r t. ground (arith, h.edges c); bridged = h.bridged },
      ),
    )
    | inl inner ↦ rw inner (
        Returns-bind {P = IsSmallerChild n q i} (Lowered n q i) (smaller_child q i n) _
          (smaller_child-IsSmallerChild n q i hn (ground arith))
          λ m s.
            let inside = s.inside in
            let later = s.later in
            rw (less-ok q m i (omega arith) (omega arith), below-key)
              (elim (Bool-cases (below (key q m) (key q i))) [
                | inl lower ↦
                    rw (lower, swap-ok q i m (omega arith) (omega arith)) (down_sink m s lower)
                | inr settled ↦ rw settled (down_settle m s settled)
              ]))
  ]

down_loop_restores :
    (rounds n : ℕ) (q : PriorityQueue) (i : ℕ)
    → n - i ≤ rounds
    → IsIndexed q
    → n ≤ length q.items
    → DownInv n q i
    → Returns (λ r. IsSifted n q r.0 × IsHeap n r.0 × (i ≤ r.1)) (down_loop rounds q i n)
down_loop_restores zero n q i f v hn h =
    unfold down_loop in (IsSifted-refl n q v, λ c p r. h.edges c p r (omega arith), omega arith)
down_loop_restores (suc rounds) n q i f v hn h =
    Returns-map {P = Lowered n q i} _ (down_loop (suc rounds) q i n)
      (down_round rounds n (down_loop_restores rounds n) q i f v hn
        (record { edges = λ c p r s t. h.edges c p r t; bridged = h.bridged }))
      λ r (sifted, o). elim o [
        | inl (sank, heap) ↦ (sifted, heap, omega arith)
        | inr (same, place, u) ↦
            (sifted, rw same (λ c p l. ground (arith, h.edges c, u.edges c)), omega arith)
      ]

-- From a gap at i, heap.down either sinks the item and leaves a heap, or leaves the queue as it was,
-- with no edge out of order but the one above i.
pub down_lowers :
    (n : ℕ) (q : PriorityQueue) (i : ℕ)
    → IsIndexed q
    → n ≤ length q.items
    → i < n
    → GapInv n q i
    → Returns (Lowered n q i) (down_loop (n - i) q i n)
down_lowers n q i v hn hi h =
    let rounds : n - i ≡ suc (n - i - 1) = omega arith in
    rw rounds (down_round (n - i - 1) n (down_loop_restores (n - i - 1) n) q i (omega arith) v hn h)
