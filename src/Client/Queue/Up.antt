-- ===== src/Client/Queue/Up.antt =====
-- heap.up restores the heap when only the edge above one position may be out of order.
use magalix_agent.Prelude.{
  ℕ, zero, suc, ◌≤◌, ◌<◌, ◌≡◌, ◌≢◌, true, arith, length, Returns, Returns-map, ◌==◌, Bool-cases,
  inl, inr,
}
use magalix_agent.Client.Queue.{PriorityQueue, below, parent, up_loop, up}
use magalix_agent.Client.Queue.Order.{Le, swapped, less-ok, swap-ok}
use magalix_agent.Client.Queue.Swap.{
  IsIndexed, IsSifted, IsSifted-refl, IsSifted-trans, swapped-IsSifted, key, key-swapped, below-key,
  IsHeap, IsBridged,
}

pub record UpInv (n : ℕ) (q : PriorityQueue) (j : ℕ) : Type 0 where
  pub edges : (c : ℕ) → 0 < c → c < n → c ≢ j → Le (key q (parent c)) (key q c)
  pub bridged : IsBridged n q j

swapped-UpInv :
    (n : ℕ) (q : PriorityQueue) (j : ℕ)
    → IsIndexed q
    → n ≤ length q.items
    → 0 < j
    → j < n
    → UpInv n q j
    → below (key q j) (key q (parent j)) ≡ true
    → UpInv n (swapped q (parent j) j) (parent j)
swapped-UpInv n q j v hn pos hj h lower =
    let k = key-swapped q (parent j) j v (omega arith) (omega arith) in
    record {
      edges = λ c p r s. ground (arith, k c, k (parent c), h.edges c, h.bridged c, h.edges j);
      bridged = λ c p r s t.
          ground (arith, k c, k (parent c), k (parent (parent j)), h.edges c, h.edges (parent j));
    }

abbrev Risen : ℕ → PriorityQueue → PriorityQueue → Type 0
Risen n q q' = IsSifted n q q' × IsHeap n q'

up_loop_restores :
    (rounds n : ℕ) (q : PriorityQueue) (j : ℕ)
    → j ≤ rounds
    → IsIndexed q
    → n ≤ length q.items
    → j < n
    → UpInv n q j
    → Returns (Risen n q) (up_loop rounds q j)
unfolding up_loop
up_loop_restores zero n q j f v hn hj h =
    (IsSifted-refl n q v, λ c p r. h.edges c p r (omega arith))
up_loop_restores (suc rounds) n q j f v hn hj h = elim (Bool-cases (parent j == j)) [
  | inl root ↦ rw root ((IsSifted-refl n q v, λ c p r. h.edges c p r (ground arith)))
  | inr inner ↦
      rw (inner, less-ok q j (parent j) (omega arith) (omega arith), below-key)
        (elim (Bool-cases (below (key q j) (key q (parent j)))) [
          | inr settled ↦ rw settled (IsSifted-refl n q v, λ c p r. ground (arith, h.edges c))
          | inl lower ↦
              let q' = swapped q (parent j) j in
              let step = swapped-IsSifted q (parent j) j v (omega arith) (omega arith) n in
              let first = step (omega arith) hj in
              rw (lower, swap-ok q (parent j) j (omega arith) (omega arith))
                (Returns-map {P = Risen n q'} (Risen n q) _
                  (up_loop_restores rounds n q' (parent j) (ground arith) first.indexed
                    (omega (arith, first.size)) (omega arith)
                    (swapped-UpInv n q j v hn (ground arith) hj h lower))
                  λ r (sifted, heap). (IsSifted-trans n q q' r first sifted, heap))
        ])
]

pub up_restores :
    (n : ℕ) (q : PriorityQueue) (j : ℕ)
    → IsIndexed q
    → n ≤ length q.items
    → j < n
    → UpInv n q j
    → Returns (λ q'. IsSifted n q q' × IsHeap n q') (up q j)
unfolding up
up_restores n q j v hn hj h = up_loop_restores j n q j (omega arith) v hn hj h
