-- ===== src/Client/Queue/Sift.antt =====
-- heap.Push, heap.Fix and heap.Remove keep a heap of indexed packages.
use magalix_agent.Prelude.{
  ℕ, suc, ◌-◌, ◌≤◌, ◌<◌, ◌≡◌, ◌≢◌, ◌⊎◌, inl, inr, refl, sym, ap, ◌∙◌, true, false, none, some,
  arith, length, ok, Returns, Returns-bind, ltb,
}
use magalix_agent.Client.Queue.{Address, PriorityQueue, parent, down_loop, sift, fix}
use magalix_agent.Client.Queue.Order.{Le-trans, at, pack_at}
use magalix_agent.Client.Queue.Swap.{IsIndexed, In, without_index, IsSifted, key, IsHeap}
use magalix_agent.Client.Queue.Up.{up_restores}
use magalix_agent.Client.Queue.Down.{GapInv, Lowered, down_lowers}

-- `!down(h, i, n)` and then `up(h, i)` mend one item that is out of place.
pub sift_restores :
    (n : ℕ) (q : PriorityQueue) (i : ℕ)
    → IsIndexed q
    → n ≤ length q.items
    → i < n
    → GapInv n q i
    → Returns (λ q'. IsSifted n q q' × IsHeap n q') (sift q i n)
unfolding sift
sift_restores n q i v hn hi h =
    Returns-bind {P = Lowered n q i} _ (down_loop (n - i) q i n) _ (down_lowers n q i v hn hi h)
      λ r (sifted, o). elim o [
        | inl (sank, heap) ↦ let b : ltb i r.1 ≡ true = ground arith in rw b (sifted, heap)
        | inr (same, place, u) ↦
            let b : ltb i r.1 ≡ false = ground arith in rw (b, same) (up_restores n q i v hn hi u)
      ]

-- The queue is a heap, and every package of it knows its position.
pub record IsValid (q : PriorityQueue) : Type 0 where
  pub indexed : IsIndexed q
  pub heap : IsHeap (length q.items) q

-- `q'` is `q` with the package added.
pub record IsAdded (q : PriorityQueue) (p : Address) (q' : PriorityQueue) : Type 0 where
  pub valid : IsValid q'
  pub size : length q'.items ≡ suc (length q.items)
  pub added : In p q'
  pub kept : (r : Address) → In r q → In r q'
  pub from : (r : Address) → In r q' → (r ≡ p) ⊎ In r q
  pub same : (r : Address) → without_index (q'.mem r) ≡ without_index (q.mem r)

-- `q'` is `q` with the package taken out.
pub record IsRemoved (q : PriorityQueue) (p : Address) (q' : PriorityQueue) : Type 0 where
  pub valid : IsValid q'
  pub size : length q.items ≡ suc (length q'.items)
  pub gone : (q'.mem p).index ≡ none
  pub kept : (r : Address) → In r q → r ≢ p → In r q'
  pub from : (r : Address) → In r q' → In r q × (r ≢ p)
  pub same : (r : Address) → without_index (q'.mem r) ≡ without_index (q.mem r)

-- Within a heap any place may be the gap.
pub IsHeap-GapInv : (n : ℕ) (q : PriorityQueue) (i : ℕ) → i < n → IsHeap n q → GapInv n q i
IsHeap-GapInv n q i hi h = record {
  edges = λ c p r s t. h c p r;
  bridged = λ c p r s pos.
      Le-trans (key q (parent i)) (key q i) (key q c) (h i pos hi) (rw s at (h c p r));
}

pub key_of_same :
    (q q' : PriorityQueue) (c : ℕ)
    → at q'.items c ≡ at q.items c
    → without_index (pack_at q c) ≡ without_index (q'.mem (at q.items c))
    → key q' c ≡ key q c
unfolding key
key_of_same q q' c e f = ap (λ (p : Address). without_index (q'.mem p)) e ∙ sym f

pub fix-none : (q : PriorityQueue) → fix q none ≡ ok q
unfolding fix
fix-none q = refl

pub fix-some : (q : PriorityQueue) (i : ℕ) → fix q (some i) ≡ sift q i (length q.items)
unfolding fix
fix-some q i = refl
