-- ===== src/Client/Queue/Remove.antt =====
-- heap.Remove and the method Pop take one package out of a heap of indexed packages.
use magalix_agent.Prelude.{
  ℕ, suc, ◌-◌, ◌<◌, ◌≡◌, ◌≢◌, inl, inr, refl, sym, ap, ◌∙◌, none, some, arith, length, take, ok,
  ◌>>=◌, Returns, Returns-bind, Returns-map, if◌then◌else◌, ◌==◌, Bool-cases,
}
use magalix_agent.Client.Queue.{
  set_index, Address, PriorityQueue, parent, swap, sift, pop_item, remove,
}
use magalix_agent.Client.Queue.Order.{
  at-swapped, at-take, length-take_le, at, swapped, swap-ok, load-ok, pack_at,
}
use magalix_agent.Client.Queue.Swap.{
  IsIndexed, without_index, at-injective, IsSifted, swapped-IsSifted, key-swapped, IsHeap,
}
use magalix_agent.Client.Queue.Down.{GapInv}
use magalix_agent.Client.Queue.Sift.{IsValid, IsRemoved, IsHeap-GapInv, key_of_same, sift_restores}

-- The queue without its last item.
popped : PriorityQueue → ℕ → PriorityQueue
popped q n = record { mem = set_index q.mem (at q.items n) none; items = take n q.items }

module _ (q : PriorityQueue) (n : ℕ) (size : length q.items ≡ suc n) (v : IsIndexed q) where
  pop_item-ok : pop_item q ≡ ok (at q.items n, popped q n)
  unfolding pop_item popped
  pop_item-ok =
      let last : length q.items - 1 ≡ n = omega arith in rw last (rw (load-ok q n (omega arith)))

  index-popped :
      (r : Address)
      → ((popped q n).mem r).index ≡ (if at q.items n == r then none else (q.mem r).index)
  unfolding popped
  index-popped r = ground arith

  popped-same : (r : Address) → without_index ((popped q n).mem r) ≡ without_index (q.mem r)
  unfolding popped
  popped-same r = ground arith

  length-popped : length (popped q n).items ≡ n
  unfolding popped
  length-popped = length-take_le n q.items (omega arith)

  popped-at : (c : ℕ) → c < n → at (popped q n).items c ≡ at q.items c
  unfolding popped
  popped-at c h = at-take n q.items c h

  not_last : (c : ℕ) → c < n → at q.items c ≢ at q.items n
  not_last c h e = absurd (omega (arith, at-injective q c n v (omega arith) (omega arith) e))

  popped-IsRemoved : IsHeap n q → IsRemoved q (at q.items n) (popped q n)
  popped-IsRemoved heap =
      let kept = λ (c : ℕ) (h : c < n).
        key_of_same q (popped q n) c (popped-at c h) (sym (popped-same (at q.items c))) in
      record {
        valid = record {
          indexed = λ c h.
              let inner : c < n = omega (arith, length-popped) in
              rw (popped-at c inner, pack_at)
                (ground (arith, index-popped (at q.items c), not_last c inner, v c (omega arith)));
          heap = λ c pos h.
              let inner : c < n = omega (arith, length-popped) in
              rw (kept c inner, kept (parent c) (omega arith)) (heap c pos inner);
        };
        size = size ∙ sym (ap suc length-popped);
        gone = ground (arith, index-popped (at q.items n));
        kept = λ r (c, h, e) other.
            let inner : c ≢ n = λ same. other (sym e ∙ ap (at q.items) same) in
            let below_n : c < n = omega arith in
            (c, omega (arith, length-popped), popped-at c below_n ∙ e);
        from = λ r (c, h, e).
            let inner : c < n = omega (arith, length-popped) in
            let e' = sym (popped-at c inner) ∙ e in
            ((c, omega arith, e'), λ same. not_last c inner (e' ∙ same));
        same = popped-same;
      }

-- Exchanges and then the removal of a package are its removal.
IsRemoved-sifted :
    (n : ℕ) (q a b : PriorityQueue) (p : Address)
    → IsSifted n q a
    → IsRemoved a p b
    → IsRemoved q p b
IsRemoved-sifted n q a b p s r = record {
  valid = r.valid;
  size = sym s.size ∙ r.size;
  gone = r.gone;
  kept = λ x h other. r.kept x (s.kept x h) other;
  from = λ x h. (s.from x (r.from x h).0, (r.from x h).1);
  same = λ x. r.same x ∙ s.same x;
}

-- The first item of the result is the package, and the rest is the queue without it.
abbrev pub TakesOut : PriorityQueue → Address → Address × PriorityQueue → Type 0
TakesOut q p r = (r.0 ≡ p) × IsRemoved q p r.1

pop_item-TakesOut :
    (q : PriorityQueue) (n : ℕ)
    → length q.items ≡ suc n
    → IsIndexed q
    → IsHeap n q
    → Returns (TakesOut q (at q.items n)) (pop_item q)
pop_item-TakesOut q n size v heap =
    rw (pop_item-ok q n size v) (refl, popped-IsRemoved q n size v heap)

module _ (q : PriorityQueue) (i n : ℕ) (v : IsValid q) (size : length q.items ≡ suc n)
    (hi : i < n) where
  -- The last item in the place of the one that goes.
  swapped-GapInv : GapInv n (swapped q i n) i
  swapped-GapInv =
      let k = key-swapped q i n v.indexed (omega arith) (omega arith) in
      let gap = IsHeap-GapInv n q i hi (λ c pos h. v.heap c pos (omega arith)) in
      record {
        edges = λ c p r s t. ground (arith, k c, k (parent c), gap.edges c);
        bridged = λ c p r s pos. ground (arith, k c, k (parent i), gap.bridged c);
      }

  moved-TakesOut :
      Returns (TakesOut q (at q.items i)) ((swap q i n >>= λ q'. sift q' i n) >>= pop_item)
  moved-TakesOut =
      let q' = swapped q i n in
      let first =
        swapped-IsSifted q i n v.indexed (omega arith) (omega arith) (suc n) (omega arith)
          (omega arith) in
      let last : at q'.items n ≡ at q.items i =
        ground (arith, at-swapped q i n (omega arith) (omega arith) n) in
      rw (swap-ok q i n (omega arith) (omega arith)) (
        Returns-bind {P = λ r. IsSifted n q' r × IsHeap n r} (TakesOut q (at q.items i))
          (sift q' i n) pop_item
          (sift_restores n q' i first.indexed (omega (arith, first.size)) hi swapped-GapInv)
          λ r (s, heap).
            let size' : length r.items ≡ suc n = s.size ∙ first.size ∙ size in
            let e : at r.items n ≡ at q.items i = s.beyond n (omega arith) ∙ last in
            Returns-map {P = TakesOut r (at r.items n)} (TakesOut q (at q.items i)) (pop_item r)
              (pop_item-TakesOut r n size' s.indexed heap)
              λ o (same, out).
                let out' : IsRemoved r (at q.items i) o.1 = rw e at out in
                (
                  same ∙ e,
                  IsRemoved-sifted (suc n) q q' o.1 _ first (IsRemoved-sifted n q' r o.1 _ s out'),
                ))

-- Remove at a position of a valid queue returns the package of that position, takes it out and
-- nothing else, and leaves a valid queue.
pub remove-TakesOut :
    (q : PriorityQueue) (i : ℕ)
    → IsValid q
    → i < length q.items
    → Returns (TakesOut q (at q.items i)) (remove q (some i))
unfolding remove
remove-TakesOut q i v hi =
    let n = length q.items - 1 in
    let size : length q.items ≡ suc n = omega arith in
    elim (Bool-cases (n == i)) [
      | inl last ↦
          let only : length q.items ≡ suc i = ground arith in
          rw last (pop_item-TakesOut q i only v.indexed (λ c pos h. v.heap c pos (omega arith)))
      | inr inner ↦ rw inner (moved-TakesOut q i n v size (ground arith))
    ]
