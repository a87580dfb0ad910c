-- ===== src/Client/PipeStore/Retry.antt =====
-- What a retry of a package does to the queue, with the package in it or not.
use magalix_agent.Prelude.{
  ℕ, suc, ◌+◌, ◌<◌, ◌≡◌, ◌≢◌, refl, sym, ap, ◌∙◌, ◌&&◌, ◌%◌, none, some, arith, length, Returns,
  Returns-bind, Returns-map, ltb, ◌==◌, Bool-cases, inl, inr,
}
use magalix_agent.Client.Queue.{Package, Address, PriorityQueue, write, parent, sift, fix}
use magalix_agent.Client.Queue.Order.{at, pack_at}
use magalix_agent.Client.Queue.Swap.{
  IsIndexed, In, without_index, at-injective, IsSifted, key, IsHeap,
}
use magalix_agent.Client.Queue.Down.{GapInv}
use magalix_agent.Client.Queue.Sift.{IsValid, IsRemoved, sift_restores, fix-none, fix-some}
use magalix_agent.Client.PipeStore.{DefaultPipeStore, retry}

-- `q'` holds the packages of `q`, and only the package may have changed, but for indices.
pub record IsTouched (q : PriorityQueue) (p : Address) (q' : PriorityQueue) : Type 0 where
  pub valid : IsValid q'
  pub size : length q'.items ≡ length q.items
  pub kept : (r : Address) → In r q → In r q'
  pub from : (r : Address) → In r q' → In r q
  pub same : (r : Address) → r ≢ p → without_index (q'.mem r) ≡ without_index (q.mem r)
  pub kind : (r : Address) → (q'.mem r).kind ≡ (q.mem r).kind

-- `q'` is `q` without the package, which itself may have changed.
pub record IsTaken (q : PriorityQueue) (p : Address) (q' : PriorityQueue) : Type 0 where
  pub valid : IsValid q'
  pub size : length q.items ≡ suc (length q'.items)
  pub gone : (q'.mem p).index ≡ none
  pub kept : (r : Address) → In r q → r ≢ p → In r q'
  pub from : (r : Address) → In r q' → In r q × (r ≢ p)
  pub same : (r : Address) → r ≢ p → without_index (q'.mem r) ≡ without_index (q.mem r)
  pub kind : (r : Address) → (q'.mem r).kind ≡ (q.mem r).kind

-- A write to a package, which keeps its index.
module _ (q : PriorityQueue) (p : Address) (pack : Package)
    (index : pack.index ≡ (q.mem p).index) where
  written : PriorityQueue
  written = record q { mem = write q.mem p pack }

  written-IsIndexed : IsIndexed q → IsIndexed written
  unfolding written
  written-IsIndexed v i hi = ground (arith, v i hi)

  written-same : (r : Address) → r ≢ p → without_index (written.mem r) ≡ without_index (q.mem r)
  unfolding written
  written-same r h = ground arith

  written-kind : pack.kind ≡ (q.mem p).kind → (r : Address) → (written.mem r).kind ≡ (q.mem r).kind
  unfolding written
  written-kind h r = ground (arith, h)

-- A write to the first package of a valid queue, which keeps its index.
module _ (q : PriorityQueue) (pack : Package) (v : IsValid q) (hi : 0 < length q.items)
    (index : pack.index ≡ (pack_at q 0).index) (kind : pack.kind ≡ (pack_at q 0).kind) where
  key-written :
      (c : ℕ) → 0 < c → c < length q.items → key (written q (at q.items 0) pack index) c ≡ key q c
  unfolding written key
  key-written c pos hc =
      let other : at q.items c ≢ at q.items 0 =
        λ e. absurd (omega (arith, at-injective q c 0 v.indexed hc hi e)) in
      written-same q (at q.items 0) pack index (at q.items c) other

  written-GapInv : GapInv (length q.items) (written q (at q.items 0) pack index) 0
  written-GapInv = record {
    edges = λ c pos hc s t.
        rw (key-written (parent c) (omega arith) (omega arith), key-written c pos hc)
          (v.heap c pos hc);
    bridged = λ c pos hc e z. absurd (omega arith);
  }

  -- The package sinks to a place where the queue is a heap again.
  lowered_sift :
      Returns (IsTouched q (at q.items 0)) (fix (written q (at q.items 0) pack index) (some 0))
  unfolding written
  lowered_sift =
      let q' = written q (at q.items 0) pack index in
      rw (fix-some q' 0) (
        Returns-map {P = λ r. IsSifted (length q.items) q' r × IsHeap (length q.items) r}
          (IsTouched q (at q.items 0)) (sift q' 0 (length q.items))
          (sift_restores (length q.items) q' 0
            (written-IsIndexed q (at q.items 0) pack index v.indexed) (omega arith) hi
            written-GapInv)
          λ r (s, heap). record {
            valid = record { indexed = s.indexed; heap = rw s.size heap };
            size = s.size;
            kept = s.kept;
            from = s.from;
            same = λ x h. s.same x ∙ written-same q (at q.items 0) pack index x h;
            kind =
                λ x. ap (λ y. y.kind) (s.same x) ∙ written-kind q (at q.items 0) pack index kind x;
          })

  -- A write that changes neither the priority nor the time keeps the order.
  written-IsTouched :
      (pack_at q 0).priority ≡ pack.priority
      → (pack_at q 0).time ≡ pack.time
      → IsTouched q (at q.items 0) (written q (at q.items 0) pack index)
  unfolding written key
  written-IsTouched e f = record {
    valid = record {
      indexed = written-IsIndexed q (at q.items 0) pack index v.indexed;
      heap = λ c pos hc. ground (arith, v.heap c pos hc);
    };
    size = refl;
    kept = λ x h. h;
    from = λ x h. h;
    same = λ x h. written-same q (at q.items 0) pack index x h;
    kind = λ x. written-kind q (at q.items 0) pack index kind x;
  }

module _ (s : DefaultPipeStore) (v : IsValid s.pq) where
  -- The end of peek on the first package of the queue.
  pub retry_first :
      0 < length s.pq.items
      → Returns
          (λ r.
            (r.0 ≡ some (at s.pq.items 0))
            × IsTouched s.pq (at s.pq.items 0) r.1.pq
            × (r.1.kinds ≡ s.kinds)
            × (r.1.removed ≡ s.removed))
          (retry s (at s.pq.items 0))
  unfolding retry written
  retry_first hi =
      let p = at s.pq.items 0 in
      let pack = s.pq.mem p in
      let next = record pack { retries = pack.retries + 1 } in
      let lower = record next { priority = next.priority + 1; index = some 0 } in
      let index : lower.index ≡ pack.index = sym (v.indexed 0 hi) in
      let sunk = lowered_sift s.pq lower v hi index refl in
      elim (Bool-cases (ltb 0 pack.retry_limit && ((pack.retries + 1) % pack.retry_limit) == 0)) [
        | inl due ↦
            rw (due, v.indexed 0 hi)
              (Returns-bind {P = IsTouched s.pq p} _ (fix (written s.pq p lower index) (some 0)) _
                sunk λ q h. (refl, h, refl, refl))
        | inr early ↦
            rw early (refl, written-IsTouched s.pq next v hi refl refl refl refl, refl, refl)
      ]

-- A write to a package that has been taken out.
written-IsTaken :
    (a q : PriorityQueue) (p : Address) (pack : Package) (index : pack.index ≡ (q.mem p).index)
    → pack.kind ≡ (q.mem p).kind
    → IsRemoved a p q
    → IsTaken a p (written q p pack index)
unfolding written key
written-IsTaken a q p pack index kind u =
    let other : (c : ℕ) → c < length q.items → at q.items c ≢ p =
      λ c hc. (u.from (at q.items c) (c, hc, refl)).1 in
    record {
      valid = record {
        indexed = written-IsIndexed q p pack index u.valid.indexed;
        heap = λ c pos hc.
            ground (arith, u.valid.heap c pos hc, other c hc, other (parent c) (omega arith));
      };
      size = u.size;
      gone = ground (arith, u.gone);
      kept = u.kept;
      from = u.from;
      same = λ r h. written-same q p pack index r h ∙ u.same r;
      kind = λ r. written-kind q p pack index kind r ∙ ap (λ x. x.kind) (u.same r);
    }

-- A retry of a package that has been taken out changes the package alone.
pub retry_gone :
    (a : PriorityQueue) (s : DefaultPipeStore) (p : Address)
    → IsRemoved a p s.pq
    → Returns
        (λ r.
          (r.0 ≡ some p) × IsTaken a p r.1.pq × (r.1.kinds ≡ s.kinds) × (r.1.removed ≡ s.removed))
        (retry s p)
unfolding retry written
retry_gone a s p u =
    let pack = s.pq.mem p in
    let next = record pack { retries = pack.retries + 1; index = none } in
    let lower = record next { priority = next.priority + 1 } in
    let index : next.index ≡ pack.index = sym u.gone in
    elim (Bool-cases (ltb 0 pack.retry_limit && ((pack.retries + 1) % pack.retry_limit) == 0)) [
      | inl due ↦
          rw (due, u.gone, fix-none (written s.pq p lower index))
            (refl, written-IsTaken a s.pq p lower index refl u, refl, refl)
      | inr early ↦
          rw (early, u.gone) (refl, written-IsTaken a s.pq p next index refl u, refl, refl)
    ]
