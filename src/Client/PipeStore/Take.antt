-- ===== src/Client/PipeStore/Take.antt =====
-- Peek, Ack and Pop on a valid queue.
use magalix_agent.Prelude.{
  ℕ, zero, suc, ◌+◌, ◌≤◌, ◌<◌, ◌≡◌, refl, sym, ap, ◌∙◌, true, false, some, arith, length, Returns,
  Returns-eq, Returns-bind, Returns-map, ltb, Bool-cases, inl, inr,
}
use magalix_agent.Client.Queue.{
  Package, Address, PriorityQueue, below, write, parent, sift, fix, load,
}
use magalix_agent.Client.Queue
use magalix_agent.Client.Queue.Order.{Le, Le-trans, Le_refl, at, load-ok, pack_at}
use magalix_agent.Client.Queue.Swap.{In, key, IsHeap}
use magalix_agent.Client.Queue.Sift.{IsValid, IsRemoved}
use magalix_agent.Client.Queue.Remove.{TakesOut, remove-TakesOut}
use magalix_agent.Client.PipeStore.{
  DefaultPipeStore, is_expired, remove, retry, look, peek, ack, ack_found, pop,
}
use magalix_agent.Client.PipeStore.Retry.{IsTouched, IsTaken, retry_first, retry_gone}

-- The first item of a heap comes before none of the others.
first_least :
    (q : PriorityQueue) (rounds i : ℕ)
    → IsHeap (length q.items) q
    → i ≤ rounds
    → i < length q.items
    → Le (key q 0) (key q i)
first_least q rounds zero h b hi = Le_refl (key q 0)
first_least q zero (suc i) h b hi = absurd (omega arith)
first_least q (suc rounds) (suc i) h b hi =
    Le-trans (key q 0) (key q (parent (suc i))) (key q (suc i))
      (first_least q rounds (parent (suc i)) h (omega arith) (omega arith))
      (h (suc i) (omega arith) hi)

-- No package of the queue comes before the package.
pub IsLeast : PriorityQueue → Address → Type 0
IsLeast q p = (r : Address) → In r q → below (q.mem r) (q.mem p) ≡ false

first-IsLeast : (q : PriorityQueue) → IsValid q → IsLeast q (at q.items 0)
unfolding IsLeast key
first-IsLeast q v r (i, hi, e) = rw (sym e) (first_least q i i v.heap (omega arith) hi)

pub IsTaken-removed :
    (a b c : PriorityQueue) (p : Address) → IsTouched a p b → IsRemoved b p c → IsTaken a p c
IsTaken-removed a b c p t u = record {
  valid = u.valid;
  size = sym t.size ∙ u.size;
  gone = u.gone;
  kept = λ r h other. u.kept r (t.kept r h) other;
  from = λ r h. let (inner, other) = u.from r h in (t.from r inner, other);
  same = λ r other. u.same r ∙ t.same r other;
  kind = λ r. ap (λ x. x.kind) (u.same r) ∙ t.kind r;
}

-- The method remove takes a package of the queue out of it.
remove_lem :
    (s : DefaultPipeStore) (p : Address)
    → IsValid s.pq
    → In p s.pq
    → Returns (λ s'. IsRemoved s.pq p s'.pq × (s'.removed ≡ s.removed)) (remove s p)
unfolding remove
remove_lem s p v (i, hi, e) =
    let index : (s.pq.mem p).index ≡ some i = rw (pack_at, e) at (v.indexed i hi) in
    let out : Returns (TakesOut s.pq p) (Queue.remove s.pq (some i)) =
      rw e at (remove-TakesOut s.pq i v hi) in
    rw index (
      Returns-bind {P = TakesOut s.pq p} _ (Queue.remove s.pq (some i)) _ out
        λ r (same, gone). (gone, refl))

module _ (s : DefaultPipeStore) (now : ℕ) (v : IsValid s.pq) (hi : 0 < length s.pq.items) where
  pub nonempty : ltb 0 (length s.pq.items) ≡ true
  nonempty = ground arith

  pub first-In : In (at s.pq.items 0) s.pq
  first-In = (0, hi, refl)

  -- Peek at an expired first package of a valid queue removes it from the queue, counts it as removed, and returns it.
  pub peek_expired :
      is_expired (pack_at s.pq 0) now ≡ true
      → Returns
          (λ r.
            (r.0 ≡ some (at s.pq.items 0))
            × IsTaken s.pq (at s.pq.items 0) r.1.pq
            × (r.1.removed ≡ s.removed + 1))
          (peek s now)
  unfolding peek look
  peek_expired late =
      let p = at s.pq.items 0 in
      let counted = record s { removed = s.removed + 1 } in
      rw (nonempty, load-ok s.pq 0 hi, late)
        (let (s', e, (u, count)) =
            Returns-eq (remove counted p) (remove_lem counted p v first-In) in
          rw e (
            Returns-map
              {P = λ r.
                (r.0 ≡ some p)
                × IsTaken s.pq p r.1.pq
                × (r.1.kinds ≡ s'.kinds)
                × (r.1.removed ≡ s'.removed)}
              _ (retry s' p) (retry_gone s.pq s' p u)
              λ r (same, t, kinds, count'). (same, t, count' ∙ count)))

  -- Peek at a valid queue whose first package has not expired returns that package, before which no package of the
  -- queue comes. The queue keeps all its packages, and only the first may change, but for indices.
  pub peek_first :
      is_expired (pack_at s.pq 0) now ≡ false
      → Returns
          (λ r.
            (r.0 ≡ some (at s.pq.items 0))
            × IsLeast s.pq (at s.pq.items 0)
            × IsTouched s.pq (at s.pq.items 0) r.1.pq)
          (peek s now)
  unfolding peek look
  peek_first early =
      rw (nonempty, load-ok s.pq 0 hi, early)
        (Returns-map
          {P = λ r.
            (r.0 ≡ some (at s.pq.items 0))
            × IsTouched s.pq (at s.pq.items 0) r.1.pq
            × (r.1.kinds ≡ s.kinds)
            × (r.1.removed ≡ s.removed)}
          _ (retry s (at s.pq.items 0)) (retry_first s v hi)
          λ r (same, t, kinds, count). (same, first-IsLeast s.pq v, t))

  -- Pop on a valid queue that is not empty returns its first package, before which no package comes,
  -- and takes it and nothing else out of the queue, whether or not the package has expired.
  pub pop-IsTaken :
      Returns
        (λ r.
          (r.0 ≡ some (at s.pq.items 0))
          × IsLeast s.pq (at s.pq.items 0)
          × IsTaken s.pq (at s.pq.items 0) r.1.pq)
        (pop s now)
  unfolding pop ack_found ack
  pop-IsTaken =
      let p = at s.pq.items 0 in
      let least = first-IsLeast s.pq v in
      elim (Bool-cases (is_expired (pack_at s.pq 0) now)) [
        | inl late ↦
            (let (r, e, (same, t, count)) = Returns-eq (peek s now) (peek_expired late) in
              rw (e, same, ack_found, ack, t.gone) (refl, least, t))
        | inr early ↦
            (let (r, e, (same, l, t)) = Returns-eq (peek s now) (peek_first early) in
              let (i, hi', place) = t.kept p first-In in
              let index : (r.1.pq.mem p).index ≡ some i =
                rw (pack_at, place) at (t.valid.indexed i hi') in
              rw (e, same, ack_found, ack, index)
                (Returns-bind {P = λ s'. IsRemoved r.1.pq p s'.pq × (s'.removed ≡ r.1.removed)} _
                  (remove r.1 p) _ (remove_lem r.1 p t.valid (i, hi', place))
                  λ s' (u, count). (refl, least, IsTaken-removed s.pq r.1.pq s'.pq p t u)))
      ]
