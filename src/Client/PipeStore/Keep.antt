-- ===== src/Client/PipeStore/Keep.antt =====
-- Peek and Pop keep the map of kinds in step with the queue, and count the packages that they remove.
use magalix_agent.Prelude.{
  ℕ, ◌+◌, ◌<◌, ◌≡◌, refl, sym, ap, ◌∙◌, true, false, none, some, arith, length, ok, Returns,
  Returns-eq, Returns-bind, Returns-map, Bool-cases, inl, inr, if◌then◌else◌,
}
use magalix_agent.Prelude.Dict
use magalix_agent.Client.Queue.{Address, PriorityQueue, Memory}
use magalix_agent.Client.Queue.Order.{at, load-ok, pack_at}
use magalix_agent.Client.Queue.Swap.{In}
use magalix_agent.Client.Queue.Sift.{IsValid}
use magalix_agent.Client.PipeStore.{
  DefaultPipeStore, new_default_pipe_store, is_expired, remove, retry, look, peek, ack, ack_found,
  pop,
}
use magalix_agent.Client.PipeStore.Tracked.{IsTracked, IsWithout}
use magalix_agent.Client.PipeStore.Drop.{IsDropped, remove-IsDropped}
use magalix_agent.Client.PipeStore.Retry.{IsTouched, IsTaken, retry_first, retry_gone}
use magalix_agent.Client.PipeStore.Take.{IsTaken-removed, nonempty, first-In}

-- A change of the queue that keeps its packages and their kinds.
pub retained-IsTracked :
    (a b : DefaultPipeStore)
    → IsTracked a
    → IsValid b.pq
    → b.kinds ≡ a.kinds
    → ((p : Address) → In p a.pq → In p b.pq)
    → ((p : Address) → In p b.pq → In p a.pq)
    → ((p : Address) → In p a.pq → (b.pq.mem p).kind ≡ (a.pq.mem p).kind)
    → IsTracked b
retained-IsTracked a b t v e kept from kind = record {
  valid = v;
  tracked = λ p h. rw (e, kind p (from p h)) (t.tracked p (from p h));
  from = rw e λ name p h. let (inner, k) = t.from name p h in (kept p inner, kind p inner ∙ k);
  distinct = rw e t.distinct;
}

-- The new store lists the packages of its empty queue.
pub new_default_pipe_store-IsTracked : (mem : Memory) → IsTracked (new_default_pipe_store mem)
unfolding new_default_pipe_store Dict.lookup
new_default_pipe_store-IsTracked mem = record {
  valid = record { indexed = λ i h. absurd (omega arith); heap = λ c pos h. absurd (omega arith) };
  tracked = λ p (i, h, e). absurd (omega arith);
  from = λ name p (i, h, e). absurd (omega arith);
  distinct = λ name i j h. absurd (omega arith);
}

IsTaken-IsWithout :
    (q : PriorityQueue) (p : Address) (q' : PriorityQueue) → IsTaken q p q' → IsWithout q p q'
IsTaken-IsWithout q p q' t = record {
  valid = t.valid;
  size = t.size;
  kept = t.kept;
  from = t.from;
  kind = t.kind;
}

module _ (s : DefaultPipeStore) (now : ℕ) (t : IsTracked s) (hi : 0 < length s.pq.items) where
  abbrev p : Address
  p = at s.pq.items 0

  peek_late :
      is_expired (pack_at s.pq 0) now ≡ true
      → Returns
          (λ r.
            (r.0 ≡ some p) × IsTracked r.1 × IsTaken s.pq p r.1.pq × (r.1.removed ≡ s.removed + 1))
          (peek s now)
  unfolding peek look
  peek_late late =
      rw (nonempty s now t.valid hi, load-ok s.pq 0 hi, late)
        (let (a, e, d) =
            Returns-eq (remove (record s { removed = s.removed + 1 }) p)
              (remove-IsDropped s t p (s.removed + 1) (first-In s now t.valid hi)) in
          rw e (
            Returns-map
              {P = λ r.
                (r.0 ≡ some p)
                × IsTaken s.pq p r.1.pq
                × (r.1.kinds ≡ a.kinds)
                × (r.1.removed ≡ a.removed)}
              _ (retry a p) (retry_gone s.pq a p d.taken)
              λ r (same, k, kinds, count). (
                same,
                retained-IsTracked a r.1 d.tracked k.valid kinds
                    (λ x h. let (inner, other) = d.taken.from x h in k.kept x inner other)
                    (λ x h. let (inner, other) = k.from x h in d.taken.kept x inner other)
                    λ x h. k.kind x ∙ sym (ap (λ y. y.kind) (d.taken.same x)),
                k,
                count ∙ d.removed,
              )))

  peek_early :
      is_expired (pack_at s.pq 0) now ≡ false
      → Returns
          (λ r.
            (r.0 ≡ some p) × IsTracked r.1 × IsTouched s.pq p r.1.pq × (r.1.removed ≡ s.removed))
          (peek s now)
  unfolding peek look
  peek_early early =
      rw (nonempty s now t.valid hi, load-ok s.pq 0 hi, early)
        (Returns-map
          {P = λ r.
            (r.0 ≡ some p)
            × IsTouched s.pq p r.1.pq
            × (r.1.kinds ≡ s.kinds)
            × (r.1.removed ≡ s.removed)}
          _ (retry s p) (retry_first s t.valid hi)
          λ r (same, k, kinds, count). (
            same,
            retained-IsTracked s r.1 t k.valid kinds k.kept k.from λ x h. k.kind x,
            k,
            count,
          ))

  -- Pop of a store whose map of kinds lists the packages of its queue keeps that, takes one package out, and
  -- counts it as removed when it has expired.
  pub pop-IsTracked :
      Returns
        (λ r.
          (r.0 ≡ some p)
          × IsTracked r.1
          × IsWithout s.pq p r.1.pq
          × (r.1.removed ≡ s.removed + (if is_expired (pack_at s.pq 0) now then 1 else 0)))
        (pop s now)
  unfolding pop ack_found ack
  pop-IsTracked = elim (Bool-cases (is_expired (pack_at s.pq 0) now)) [
    | inl late ↦
        (let (r, e, (same, tr, k, count)) = Returns-eq (peek s now) (peek_late late) in
          rw (e, same, ack_found, ack, k.gone, late)
            (refl, tr, IsTaken-IsWithout s.pq p r.1.pq k, count))
    | inr early ↦
        (let (r, e, (same, tr, k, count)) = Returns-eq (peek s now) (peek_early early) in
          let (i, hi', place) = k.kept p (first-In s now t.valid hi) in
          let index : (r.1.pq.mem p).index ≡ some i =
            rw (pack_at, place) at (k.valid.indexed i hi') in
          rw (e, same, ack_found, ack, index, early)
            (Returns-bind {P = IsDropped r.1 p r.1.removed} _ (remove r.1 p) _
              (remove-IsDropped r.1 tr p r.1.removed (i, hi', place))
              λ b d. (
                refl,
                d.tracked,
                IsTaken-IsWithout s.pq p b.pq (IsTaken-removed s.pq r.1.pq b.pq p k d.taken),
                omega (arith, d.removed, count),
              )))
  ]

-- Pop of an empty store gives nothing.
pub pop_nothing :
    (s : DefaultPipeStore) (now : ℕ) → length s.pq.items ≡ 0 → pop s now ≡ ok (none, s)
unfolding pop peek ack_found
pop_nothing s now e = rw e refl
