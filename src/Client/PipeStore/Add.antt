-- ===== src/Client/PipeStore/Add.antt =====
-- Add of a package that is not in the store.
use magalix_agent.Prelude.{
  ℕ, suc, ◌+◌, ◌≡◌, ◌≢◌, ◌⊎◌, inl, inr, refl, sym, ap, ◌∙◌, false, arith, length, ok, Returns,
  Returns-eq, eq_refl,
}
use magalix_agent.Client.Queue.{Address, PriorityQueue, push, fix}
use magalix_agent.Client.Queue.Swap.{In, without_index}
use magalix_agent.Client.Queue.Sift.{IsAdded}
use magalix_agent.Client.Queue.Push.{push-IsAdded}
use magalix_agent.Client.PipeStore.{DefaultPipeStore, is_dropped, expire_loop, stamp, add}
use magalix_agent.Client.PipeStore.Tracked.{listed, IsTracked, listed-insert}
use magalix_agent.Client.PipeStore.Enter.{
  stamp-kind, stamped-IsValid, fixed-IsAdded, longer, entered, length-longer, entered-IsTracked,
}
use magalix_agent.Client.PipeStore.Expire.{is_dropped_of_same, IsExpired, expire_loop-IsExpired}

-- What Add of a package leaves: the number of packages that it reports, and the store.
pub record IsStored (s : DefaultPipeStore) (p : Address) (created now : ℕ)
    (r : ℕ × DefaultPipeStore) : Type 0 where
  pub tracked : IsTracked r.1
  pub reset : r.1.removed ≡ 0
  pub count : r.0 + length r.1.pq.items ≡ s.removed + suc (length s.pq.items)
  pub settled :
      (x : Address)
      → In x r.1.pq
      → (r.1.pq.mem x).kind ≡ (s.pq.mem p).kind
      → is_dropped (r.1.pq.mem x) (length (listed r.1.kinds (s.pq.mem p).kind)) now ≡ false
  pub from : (x : Address) → In x r.1.pq → (x ≡ p) ⊎ In x s.pq
  pub kept_other : (x : Address) → In x s.pq → (s.pq.mem x).kind ≢ (s.pq.mem p).kind → In x r.1.pq
  pub kept_fresh :
      (x : Address)
      → (x ≡ p) ⊎ In x s.pq
      → is_dropped (s.pq.mem x) (suc (length (listed s.kinds (s.pq.mem p).kind))) now ≡ false
      → In x r.1.pq
  pub same :
      (x : Address) → without_index (r.1.pq.mem x) ≡ without_index (stamp s.pq.mem p created x)

module _ (s : DefaultPipeStore) (p : Address) (created now : ℕ) (t : IsTracked s)
    (fresh : ¬ In p s.pq) where
  stamp-is_dropped :
      (x : Address) (n : ℕ)
      → is_dropped (stamp s.pq.mem p created x) n now ≡ is_dropped (s.pq.mem x) n now
  unfolding stamp is_dropped
  stamp-is_dropped x n = ground arith

  stored :
      (pq : PriorityQueue) (s' : DefaultPipeStore)
      → IsAdded (record s.pq { mem = stamp s.pq.mem p created }) p pq
      → IsExpired (entered s p created t fresh pq) (s.pq.mem p).kind now s'
      → IsStored s p created now (s'.removed, record s' { removed = 0 })
  stored pq s' g x =
      let kinds = listed-insert s.kinds (s.pq.mem p).kind (longer s p created t fresh) in
      let size : length (listed (entered s p created t fresh pq).kinds (s.pq.mem p).kind)
          ≡ suc (length (listed s.kinds (s.pq.mem p).kind)) =
        rw (kinds (s.pq.mem p).kind, eq_refl (s.pq.mem p).kind)
          (length-longer s p created t fresh) in
      record {
        tracked = record {
          valid = x.tracked.valid;
          tracked = x.tracked.tracked;
          from = x.tracked.from;
          distinct = x.tracked.distinct;
        };
        reset = refl;
        count = omega (arith, x.count, g.size);
        settled = x.settled;
        from = λ r h. g.from r (x.from r h);
        kept_other = λ r h differs.
            let same : (pq.mem r).kind ≡ (s.pq.mem r).kind =
              ap (λ pack. pack.kind) (g.same r) ∙ stamp-kind s.pq.mem p created r in
            x.kept_other r (g.kept r h) (rw same differs);
        kept_fresh = λ r h stays.
            let inside : In r pq = elim h [ inl e ↦ rw e g.added | inr inner ↦ g.kept r inner ] in
            x.kept_fresh r inside (
              rw size (
                is_dropped_of_same (pq.mem r) (stamp s.pq.mem p created r) _ now (g.same r)
                ∙ stamp-is_dropped r _
                ∙ stays));
        same = λ r. x.same r ∙ g.same r;
      }

  -- Add of a package that is not in the queue to a store whose map of kinds lists the packages of its queue returns: it
  -- reports the packages that were dropped since the last Add, and every package is dropped, reported or in the queue.
  -- Afterwards no package of the same kind is expired, and none has an expiry count below the number of packages of its kind.
  -- Packages of other kinds stay, and so do those that are neither expired nor too many before the loop.
  pub add-IsStored : Returns (IsStored s p created now) (add s p created now)
  unfolding add
  add-IsStored =
      let q0 : PriorityQueue = record s.pq { mem = stamp s.pq.mem p created } in
      let (q, e, g) =
        Returns-eq (push q0 p)
          (push-IsAdded q0 p (stamped-IsValid s.pq p created t.valid fresh) fresh) in
      let (pq, e', g') = Returns-eq (fix q (q.mem p).index) (fixed-IsAdded q0 q p g) in
      let same : (pq.mem p).kind ≡ (s.pq.mem p).kind =
        ap (λ pack. pack.kind) (g'.same p) ∙ stamp-kind s.pq.mem p created p in
      let start = entered s p created t fresh pq in
      let here : listed start.kinds (s.pq.mem p).kind ≡ longer s p created t fresh =
        rw
          (
            listed-insert s.kinds (s.pq.mem p).kind (longer s p created t fresh) (s.pq.mem p).kind,
            eq_refl (s.pq.mem p).kind,
          )
          refl in
      let kind = listed start.kinds (s.pq.mem p).kind in
      let (s', run, x) = Returns-eq (expire_loop (length kind) start (s.pq.mem p).kind kind 0 now) (
        expire_loop-IsExpired (s.pq.mem p).kind now (length kind) start 0
          (entered-IsTracked s p created t fresh pq g') (λ c hc. absurd (omega arith))
          (omega arith)) in
      let list = longer s p created t fresh in
      let run' : expire_loop (length list) start (s.pq.mem p).kind list 0 now ≡ ok s' =
        ap (λ l. expire_loop (length l) start (s.pq.mem p).kind l 0 now) (sym here) ∙ run in
      rw (e, e', same, run') (stored pq s' g' x)
