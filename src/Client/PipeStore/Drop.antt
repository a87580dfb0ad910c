-- ===== src/Client/PipeStore/Drop.antt =====
-- The methods remove and removeKind on a store whose map of kinds lists the packages of its queue.
use magalix_agent.Prelude.{
  ℕ, suc, ◌<◌, ◌≡◌, refl, ap, String, true, Option, none, some, List, ◌++◌, arith, length, take,
  drop, ltb, ok, Returns, Returns-eq, eq_refl,
}
use magalix_agent.Prelude.Dict
use magalix_agent.Prelude.Dict.{Dict}
use magalix_agent.Client.Queue.{Address, PriorityQueue}
use magalix_agent.Client.Queue
use magalix_agent.Client.Queue.Order.{at, pack_at}
use magalix_agent.Client.Queue.Swap.{In}
use magalix_agent.Client.Queue.Sift.{IsRemoved}
use magalix_agent.Client.Queue.Remove.{TakesOut, remove-TakesOut}
use magalix_agent.Client.PipeStore.{
  DefaultPipeStore, or_empty, cut, cut_kind, remove_kind, forget_package, remove,
}
use magalix_agent.Client.PipeStore.Cut.{IsCut, InList, take-IsCut, without_first-IsCut}
use magalix_agent.Client.PipeStore.Tracked.{
  listed, IsTracked, IsRemoved-IsWithout, IsWithout-IsTracked, listed-insert,
}

cut_kind-ok :
    (kinds : Dict (List Address)) (name : String) (i : ℕ) (o : Option (List Address))
    → i < length (or_empty o)
    → cut_kind kinds name i o
      ≡ ok (Dict.insert name (take i (or_empty o) ++ drop (suc i) (or_empty o)) kinds)
unfolding cut_kind cut
cut_kind-ok kinds name i none h = absurd (omega arith)
cut_kind-ok kinds name i (some l) h = let b : ltb i (length l) ≡ true = ground arith in rw b refl

forget_package-ok :
    (p : Address) (kinds : Dict (List Address)) (name : String) (o : Option (List Address))
    → InList p (or_empty o)
    → (i : ℕ) × (i < length (or_empty o))
      × (at (or_empty o) i ≡ p)
      × (ys : List Address) × (forget_package p name o kinds ≡ Dict.insert name ys kinds)
      × IsCut (or_empty o) i ys
unfolding forget_package
forget_package-ok p kinds name none (i, h, e) = absurd (omega arith)
forget_package-ok p kinds name (some l) h =
    let (i, hi, e, ys, found, k) = without_first-IsCut p l h in
    (i, hi, e, ys, rw (forget_package, found) refl, k)

-- `s'` is `s` without the package, in the queue and in the map of kinds.
pub record IsDropped (s : DefaultPipeStore) (p : Address) (n : ℕ) (s' : DefaultPipeStore)
    : Type 0 where
  pub tracked : IsTracked s'
  pub taken : IsRemoved s.pq p s'.pq
  pub removed : s'.removed ≡ n

module _ (s : DefaultPipeStore) (t : IsTracked s) (p : Address) (n : ℕ) where
  abbrev name : String
  name = (s.pq.mem p).kind

  -- The removal from the queue, and the name that it leaves.
  taken_out :
      In p s.pq
      → (r : Address × PriorityQueue) × (Queue.remove s.pq (s.pq.mem p).index ≡ ok r)
        × IsRemoved s.pq p r.1
        × ((r.1.mem p).kind ≡ name)
  taken_out (i, hi, e) =
      let index : (s.pq.mem p).index ≡ some i = rw (pack_at, e) at (t.valid.indexed i hi) in
      let out : Returns (TakesOut s.pq p) (Queue.remove s.pq (some i)) =
        rw e at (remove-TakesOut s.pq i t.valid hi) in
      let (r, run, (same, u)) = Returns-eq (Queue.remove s.pq (some i)) out in
      (r, rw index run, u, ap (λ pack. pack.kind) (u.same p))

  dropped :
      (q : PriorityQueue) (i : ℕ) (ys : List Address)
      → IsRemoved s.pq p q
      → i < length (listed s.kinds name)
      → at (listed s.kinds name) i ≡ p
      → IsCut (listed s.kinds name) i ys
      → IsDropped s p n (record { removed = n; pq = q; kinds = Dict.insert name ys s.kinds })
  dropped q i ys u hi place k = record {
    tracked = IsWithout-IsTracked s p i q ys t (IsRemoved-IsWithout s.pq p q u) hi place k n;
    taken = u;
    removed = refl;
  }

  -- removeKind at the position of the package.
  pub remove_kind-IsDropped :
      (i : ℕ)
      → i < length (listed s.kinds name)
      → at (listed s.kinds name) i ≡ p
      → Returns
          (λ s'. IsDropped s p n s' × IsCut (listed s.kinds name) i (listed s'.kinds name))
          (remove_kind (record s { removed = n }) p i)
  unfolding remove_kind
  remove_kind-IsDropped i hi place =
      let ys = take i (listed s.kinds name) ++ drop (suc i) (listed s.kinds name) in
      let k = take-IsCut (listed s.kinds name) i hi in
      let (r, run, u, kind) = taken_out (t.from name p (i, hi, place)).0 in
      let same : listed (Dict.insert name ys s.kinds) name ≡ ys =
        rw (listed-insert s.kinds name ys name, eq_refl name) refl in
      rw (run, kind, cut_kind-ok s.kinds name i (Dict.lookup name s.kinds) hi)
        (dropped r.1 i ys u hi place k, rw same k)

  -- The method remove on a package of the queue.
  pub remove-IsDropped : In p s.pq → Returns (IsDropped s p n) (remove (record s { removed = n }) p)
  unfolding remove
  remove-IsDropped h =
      let (r, run, u, kind) = taken_out h in
      let (i, hi, place, ys, found, k) =
        forget_package-ok p s.kinds name (Dict.lookup name s.kinds) (t.tracked p h) in
      rw (run, kind, found) (dropped r.1 i ys u hi place k)
