-- ===== src/Client/Queue/Push.antt =====
-- heap.Push adds one package to a heap of indexed packages.
use magalix_agent.Prelude.{
  ℕ, suc, ◌-◌, ◌<◌, ◌≡◌, ◌≢◌, ◌⊎◌, inl, inr, sym, ◌∙◌, some, [], ◌∷◌, arith, length, length-append,
  Returns, Returns-map, if◌then◌else◌, ◌==◌,
}
use magalix_agent.Client.Queue.{Address, PriorityQueue, parent, up, push_item, push}
use magalix_agent.Client.Queue.Order.{at-append, at-append_last, at, pack_at}
use magalix_agent.Client.Queue.Swap.{IsIndexed, In, without_index, IsSifted, IsHeap}
use magalix_agent.Client.Queue.Up.{UpInv, up_restores}
use magalix_agent.Client.Queue.Sift.{IsValid, IsAdded, key_of_same}

push_item-at :
    (q : PriorityQueue) (p : Address) (c : ℕ)
    → c < length q.items
    → at (push_item q p).items c ≡ at q.items c
unfolding push_item
push_item-at q p c h = at-append q.items p c h

push_item-at_last :
    (q : PriorityQueue) (p : Address) → at (push_item q p).items (length q.items) ≡ p
unfolding push_item
push_item-at_last q p = at-append_last q.items p

index-push_item :
    (q : PriorityQueue) (p r : Address)
    → ((push_item q p).mem r).index ≡ (if p == r then some (length q.items) else (q.mem r).index)
unfolding push_item
index-push_item q p r = ground arith

push_item-same :
    (q : PriorityQueue) (p r : Address)
    → without_index ((push_item q p).mem r) ≡ without_index (q.mem r)
unfolding push_item
push_item-same q p r = ground arith

length-push_item :
    (q : PriorityQueue) (p : Address) → length (push_item q p).items ≡ suc (length q.items)
unfolding push_item
length-push_item q p = omega (arith, length-append q.items (p ∷ []))

module _ (q : PriorityQueue) (p : Address) (v : IsValid q) (fresh : ¬ In p q) where
  -- A position of the longer queue is the last one, or one of the queue.
  place : (c : ℕ) → c < length (push_item q p).items → (c ≡ length q.items) ⊎ (c < length q.items)
  place c h = omega (arith, length-push_item q p)

  push_item-IsIndexed : IsIndexed (push_item q p)
  push_item-IsIndexed c h = elim (place c h) [
    | inl last ↦
        rw last (rw (push_item-at_last q p, pack_at) (ground (arith, index-push_item q p p)))
    | inr inner ↦
        let other : at q.items c ≢ p = λ e. fresh (c, inner, e) in
        rw (push_item-at q p c inner, pack_at)
          (ground (arith, index-push_item q p (at q.items c), v.indexed c inner))
  ]

  push_item-from : (r : Address) → In r (push_item q p) → (r ≡ p) ⊎ In r q
  push_item-from r (c, h, e) = elim (place c h) [
    | inl last ↦
        let e' : at (push_item q p).items (length q.items) ≡ r = rw last at e in
        inl (sym e' ∙ push_item-at_last q p)
    | inr inner ↦ inr (c, inner, sym (push_item-at q p c inner) ∙ e)
  ]

  push_item-UpInv : UpInv (length (push_item q p).items) (push_item q p) (length q.items)
  push_item-UpInv =
      let size = length-push_item q p in
      let kept = λ (c : ℕ) (h : c < length q.items).
        key_of_same q (push_item q p) c (push_item-at q p c h)
          (sym (push_item-same q p (at q.items c))) in
      record {
        edges = λ c pos h other.
            let inner : c < length q.items = omega (arith, size) in
            rw (kept c inner, kept (parent c) (omega arith)) (v.heap c pos inner);
        bridged = λ c pos h e z. absurd (omega (arith, size));
      }

  -- Push of a package that is not in a valid queue adds it, and nothing else, and leaves a valid queue.
  pub push-IsAdded : Returns (IsAdded q p) (push q p)
  unfolding push
  push-IsAdded =
      let size = length-push_item q p in
      let q' = push_item q p in
      let last : length q'.items - 1 ≡ length q.items = omega (arith, size) in
      let run =
        up_restores (length q'.items) q' (length q.items) push_item-IsIndexed (omega arith)
          (omega (arith, size)) push_item-UpInv in
      rw last (
        Returns-map {P = λ r. IsSifted (length q'.items) q' r × IsHeap (length q'.items) r}
          (IsAdded q p) (up q' (length q.items)) run
          λ r (s, heap). record {
            valid = record { indexed = s.indexed; heap = rw s.size heap };
            size = s.size ∙ size;
            added = s.kept p (length q.items, omega (arith, size), push_item-at_last q p);
            kept = λ x (c, h, e). s.kept x (c, omega (arith, size), push_item-at q p c h ∙ e);
            from = λ x h. push_item-from x (s.from x h);
            same = λ x. s.same x ∙ push_item-same q p x;
          })
