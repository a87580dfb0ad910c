-- ===== src/Gateway/Governance/Batches.antt =====
-- The batches of the worker: nothing is lost or sent twice, and the order is kept.
use mathlib.Core.List.{append-nil, append_assoc}
use magalix_agent.Prelude.{
  ℕ, ◌≤◌, ◌<◌, ◌≡◌, refl, sym, ap, ◌∙◌, List, [], ◌∷◌, ◌++◌, ltb, ◌==◌, length, length-append, All,
  All-append, arith, inl, inr, Bool-cases,
}
use magalix_agent.Agent.Governance.{AuditResult}
use magalix_agent.Proto.{PacketAuditResultItem}
use magalix_agent.Gateway.Governance.{
  to_packets, AuditResultPackage, MagalixGateway, send_audit_results_batch, Selected, result, timer,
  select, send_audit_results_worker,
}

-- The results that come through the channel.
pub received : List Selected → List AuditResult
received [] = []
received (result r now ∷ xs) = r ∷ received xs
received (timer now ∷ xs) = received xs

-- The items of the packages, in the order in which they were piped.
pub items_of : List AuditResultPackage → List PacketAuditResultItem
items_of [] = []
items_of (p ∷ ps) = p.packet.items ++ items_of ps

-- What a gateway has taken on: the items that it piped, and then those of its buffer.
pub taken_on : MagalixGateway → List PacketAuditResultItem
unfolding items_of
taken_on g = items_of g.piped ++ to_packets g.audit_results_buffer

-- A package has some item, and no more than the capacity of the buffer.
pub IsBatch : ℕ → AuditResultPackage → Type 0
IsBatch capacity p = (0 < length p.packet.items) × (length p.packet.items ≤ capacity)

pub record IsBatching (g : MagalixGateway) : Type 0 where
  pub room : length g.audit_results_buffer < g.capacity
  pub batches : All (IsBatch g.capacity) g.piped

to_packets-append :
    (rs ss : List AuditResult) → to_packets (rs ++ ss) ≡ to_packets rs ++ to_packets ss
unfolding to_packets
to_packets-append [] ss = refl
to_packets-append (r ∷ rs) ss = rw (to_packets-append rs ss) refl

length-to_packets : (rs : List AuditResult) → length (to_packets rs) ≡ length rs
unfolding to_packets
length-to_packets [] = refl
length-to_packets (r ∷ rs) = omega (arith, length-to_packets rs)

items_of-append :
    (ps : List AuditResultPackage) (p : AuditResultPackage)
    → items_of (ps ++ p ∷ []) ≡ items_of ps ++ p.packet.items
unfolding items_of
items_of-append [] p = append-nil p.packet.items
items_of-append (q ∷ ps) p =
    rw (items_of-append ps p) (sym (append_assoc q.packet.items (items_of ps) p.packet.items))

-- A buffer that is sent is empty after it.
module _ (g : MagalixGateway) (buffer : List AuditResult) (now : ℕ) where
  sent : MagalixGateway
  sent = record (send_audit_results_batch g buffer now) { audit_results_buffer = [] }

  taken_on-sent : taken_on sent ≡ items_of g.piped ++ to_packets buffer
  unfolding taken_on sent send_audit_results_batch to_packets
  taken_on-sent = append-nil _ ∙ items_of-append g.piped _

  sent-IsBatching :
      All (IsBatch g.capacity) g.piped
      → 0 < length buffer
      → length buffer ≤ g.capacity
      → IsBatching sent
  unfolding sent send_audit_results_batch IsBatch
  sent-IsBatching h some_item fits = record {
    room = omega arith;
    batches =
        All-append _ g.piped _ h
          ((omega (arith, length-to_packets buffer), omega (arith, length-to_packets buffer)), tt);
  }

-- One round keeps the batches well formed, and takes on what it receives.
record IsRound (g : MagalixGateway) (x : Selected) (g' : MagalixGateway) : Type 0 where
  same_capacity : g'.capacity ≡ g.capacity
  batching : IsBatching g'
  taken : taken_on g' ≡ taken_on g ++ to_packets (received (x ∷ []))

to_packets-snoc :
    (g : MagalixGateway) (r : AuditResult)
    → items_of g.piped ++ to_packets (g.audit_results_buffer ++ r ∷ [])
      ≡ taken_on g ++ to_packets (r ∷ [])
unfolding taken_on
to_packets-snoc g r =
    ap (λ (ps : List PacketAuditResultItem). items_of g.piped ++ ps)
      (to_packets-append g.audit_results_buffer (r ∷ []))
    ∙ sym
        (append_assoc (items_of g.piped) (to_packets g.audit_results_buffer) (to_packets (r ∷ [])))

select-IsRound : (g : MagalixGateway) (x : Selected) → IsBatching g → IsRound g x (select g x)
unfolding select received sent
select-IsRound g (result r now) b =
    let buffer = g.audit_results_buffer ++ r ∷ [] in
    let g' : MagalixGateway = record g { audit_results_buffer = buffer } in
    let size = length-append g.audit_results_buffer (r ∷ []) in
    elim (Bool-cases (length buffer == g.capacity)) [
      | inl full ↦ rw full (record {
        same_capacity = unfold send_audit_results_batch in refl;
        batching =
            sent-IsBatching g' buffer now b.batches (omega (arith, size)) (ground (arith, full));
        taken = taken_on-sent g' buffer now ∙ to_packets-snoc g r;
      })
      | inr space ↦ rw space (record {
        same_capacity = refl;
        batching = record { room = ground (arith, space, size, b.room); batches = b.batches };
        taken = unfold taken_on in to_packets-snoc g r;
      })
    ]
select-IsRound g (timer now) b = elim (Bool-cases (ltb 0 (length g.audit_results_buffer))) [
  | inl waiting ↦ rw waiting (record {
    same_capacity = unfold send_audit_results_batch in refl;
    batching =
        sent-IsBatching g g.audit_results_buffer now b.batches (ground arith)
          (omega (arith, b.room));
    taken =
        unfold taken_on in
        (unfold to_packets in taken_on-sent g g.audit_results_buffer now ∙ sym (append-nil _));
  })
  | inr empty ↦ rw empty (record {
    same_capacity = refl;
    batching = b;
    taken = unfold to_packets in sym (append-nil _);
  })
]

received-cons :
    (x : Selected) (xs : List Selected) → received (x ∷ xs) ≡ received (x ∷ []) ++ received xs
unfolding received
received-cons (result r now) xs = refl
received-cons (timer now) xs = refl

-- Whatever the worker selects, in any order, a buffer with room keeps room, each package that it
-- pipes has at least one item and at most as many as the capacity, and the items piped, followed by
-- those of the buffer, are those of before, followed by the received results in their order.
pub worker-IsBatching :
    (g : MagalixGateway) (xs : List Selected)
    → IsBatching g
    → IsBatching (send_audit_results_worker g xs)
      × (taken_on (send_audit_results_worker g xs) ≡ taken_on g ++ to_packets (received xs))
unfolding send_audit_results_worker
worker-IsBatching g [] b =
    (b, unfold received in (unfold to_packets in sym (append-nil (taken_on g))))
worker-IsBatching g (x ∷ xs) b =
    let round = select-IsRound g x b in
    let (batching, taken) = worker-IsBatching (select g x) xs round.batching in
    (
      batching,
      taken
          ∙ ap (λ (ps : List PacketAuditResultItem). ps ++ to_packets (received xs)) round.taken
          ∙ append_assoc (taken_on g) (to_packets (received (x ∷ []))) (to_packets (received xs))
          ∙ ap (λ (ps : List PacketAuditResultItem). taken_on g ++ ps)
              (sym (to_packets-append (received (x ∷ [])) (received xs)))
          ∙ ap (λ (rs : List AuditResult). taken_on g ++ to_packets rs) (sym (received-cons x xs)),
    )
