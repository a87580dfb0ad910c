-- ===== src/Client/PipeStore/Enter.antt =====
-- The first part of Add: the package enters the queue and the list of its kind.
use magalix_agent.Prelude.{
  ℕ, suc, ◌<◌, ◌≡◌, ◌≢◌, ◌⊎◌, inl, inr, refl, sym, ap, ◌∙◌, String, some, List, [], ◌∷◌, ◌++◌,
  arith, length, length-append, ◌==◌, Returns, Returns-map, Bool-cases, eq_refl,
}
use magalix_agent.Prelude.Dict
use magalix_agent.Prelude.Dict.{Dict}
use magalix_agent.Client.Queue.{Package, Address, Memory, PriorityQueue, sift, fix, parent}
use magalix_agent.Client.Queue.Order.{at, at-append, at-append_last, pack_at}
use magalix_agent.Client.Queue.Swap.{In, key, IsSifted, IsHeap}
use magalix_agent.Client.Queue.Sift.{IsValid, IsAdded, IsHeap-GapInv, sift_restores, fix-some}
use magalix_agent.Client.PipeStore.{DefaultPipeStore, stamp}
use magalix_agent.Client.PipeStore.Cut.{InList}
use magalix_agent.Client.PipeStore.Tracked.{listed, IsTracked, listed-insert, listed-insert_cases}

stamp-other :
    (mem : Address → Package) (p : Address) (created : ℕ) (r : Address)
    → r ≢ p
    → stamp mem p created r ≡ mem r
unfolding stamp
stamp-other mem p created r h = ground arith

pub stamp-kind :
    (mem : Address → Package) (p : Address) (created : ℕ) (r : Address)
    → (stamp mem p created r).kind ≡ (mem r).kind
unfolding stamp
stamp-kind mem p created r = ground arith

-- The queue does not see a change of packages outside it.
pub changed-IsValid :
    (q : PriorityQueue) (mem : Memory)
    → IsValid q
    → ((r : Address) → In r q → mem r ≡ q.mem r)
    → IsValid (record q { mem = mem })
unfolding key
changed-IsValid q mem v h =
    let same : (c : ℕ) → c < length q.items → mem (at q.items c) ≡ q.mem (at q.items c) =
      λ c hc. h (at q.items c) (c, hc, refl) in
    record {
      indexed = λ c hc. rw (same c hc) (v.indexed c hc);
      heap = λ c pos hc. rw (same c hc, same (parent c) (omega arith)) (v.heap c pos hc);
    }

pub stamped-IsValid :
    (q : PriorityQueue) (p : Address) (created : ℕ)
    → IsValid q
    → ¬ In p q
    → IsValid (record q { mem = stamp q.mem p created })
stamped-IsValid q p created v fresh =
    changed-IsValid q (stamp q.mem p created) v
      λ r (c, hc, e). stamp-other q.mem p created r λ e'. fresh (c, hc, e ∙ e')

-- Fix of a package of a valid queue leaves a valid queue with the same packages.
pub fixed-IsAdded :
    (a q : PriorityQueue) (p : Address)
    → IsAdded a p q
    → Returns (IsAdded a p) (fix q (q.mem p).index)
fixed-IsAdded a q p g =
    let (i, hi, e) = g.added in
    let index : (q.mem p).index ≡ some i = rw (pack_at, e) at (g.valid.indexed i hi) in
    rw (index, fix-some q i)
      (Returns-map {P = λ r. IsSifted (length q.items) q r × IsHeap (length q.items) r}
        (IsAdded a p) (sift q i (length q.items))
        (sift_restores (length q.items) q i g.valid.indexed (omega arith) hi
          (IsHeap-GapInv (length q.items) q i hi g.valid.heap))
        λ r (s, heap). record {
          valid = record { indexed = s.indexed; heap = rw s.size heap };
          size = s.size ∙ g.size;
          added = s.kept p g.added;
          kept = λ x h. s.kept x (g.kept x h);
          from = λ x h. g.from x (s.from x h);
          same = λ x. s.same x ∙ g.same x;
        })

module _ (s : DefaultPipeStore) (p : Address) (created : ℕ) (t : IsTracked s)
    (fresh : ¬ In p s.pq) where
  abbrev pub name : String
  name = (s.pq.mem p).kind

  abbrev pub longer : List Address
  longer = listed s.kinds name ++ p ∷ []

  -- The store that the loop starts from.
  abbrev pub entered : PriorityQueue → DefaultPipeStore
  entered pq = record s { pq = pq; kinds = Dict.insert name longer s.kinds }

  pub length-longer : length longer ≡ suc (length (listed s.kinds name))
  length-longer = omega (arith, length-append (listed s.kinds name) (p ∷ []))

  longer-from :
      (i : ℕ)
      → i < length longer
      → ((i ≡ length (listed s.kinds name)) × (at longer i ≡ p))
        ⊎ ((i < length (listed s.kinds name)) × (at longer i ≡ at (listed s.kinds name) i))
  longer-from i hi = elim (Bool-cases (i == length (listed s.kinds name))) [
    | inl last ↦
        let e : i ≡ length (listed s.kinds name) = ground arith in
        inl (e, rw e (at-append_last (listed s.kinds name) p))
    | inr before ↦
        let inner : i < length (listed s.kinds name) = ground (arith, length-longer) in
        inr (inner, at-append (listed s.kinds name) p i inner)
  ]

  not_listed : (m : String) (c : ℕ) → c < length (listed s.kinds m) → at (listed s.kinds m) c ≢ p
  not_listed m c hc e = fresh (t.from m p (c, hc, e)).0

  longer-kept : (r : Address) → InList r (listed s.kinds name) → InList r longer
  longer-kept r (c, hc, e) =
      (c, omega (arith, length-longer), at-append (listed s.kinds name) p c hc ∙ e)

  longer-distinct :
      (c d : ℕ) → c < length longer → d < length longer → at longer c ≡ at longer d → c ≡ d
  longer-distinct c d hc hd e = elim (longer-from c hc) [
    | inl (i, u) ↦ elim (longer-from d hd) [
      | inl (j, w) ↦ i ∙ sym j
      | inr (j, w) ↦ absurd (not_listed name d j (sym w ∙ sym e ∙ u))
    ]
    | inr (i, u) ↦ elim (longer-from d hd) [
      | inl (j, w) ↦ absurd (not_listed name c i (sym u ∙ e ∙ w))
      | inr (j, w) ↦ t.distinct name c d i j (sym u ∙ e ∙ w)
    ]
  ]

  module _ (pq : PriorityQueue)
      (g : IsAdded (record s.pq { mem = stamp s.pq.mem p created }) p pq) where
    kind_added : (r : Address) → (pq.mem r).kind ≡ (s.pq.mem r).kind
    kind_added r = ap (λ pack. pack.kind) (g.same r) ∙ stamp-kind s.pq.mem p created r

    entered-from :
        (m : String) (r : Address)
        → InList r (listed (entered pq).kinds m)
        → ((r ≡ p) × (m ≡ name)) ⊎ InList r (listed s.kinds m)
    entered-from m r h = elim (listed-insert_cases s.kinds name longer m) [
      | inr (differs, e) ↦ inr (rw e at h)
      | inl (same, e) ↦
          let (c, hc, e') : InList r longer = rw e at h in
          elim (longer-from c hc) [
            | inl (last, u) ↦ inl (sym e' ∙ u, sym same)
            | inr (inner, u) ↦
                let old : InList r (listed s.kinds name) = (c, inner, sym u ∙ e') in
                inr (rw same at old)
          ]
    ]

    pub entered-IsTracked : IsTracked (entered pq)
    entered-IsTracked = record {
      valid = g.valid;
      tracked = λ r h. rw (kind_added r) (elim (g.from r h) [
        | inl same ↦
            let e : listed (Dict.insert name longer s.kinds) name ≡ longer =
              rw (listed-insert s.kinds name longer name, eq_refl name) refl in
            rw (same, e)
              (
                length (listed s.kinds name),
                omega (arith, length-longer),
                at-append_last (listed s.kinds name) p,
              )
        | inr inner ↦ elim (listed-insert_cases s.kinds name longer (s.pq.mem r).kind) [
          | inl (same, e) ↦ rw e (longer-kept r (rw (sym same) at (t.tracked r inner)))
          | inr (differs, e) ↦ rw e (t.tracked r inner)
        ]
      ]);
      from = λ m r h. elim (entered-from m r h) [
        | inl (same, m') ↦ (rw same g.added, kind_added r ∙ rw (same, m') refl)
        | inr inner ↦ let (place, kind) = t.from m r inner in (g.kept r place, kind_added r ∙ kind)
      ];
      distinct = λ m c d. elim (listed-insert_cases s.kinds name longer m) [
        | inl (same, e) ↦ rw e (longer-distinct c d)
        | inr (differs, e) ↦ rw e (t.distinct m c d)
      ];
    }
