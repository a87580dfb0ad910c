-- ===== src/Client/PipeStore/Tracked.antt =====
-- The map of kinds of the store lists the packages of the queue, each under its kind.
use magalix_agent.Prelude.{
  ℕ, suc, ◌<◌, ◌≡◌, ◌≢◌, ◌⊎◌, inl, inr, sym, ap, ◌∙◌, String, List, arith, length, str_eq, eq_iff,
  if◌then◌else◌,
}
use magalix_agent.Prelude.Dict
use magalix_agent.Prelude.Dict.{Dict, lookup-insert}
use magalix_agent.Client.Queue.{Address, PriorityQueue}
use magalix_agent.Client.Queue.Order.{at}
use magalix_agent.Client.Queue.Swap.{In}
use magalix_agent.Client.Queue.Sift.{IsValid, IsRemoved}
use magalix_agent.Client.PipeStore.{DefaultPipeStore, or_empty}
use magalix_agent.Client.PipeStore.Cut.{IsCut, InList, source, cut-from, cut-kept}

-- The packages that the map lists under a kind.
abbrev pub listed : Dict (List Address) → String → List Address
listed kinds name = or_empty (Dict.lookup name kinds)

pub record IsTracked (s : DefaultPipeStore) : Type 0 where
  pub valid : IsValid s.pq
  pub tracked : (p : Address) → In p s.pq → InList p (listed s.kinds (s.pq.mem p).kind)
  pub from :
      (name : String) (p : Address)
      → InList p (listed s.kinds name)
      → In p s.pq × ((s.pq.mem p).kind ≡ name)
  pub distinct :
      (name : String) (i j : ℕ)
      → i < length (listed s.kinds name)
      → j < length (listed s.kinds name)
      → at (listed s.kinds name) i ≡ at (listed s.kinds name) j
      → i ≡ j

-- `q'` is `q` without the package, and all packages keep their kinds.
pub record IsWithout (q : PriorityQueue) (p : Address) (q' : PriorityQueue) : Type 0 where
  pub valid : IsValid q'
  pub size : length q.items ≡ suc (length q'.items)
  pub kept : (r : Address) → In r q → r ≢ p → In r q'
  pub from : (r : Address) → In r q' → In r q × (r ≢ p)
  pub kind : (r : Address) → (q'.mem r).kind ≡ (q.mem r).kind

pub IsRemoved-IsWithout :
    (q : PriorityQueue) (p : Address) (q' : PriorityQueue) → IsRemoved q p q' → IsWithout q p q'
IsRemoved-IsWithout q p q' u = record {
  valid = u.valid;
  size = u.size;
  kept = u.kept;
  from = u.from;
  kind = λ r. ap (λ pack. pack.kind) (u.same r);
}

module _ (kinds : Dict (List Address)) (name : String) (ys : List Address) (m : String) where
  pub listed-insert :
      listed (Dict.insert name ys kinds) m ≡ (if str_eq name m then ys else listed kinds m)
  listed-insert = ground (arith, lookup-insert name m ys kinds)

  -- Under its own name the map lists the new packages, under another one the same as before.
  pub listed-insert_cases :
      ((name ≡ m) × (listed (Dict.insert name ys kinds) m ≡ ys))
      ⊎ ((name ≢ m) × (listed (Dict.insert name ys kinds) m ≡ listed kinds m))
  listed-insert_cases = ground (arith, listed-insert, eq_iff name m)

module _ (s : DefaultPipeStore) (p : Address) (i : ℕ) (q : PriorityQueue) (ys : List Address)
    (t : IsTracked s) (u : IsWithout s.pq p q) (hi : i < length (listed s.kinds (s.pq.mem p).kind))
    (place : at (listed s.kinds (s.pq.mem p).kind) i ≡ p)
    (k : IsCut (listed s.kinds (s.pq.mem p).kind) i ys) where
  abbrev name : String
  name = (s.pq.mem p).kind

  abbrev old : List Address
  old = listed s.kinds name

  ys-from : (r : Address) → InList r ys → InList r old × (r ≢ p)
  ys-from r (c, hc, e) =
      let (h, other, same) = cut-from old ys i k c hc in
      (
        (source old ys i k c, h, same ∙ e),
        λ e'. other (t.distinct name _ i h hi (same ∙ e ∙ e' ∙ sym place)),
      )

  ys-distinct : (c d : ℕ) → c < length ys → d < length ys → at ys c ≡ at ys d → c ≡ d
  ys-distinct c d hc hd e =
      let (h, other, same) = cut-from old ys i k c hc in
      let (h', other', same') = cut-from old ys i k d hd in
      let meet = t.distinct name _ _ h h' (same ∙ e ∙ sym same') in ground (arith, meet)

  ys-kept : (r : Address) → InList r old → r ≢ p → InList r ys
  ys-kept r (d, hd, e) other =
      let differs : d ≢ i = λ same. other (sym e ∙ ap (at old) same ∙ place) in
      let (c, hc, e') = cut-kept old ys i k d hi hd differs in (c, hc, e' ∙ e)

  -- A package that leaves both the queue and its list leaves a tracked store.
  pub IsWithout-IsTracked :
      (removed : ℕ)
      → IsTracked (record { removed = removed; pq = q; kinds = Dict.insert name ys s.kinds })
  IsWithout-IsTracked removed = record {
    valid = u.valid;
    tracked = λ r h.
        let (inner, other) = u.from r h in
        let old_place = t.tracked r inner in
        rw (u.kind r) (elim (listed-insert_cases s.kinds name ys (s.pq.mem r).kind) [
          | inl (same, e) ↦ rw e (ys-kept r (rw (sym same) at old_place) other)
          | inr (differs, e) ↦ rw e old_place
        ]);
    from = λ m r h. elim (listed-insert_cases s.kinds name ys m) [
      | inl (same, e) ↦
          let (inner, other) = ys-from r (rw e at h) in
          let (place', kind) = t.from name r inner in
          (u.kept r place' other, u.kind r ∙ kind ∙ same)
      | inr (differs, e) ↦
          let (place', kind) = t.from m r (rw e at h) in
          let other : r ≢ p = λ same. differs (sym (ap (λ x. (s.pq.mem x).kind) same) ∙ kind) in
          (u.kept r place' other, u.kind r ∙ kind)
    ];
    distinct = λ m c d. elim (listed-insert_cases s.kinds name ys m) [
      | inl (same, e) ↦ rw e (ys-distinct c d)
      | inr (differs, e) ↦ rw e (t.distinct m c d)
    ];
  }
