-- ===== src/Client/PipeStore/Expire.antt =====
-- The loop of Add over the packages of a kind.
use magalix_agent.Prelude.{
  ℕ, zero, suc, ◌+◌, ◌≤◌, ◌<◌, ◌≡◌, ◌≢◌, inl, inr, refl, sym, ap, ◌∙◌, String, true, false, arith,
  length, ltb, ◌==◌, Returns, Returns-eq, Returns-map, Bool-cases,
}
use magalix_agent.Client.Queue.{Package, Address}
use magalix_agent.Client.Queue.Order.{at, get_elem?-at}
use magalix_agent.Client.Queue.Swap.{In, without_index}
use magalix_agent.Client.PipeStore.{DefaultPipeStore, is_dropped, remove_kind, expire_loop}
use magalix_agent.Client.PipeStore.Cut.{IsCut, InList}
use magalix_agent.Client.PipeStore.Tracked.{listed, IsTracked}
use magalix_agent.Client.PipeStore.Drop.{IsDropped, remove_kind-IsDropped}

-- Among fewer packages a package that stays still stays.
is_dropped_anti :
    (p : Package) (n m now : ℕ) → m ≤ n → is_dropped p n now ≡ false → is_dropped p m now ≡ false
unfolding is_dropped
is_dropped_anti p n m now h e = ground arith

-- The test does not read the index.
pub is_dropped_of_same :
    (a b : Package) (n now : ℕ)
    → without_index a ≡ without_index b
    → is_dropped a n now ≡ is_dropped b n now
unfolding is_dropped
is_dropped_of_same a b n now e = ap (λ (x : Package). is_dropped x n now) e

-- `s'` is `s` after the packages of one kind that are too old or too many have been dropped.
pub record IsExpired (s : DefaultPipeStore) (name : String) (now : ℕ) (s' : DefaultPipeStore)
    : Type 0 where
  pub tracked : IsTracked s'
  pub count : s'.removed + length s'.pq.items ≡ s.removed + length s.pq.items
  pub settled :
      (p : Address)
      → In p s'.pq
      → (s'.pq.mem p).kind ≡ name
      → is_dropped (s'.pq.mem p) (length (listed s'.kinds name)) now ≡ false
  pub from : (p : Address) → In p s'.pq → In p s.pq
  pub kept_other : (p : Address) → In p s.pq → (s.pq.mem p).kind ≢ name → In p s'.pq
  pub kept_fresh :
      (p : Address)
      → In p s.pq
      → is_dropped (s.pq.mem p) (length (listed s.kinds name)) now ≡ false
      → In p s'.pq
  pub same : (p : Address) → without_index (s'.pq.mem p) ≡ without_index (s.pq.mem p)

module _ (name : String) (now : ℕ) where
  -- The positions before i hold packages that stay.
  abbrev IsPassed : DefaultPipeStore → ℕ → Type 0
  IsPassed s i =
      (c : ℕ)
      → c < i
      → is_dropped (s.pq.mem (at (listed s.kinds name) c)) (length (listed s.kinds name)) now
        ≡ false

  IsPassed-IsExpired :
      (s : DefaultPipeStore) (i : ℕ)
      → IsTracked s
      → IsPassed s i
      → length (listed s.kinds name) ≤ i
      → IsExpired s name now s
  IsPassed-IsExpired s i t passed h = record {
    tracked = t;
    count = refl;
    settled = λ p inner kind.
        let (c, hc, e) : InList p (listed s.kinds name) = rw kind at (t.tracked p inner) in
        rw (sym e) (passed c (omega arith));
    from = λ p inner. inner;
    kept_other = λ p inner other. inner;
    kept_fresh = λ p inner fresh. inner;
    same = λ p. refl;
  }

  module _ (s a : DefaultPipeStore) (p : Address) (i : ℕ) (kind : (s.pq.mem p).kind ≡ name)
      (due : is_dropped (s.pq.mem p) (length (listed s.kinds name)) now ≡ true)
      (d : IsDropped s p (s.removed + 1) a)
      (k : IsCut (listed s.kinds name) i (listed a.kinds name)) where
    drop-IsPassed : i < length (listed s.kinds name) → IsPassed s i → IsPassed a i
    drop-IsPassed hi passed c hc =
        let place : at (listed a.kinds name) c ≡ at (listed s.kinds name) c =
          ground (arith, k.place c, k.size) in
        let old = listed s.kinds name in
        rw place (
          is_dropped_of_same (a.pq.mem (at old c)) (s.pq.mem (at old c)) _ now
            (d.taken.same (at old c))
          ∙ is_dropped_anti (s.pq.mem (at old c)) (length old) _ now (omega (arith, k.size))
              (passed c hc))

    IsExpired-drop : (b : DefaultPipeStore) → IsExpired a name now b → IsExpired s name now b
    IsExpired-drop b x = record {
      tracked = x.tracked;
      count = omega (arith, x.count, d.removed, d.taken.size);
      settled = x.settled;
      from = λ r inner. (d.taken.from r (x.from r inner)).0;
      kept_other = λ r inner other.
          let differs : r ≢ p = λ e. other (rw e kind) in
          x.kept_other r (d.taken.kept r inner differs)
            (rw (ap (λ x. x.kind) (d.taken.same r)) other);
      kept_fresh = λ r inner fresh.
          let differs : r ≢ p = λ e. absurd (cc (due, fresh, e)) in
          x.kept_fresh r (d.taken.kept r inner differs) (
            is_dropped_of_same (a.pq.mem r) (s.pq.mem r) _ now (d.taken.same r)
            ∙ is_dropped_anti (s.pq.mem r) (length (listed s.kinds name)) _ now
                (omega (arith, k.size)) fresh);
      same = λ r. x.same r ∙ d.taken.same r;
    }

  pub expire_loop-IsExpired :
      (rounds : ℕ) (s : DefaultPipeStore) (i : ℕ)
      → IsTracked s
      → IsPassed s i
      → length (listed s.kinds name) ≤ i + rounds
      → Returns (IsExpired s name now) (expire_loop rounds s name (listed s.kinds name) i now)
  unfolding expire_loop
  expire_loop-IsExpired zero s i t passed h = IsPassed-IsExpired s i t passed (omega arith)
  expire_loop-IsExpired (suc rounds) s i t passed h =
      elim (Bool-cases (ltb i (length (listed s.kinds name)))) [
        | inr past ↦ rw past (IsPassed-IsExpired s i t passed (ground arith))
        | inl inner ↦
            let hi : i < length (listed s.kinds name) = ground arith in
            let p = at (listed s.kinds name) i in
            let kind : (s.pq.mem p).kind ≡ name = (t.from name p (i, hi, refl)).1 in
            elim (Bool-cases (is_dropped (s.pq.mem p) (length (listed s.kinds name)) now)) [
              | inl due ↦
                  let run : Returns
                      (λ a.
                        IsDropped s p (s.removed + 1) a
                        × IsCut (listed s.kinds name) i (listed a.kinds name))
                      (remove_kind (record s { removed = s.removed + 1 }) p i) =
                    rw kind at
                      (remove_kind-IsDropped s t p (s.removed + 1) i (rw kind hi) (rw kind refl)) in
                  rw (inner, get_elem?-at (listed s.kinds name) i hi, due)
                    (let (a, e, (d, k)) =
                        Returns-eq (remove_kind (record s { removed = s.removed + 1 }) p i) run in
                      rw e (
                        Returns-map {P = IsExpired a name now} _
                          (expire_loop rounds a name (listed a.kinds name) i now)
                          (expire_loop-IsExpired rounds a i d.tracked
                            (drop-IsPassed s a p i kind due d k hi passed) (omega (arith, k.size)))
                          λ b x. IsExpired-drop s a p i kind due d k b x))
              | inr stays ↦
                  let passed' : IsPassed s (i + 1) = λ c hc. elim (Bool-cases (c == i)) [
                    | inl last ↦ ground (arith, stays)
                    | inr before ↦ passed c (ground arith)
                  ] in
                  rw (inner, get_elem?-at (listed s.kinds name) i hi, stays)
                    (expire_loop-IsExpired rounds s (i + 1) t passed' (omega arith))
            ]
      ]
