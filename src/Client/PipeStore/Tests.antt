-- ===== src/Client/PipeStore/Tests.antt =====
-- The theorems at a store of two packages, before and after they expire.
use magalix_agent.Prelude.{
  ℕ, String, ◌<◌, zero, suc, length, str_eq, eq_iff, Bool-cases, inl, inr, if◌then◌else◌, ◌+◌, ◌≡◌,
  refl, sym, ◌∙◌, some, [], ◌∷◌, Returns, arith,
}
use magalix_agent.Client.Queue.Order.{at, pack_at}
use magalix_agent.Client.Queue.Tests.{two, two-IsValid, fresh}
use magalix_agent.Client.PipeStore.{DefaultPipeStore, is_expired, add, peek, pop}
use magalix_agent.Client.PipeStore.Retry.{IsTouched, IsTaken}
use magalix_agent.Prelude.Dict
use magalix_agent.Client.Queue.Swap.{In, at-injective}
use magalix_agent.Client.PipeStore.Cut.{InList}
use magalix_agent.Client.PipeStore.Tracked.{IsTracked, IsWithout, listed}
use magalix_agent.Client.PipeStore.Add.{IsStored, add-IsStored}
use magalix_agent.Client.PipeStore.Keep.{pop-IsTracked}
use magalix_agent.Client.PipeStore.Take.{IsLeast, peek_expired, peek_first, pop-IsTaken}

abbrev pub store : DefaultPipeStore
store = record { removed = 0; pq = two; kinds = ("logs", 7 ∷ 8 ∷ []) ∷ [] }

kind_two : (p : ℕ) → In p two → (two.mem p).kind ≡ "logs"
unfolding at
kind_two p (zero, h, e) = ground (arith, e)
kind_two p (suc zero, h, e) = ground (arith, e)
kind_two p (suc (suc i), h, e) = absurd (omega arith)

-- What the map lists is what the queue holds.
listed-store :
    (name : String) (i : ℕ)
    → i < length (listed store.kinds name)
    → (name ≡ "logs") × (listed store.kinds name ≡ two.items)
unfolding Dict.lookup
listed-store name i h = elim (Bool-cases (str_eq "logs" name)) [
  | inl same ↦ (sym (ground (arith, eq_iff "logs" name)), rw same refl)
  | inr other ↦ absurd (ground (arith, other, h))
]

store-IsTracked : IsTracked store
unfolding at Dict.lookup
store-IsTracked = record {
  valid = two-IsValid;
  tracked = λ p h. rw (kind_two p h) h;
  from = λ name p (i, h, e).
      let (logs, same) = listed-store name i h in
      let listed_there : InList p (listed store.kinds name) = (i, h, e) in
      let inside : In p two = rw same at listed_there in (inside, kind_two p inside ∙ sym logs);
  distinct = λ name i j h k e.
      let (logs, same) = listed-store name i h in
      at-injective two i j two-IsValid.indexed (rw same at h) (rw same at k) (rw same at e);
}

peek_expired_example :
    Returns
      (λ r.
        (r.0 ≡ some (at two.items 0)) × IsTaken two (at two.items 0) r.1.pq × (r.1.removed ≡ 0 + 1))
      (peek store 31)
unfolding at is_expired
peek_expired_example = peek_expired store 31 two-IsValid (omega arith) refl

peek_first_example :
    Returns
      (λ r.
        (r.0 ≡ some (at two.items 0))
        × IsLeast two (at two.items 0)
        × IsTouched two (at two.items 0) r.1.pq)
      (peek store 20)
unfolding at is_expired
peek_first_example = peek_first store 20 two-IsValid (omega arith) refl

pop-IsTaken_example :
    Returns
      (λ r.
        (r.0 ≡ some (at two.items 0))
        × IsLeast two (at two.items 0)
        × IsTaken two (at two.items 0) r.1.pq)
      (pop store 20)
pop-IsTaken_example = pop-IsTaken store 20 two-IsValid (omega arith)

add-IsStored_example : Returns (IsStored store 9 25 31) (add store 9 25 31)
add-IsStored_example = add-IsStored store 9 25 31 store-IsTracked fresh

pop-IsTracked_example :
    Returns
      (λ r.
        (r.0 ≡ some (at two.items 0))
        × IsTracked r.1
        × IsWithout two (at two.items 0) r.1.pq
        × (r.1.removed ≡ 0 + (if is_expired (pack_at two 0) 31 then 1 else 0)))
      (pop store 31)
pop-IsTracked_example = pop-IsTracked store 31 store-IsTracked (omega arith)
