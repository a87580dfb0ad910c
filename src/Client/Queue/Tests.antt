-- ===== src/Client/Queue/Tests.antt =====
-- The theorems at a queue of two packages.
use magalix_agent.Prelude.{
  ℕ, zero, suc, refl, Option, none, some, [], ◌∷◌, Returns, arith, length, ◌==◌, if◌then◌else◌,
}
use magalix_agent.Value.{null}
use magalix_agent.Client.Queue.{Package, PriorityQueue, push, remove}
use magalix_agent.Client.Queue.Order.{at}
use magalix_agent.Client.Queue.Swap.{key, In, IsIndexed, IsHeap}
use magalix_agent.Client.Queue.Sift.{IsValid, IsAdded}
use magalix_agent.Client.Queue.Push.{push-IsAdded}
use magalix_agent.Client.Queue.Remove.{TakesOut, remove-TakesOut}

abbrev pack : Option ℕ → ℕ → Package
pack index priority = record {
  kind = "logs";
  expiry_time = some 30;
  expiry_count = 2;
  priority = priority;
  retry_limit = 3;
  retries = 0;
  index = index;
  time = 10;
  content = null;
}

abbrev pub two : PriorityQueue
two = record {
  mem = λ p. if p == 7 then pack (some 0) 1 else if p == 8 then pack (some 1) 2 else pack none 0;
  items = 7 ∷ 8 ∷ [];
}

two-IsIndexed : IsIndexed two
unfolding at
two-IsIndexed zero h = refl
two-IsIndexed (suc zero) h = refl
two-IsIndexed (suc (suc i)) h = absurd (omega arith)

two-IsHeap : IsHeap (length two.items) two
unfolding at key
two-IsHeap zero pos h = absurd (omega arith)
two-IsHeap (suc zero) pos h = refl
two-IsHeap (suc (suc i)) pos h = absurd (omega arith)

pub two-IsValid : IsValid two
two-IsValid = record { indexed = two-IsIndexed; heap = two-IsHeap }

pub fresh : ¬ In 9 two
unfolding at
fresh (zero, h, e) = absurd (omega arith)
fresh (suc zero, h, e) = absurd (omega arith)
fresh (suc (suc i), h, e) = absurd (omega arith)

push-IsAdded_example : Returns (IsAdded two 9) (push two 9)
push-IsAdded_example = push-IsAdded two 9 two-IsValid fresh

remove-TakesOut_example : Returns (TakesOut two (at two.items 0)) (remove two (some 0))
remove-TakesOut_example = remove-TakesOut two 0 two-IsValid (omega arith)
