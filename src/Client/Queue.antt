-- ===== src/Client/Queue.antt =====
-- client/pipe_store.go: Package and PriorityQueue, and the functions of container/heap over it.
-- A `*Package` is an address into a memory that the queue and the store share, so that a write
-- through one pointer is seen through all. An index out of range panics. The field index is -1 for a
-- package that is in no queue: `none` here. Priorities and counts are natural numbers, and no `int`
-- overflows: indices stay below twice the length of the queue plus three.
pub mod Order
pub mod Swap
pub mod Up
pub mod Down
pub mod Sift
pub mod Push
pub mod Remove
pub mod Tests
use magalix_agent.Prelude.{
  ℕ, zero, suc, ◌+◌, ◌-◌, ◌*◌, ◌/◌, String, Bool, true, false, ◌&&◌, ◌||◌, Option, none, some, List,
  [], ◌∷◌, ◌++◌, Run, ok, panic, ◌>>=◌, deref, ltb, ◌==◌, length, get_elem?, set, take,
  if◌then◌else◌,
}
use magalix_agent.Value.{Value}

-- `retry_limit` is the field Retries, `retries` the field retries. The zero time is 0.
pub record Package : Type 0 where
  pub kind : String
  pub expiry_time : Option ℕ
  pub expiry_count : ℕ
  pub priority : ℕ
  pub retry_limit : ℕ
  pub retries : ℕ
  pub index : Option ℕ
  pub time : ℕ
  pub content : Value

abbrev pub Address : Type 0
Address = ℕ

abbrev pub Memory : Type 0
Memory = Address → Package

-- `*p = v`
abbrev pub write : Memory → Address → Package → Memory
write mem p v = λ q. if p == q then v else mem q

pub record PriorityQueue : Type 0 where
  pub mem : Memory
  pub items : List Address

-- `(*pq)[i]`
pub load : PriorityQueue → ℕ → Run Address
load q i = deref (get_elem? q.items i)

-- The order of the queue: by priority, then by time.
abbrev pub below : Package → Package → Bool
below a b = ltb a.priority b.priority || (a.priority == b.priority && ltb a.time b.time)

pub less : PriorityQueue → ℕ → ℕ → Run Bool
less q i j = load q i >>= λ x. load q j >>= λ y. ok (below (q.mem x) (q.mem y))

abbrev pub set_index : Memory → Address → Option ℕ → Memory
set_index mem p i = write mem p (record (mem p) { index = i })

pub swap : PriorityQueue → ℕ → ℕ → Run PriorityQueue
swap q i j = load q j >>= λ y. load q i >>= λ x.
    let q' = record q { items = set (set q.items i y) j x } in
    load q' i >>= λ p.
    load q' j >>= λ r. ok (record q' { mem = set_index (set_index q.mem p (some i)) r (some j) })

-- The method Push.
pub push_item : PriorityQueue → Address → PriorityQueue
push_item q p = record {
  mem = set_index q.mem p (some (length q.items));
  items = q.items ++ p ∷ [];
}

-- The method Pop, which takes the last item off the slice.
pub pop_item : PriorityQueue → Run (Address × PriorityQueue)
pop_item q = load q (length q.items - 1) >>= λ p.
    ok (p, record { mem = set_index q.mem p none; items = take (length q.items - 1) q.items })

abbrev pub parent : ℕ → ℕ
parent c = (c - 1) / 2

-- heap.up. A round takes j to its parent, so j rounds reach the root, where the loop breaks.
up_loop : ℕ → PriorityQueue → ℕ → Run PriorityQueue
up_loop zero q j = ok q
up_loop (suc rounds) q j =
    let rise = swap q (parent j) j >>= λ q'. up_loop rounds q' (parent j) in
    let step = less q j (parent j) >>= λ b. if b then rise else ok q in
    if parent j == j then ok q else step

unfoldable pub up : PriorityQueue → ℕ → Run PriorityQueue
unfolding up_loop less swap load
up q j = up_loop j q j

smaller_child : PriorityQueue → ℕ → ℕ → Run ℕ
smaller_child q i n =
    let right = less q (2 * i + 2) (2 * i + 1) >>= λ b. ok (if b then 2 * i + 2 else 2 * i + 1) in
    if ltb (2 * i + 2) n then right else ok (2 * i + 1)

-- heap.down, with the place where the item ends. A round takes i to a child below n, so n - i rounds
-- take it past the last parent, where the loop breaks.
pub down_loop : ℕ → PriorityQueue → ℕ → ℕ → Run (PriorityQueue × ℕ)
down_loop zero q i n = ok (q, i)
down_loop (suc rounds) q i n =
    let step = smaller_child q i n >>= λ j. less q j i >>= λ b.
    let sink = swap q i j >>= λ q'. down_loop rounds q' j n in if b then sink else ok (q, i) in
    if ltb (2 * i + 1) n then step else ok (q, i)

-- `if !down(h, i, n) { up(h, i) }`
pub sift : PriorityQueue → ℕ → ℕ → Run PriorityQueue
unfolding down_loop up smaller_child
sift q i n = down_loop (n - i) q i n >>= λ r. if ltb i r.1 then ok r.0 else up r.0 i

-- heap.Push
pub push : PriorityQueue → Address → Run PriorityQueue
unfolding push_item up
push q p = let q' = push_item q p in up q' (length q'.items - 1)

-- heap.Fix; at the index -1 of a package that is in no queue both loops break at once.
pub fix : PriorityQueue → Option ℕ → Run PriorityQueue
unfolding sift
fix q none = ok q
fix q (some i) = sift q i (length q.items)

-- heap.Remove; at the index -1 it panics.
pub remove : PriorityQueue → Option ℕ → Run (Address × PriorityQueue)
unfolding sift pop_item
remove q none = panic
remove q (some i) =
    let n = length q.items - 1 in
    let moved = swap q i n >>= λ q'. sift q' i n in
    if n == i then pop_item q else moved >>= pop_item
