-- ===== src/Client/PipeStore.antt =====
-- client/pipe_store.go: DefaultPipeStore. The lock makes each exported method atomic. The clock is
-- an argument of each method that reads it.
pub mod Cut
pub mod Tracked
pub mod Drop
pub mod Expire
pub mod Enter
pub mod Add
pub mod Keep
pub mod Retry
pub mod Take
mod Tests
use magalix_agent.Prelude.{
  ℕ, zero, suc, ◌+◌, ◌-◌, ◌%◌, String, Bool, true, false, ◌&&◌, ◌||◌, Option, none, some, List, [],
  ◌∷◌, ◌++◌, Run, ok, panic, ◌>>=◌, deref, ltb, leb, ◌==◌, length, get_elem?, take, drop,
  if◌then◌else◌,
}
use magalix_agent.Prelude.Dict
use magalix_agent.Prelude.Dict.{Dict}
use magalix_agent.Client.Queue.{Package, Address, Memory, PriorityQueue, write, load, push, fix}
use magalix_agent.Client.Queue

pub record DefaultPipeStore : Type 0 where
  pub removed : ℕ
  pub pq : PriorityQueue
  pub kinds : Dict (List Address)

-- NewDefaultPipeStore, over a memory; heap.Init of an empty queue does nothing.
unfoldable pub new_default_pipe_store : Memory → DefaultPipeStore
new_default_pipe_store mem = record {
  removed = 0;
  pq = record { mem = mem; items = [] };
  kinds = [];
}

-- `p.ExpiryTime != nil && now.After(*p.ExpiryTime)`
unfoldable pub is_expired : Package → ℕ → Bool
is_expired p now = elim p.expiry_time [ none ↦ false | some t ↦ ltb t now ]

-- The list without its first occurrence of the package; `none` if there is no occurrence.
pub without_first : Address → List Address → Option (List Address)
without_first p [] = none
without_first p (x ∷ xs) =
    let rest : Option (List Address) = elim (without_first p xs) [
      | none ↦ none
      | some l ↦ some (x ∷ l)
    ] in
    if x == p then some xs else rest

pub forget_package :
    Address → String → Option (List Address) → Dict (List Address) → Dict (List Address)
unfolding without_first
forget_package p kind none kinds = kinds
forget_package p kind (some l) kinds = elim (without_first p l) [
  | none ↦ kinds
  | some l' ↦ Dict.insert kind l' kinds
]

-- The method remove.
pub remove : DefaultPipeStore → Address → Run DefaultPipeStore
unfolding forget_package
remove s p = Queue.remove s.pq (s.pq.mem p).index >>= λ r.
    let kind = (r.1.mem p).kind in
    ok (record s { pq = r.1; kinds = forget_package p kind (Dict.lookup kind s.kinds) s.kinds })

-- `append(kind[:index], kind[index+1:]...)`, which panics out of range.
pub cut : List Address → ℕ → Run (List Address)
cut kind index =
    if ltb index (length kind) then ok (take index kind ++ drop (suc index) kind) else panic

pub cut_kind : Dict (List Address) → String → ℕ → Option (List Address) → Run (Dict (List Address))
unfolding cut
cut_kind kinds kind index none = ok kinds
cut_kind kinds kind index (some l) = cut l index >>= λ l'. ok (Dict.insert kind l' kinds)

pub remove_kind : DefaultPipeStore → Address → ℕ → Run DefaultPipeStore
unfolding cut_kind
remove_kind s p index = Queue.remove s.pq (s.pq.mem p).index >>= λ r.
    let kind = (r.1.mem p).kind in
    cut_kind s.kinds kind index (Dict.lookup kind s.kinds) >>= λ kinds.
    ok (record s { pq = r.1; kinds = kinds })

abbrev pub or_empty : Option (List Address) → List Address
or_empty none = []
or_empty (some l) = l

-- The test of the loop of Add on a package, among n packages of its kind.
unfoldable pub is_dropped : Package → ℕ → ℕ → Bool
unfolding is_expired
is_dropped p n now = (ltb 0 p.expiry_count && ltb p.expiry_count n) || is_expired p now

-- The loop of Add over the packages of a kind from position i. Each round either drops a package of
-- the list or moves on, so as many rounds as positions are left end it.
pub expire_loop : ℕ → DefaultPipeStore → String → List Address → ℕ → ℕ → Run DefaultPipeStore
unfolding remove_kind is_dropped
expire_loop zero s name kind i now = ok s
expire_loop (suc rounds) s name kind i now =
    let next = expire_loop rounds s name kind (i + 1) now in
    let drop_at = λ (p : Address).
      let dropped = remove_kind (record s { removed = s.removed + 1 }) p i >>= λ s'.
      expire_loop rounds s' name (or_empty (Dict.lookup name s'.kinds)) i now in
      if is_dropped (s.pq.mem p) (length kind) now then dropped else next in
    let body = deref (get_elem? kind i) >>= drop_at in if ltb i (length kind) then body else ok s

-- `if (pack.time == time.Time{}) { pack.time = time.Now() }`
pub stamp : Memory → Address → ℕ → Memory
stamp mem p created =
    if (mem p).time == 0 then write mem p (record (mem p) { time = created }) else mem

-- Add, with the two readings of the clock; the result is the number of dropped packages.
pub add : DefaultPipeStore → Address → ℕ → ℕ → Run (ℕ × DefaultPipeStore)
unfolding expire_loop stamp
add s p created now = push (record s.pq { mem = stamp s.pq.mem p created }) p >>= λ q.
    fix q (q.mem p).index >>= λ pq.
    let name = (pq.mem p).kind in
    let kind = or_empty (Dict.lookup name s.kinds) ++ p ∷ [] in
    expire_loop (length kind) (record s { pq = pq; kinds = Dict.insert name kind s.kinds }) name
      kind 0 now
    >>= λ s'. ok (s'.removed, record s' { removed = 0 })

-- The end of peek: one more retry, and a lower priority when their number reaches a multiple of the
-- limit.
pub retry : DefaultPipeStore → Address → Run (Option Address × DefaultPipeStore)
retry s p =
    let pack = record (s.pq.mem p) { retries = (s.pq.mem p).retries + 1 } in
    let q = record s.pq { mem = write s.pq.mem p pack } in
    let lower = record s.pq {
      mem = write s.pq.mem p (record pack { priority = pack.priority + 1 });
    } in
    if ltb 0 pack.retry_limit && (pack.retries % pack.retry_limit) == 0
    then (fix lower pack.index >>= λ q'. ok (some p, record s { pq = q' }))
    else ok (some p, record s { pq = q })

-- The body of the loop of peek, which ends with a `break` whether or not the package has expired.
pub look : DefaultPipeStore → ℕ → Run (Address × DefaultPipeStore)
unfolding remove is_expired
look s now = load s.pq 0 >>= λ p.
    if is_expired (s.pq.mem p) now
    then (remove (record s { removed = s.removed + 1 }) p >>= λ s'. ok (p, s'))
    else ok (p, s)

pub peek : DefaultPipeStore → ℕ → Run (Option Address × DefaultPipeStore)
unfolding look retry
peek s now = if ltb 0 (length s.pq.items) then (look s now >>= λ r. retry r.1 r.0) else ok (none, s)

pub ack : DefaultPipeStore → Address → Run DefaultPipeStore
unfolding remove
ack s p = elim (s.pq.mem p).index [ none ↦ ok s | some i ↦ remove s p ]

ack_found : Option Address → DefaultPipeStore → Run (Option Address × DefaultPipeStore)
unfolding ack
ack_found none s = ok (none, s)
ack_found (some p) s = ack s p >>= λ s'. ok (some p, s')

pub pop : DefaultPipeStore → ℕ → Run (Option Address × DefaultPipeStore)
unfolding peek ack_found
pop s now = peek s now >>= λ r. ack_found r.0 r.1

pub len : DefaultPipeStore → ℕ
len s = length s.pq.items
