-- ===== src/Client/Pipe/Sound.antt =====
-- What every interleaving of senders and workers keeps.
use magalix_agent.Prelude.{
  ℕ, ◌+◌, ◌≤◌, ◌<◌, ◌≡◌, inl, inr, refl, ap, arith, length, ltb, Returns, Returns-bind, Bool-cases,
}
use magalix_agent.Client.Queue.{Package, Address, Memory, write}
use magalix_agent.Client.Queue.Swap.{In}
use magalix_agent.Client.PipeStore.{DefaultPipeStore, new_default_pipe_store, add}
use magalix_agent.Client.PipeStore.Tracked.{IsTracked}
use magalix_agent.Client.PipeStore.Enter.{changed-IsValid}
use magalix_agent.Client.PipeStore.Add.{IsStored, add-IsStored}
use magalix_agent.Client.PipeStore.Keep.{retained-IsTracked, new_default_pipe_store-IsTracked}
use magalix_agent.Client.Pipe.{Pipe, new_pipe, send, broadcast}
use magalix_agent.Client.Pipe.Workers.{held, Sends, Sends-wake, held-wake, not_start}

-- The store is in order. A package is in the queue, with one worker, or gone. All packages sent were
-- delivered, are with a worker or in the store, or are counted as dropped.
pub record IsSound (s : Pipe) : Type 0 where
  pub tracked : IsTracked s.storage
  pub below_next : (p : Address) → In p s.storage.pq → p < s.next
  pub apart : (i : ℕ) (p : Address) → Sends s.workers i p → p < s.next × ¬ In p s.storage.pq
  pub alone : (i j : ℕ) (p : Address) → Sends s.workers i p → Sends s.workers j p → i ≡ j
  pub accounted :
      s.sends
      ≤ s.delivered + held s.workers + length s.storage.pq.items + s.dropped + s.storage.removed

pub new_pipe-IsSound : (mem : Memory) (workers : ℕ) → IsSound (new_pipe mem workers)
unfolding new_pipe new_default_pipe_store
new_pipe-IsSound mem workers = record {
  tracked = new_default_pipe_store-IsTracked mem;
  below_next = λ p (i, h, e). absurd (omega arith);
  apart = λ i p h. absurd (not_start workers i p h);
  alone = λ i j p h. absurd (not_start workers i p h);
  accounted = omega arith;
}

module _ (s : Pipe) (sound : IsSound s) where
  -- The store with the package of a call of Send in a new place of the memory.
  abbrev pub entry : Package → DefaultPipeStore
  entry pack = record s.storage {
    pq = record s.storage.pq { mem = write s.storage.pq.mem s.next pack };
  }

  entry-IsTracked : (pack : Package) → IsTracked (entry pack)
  entry-IsTracked pack =
      let mem = write s.storage.pq.mem s.next pack in
      let same : (r : Address) → In r s.storage.pq → mem r ≡ s.storage.pq.mem r =
        λ r h. let old = sound.below_next r h in ground (arith, old) in
      retained-IsTracked s.storage (entry pack) sound.tracked
        (changed-IsValid s.storage.pq mem sound.tracked.valid same) refl (λ p h. h) (λ p h. h)
        λ p h. ap (λ x. x.kind) (same p h)

  -- The Add of a call of Send.
  pub entry-IsStored :
      (pack : Package) (created now : ℕ)
      → Returns (IsStored (entry pack) s.next created now) (add (entry pack) s.next created now)
  entry-IsStored pack created now =
      add-IsStored (entry pack) s.next created now (entry-IsTracked pack)
        λ h. let old = sound.below_next s.next h in omega (arith, old)

  pub send-IsSound :
      (pack : Package) (time created now : ℕ) → Returns IsSound (send s pack time created now)
  unfolding send
  send-IsSound pack time created now =
      let stamped : Package = record pack { time = time } in
      Returns-bind {P = IsStored (entry stamped) s.next created now} _
        (add (entry stamped) s.next created now) _ (entry-IsStored stamped created now)
        λ r x. record {
          tracked = x.tracked;
          below_next = λ p h. elim (x.from p h) [
            | inl e ↦ omega (arith, e)
            | inr old ↦ let k = sound.below_next p old in omega (arith, k)
          ];
          apart = λ i p h.
              let (k, out) = sound.apart i p h in
              (
                omega (arith, k),
                λ inner. elim (x.from p inner) [ inl e ↦ omega (arith, e, k) | inr old ↦ out old ],
              );
          alone = sound.alone;
          accounted = omega (arith, x.count, x.reset, sound.accounted);
        }

  pub broadcast-IsSound : IsSound (broadcast s)
  unfolding broadcast
  broadcast-IsSound = elim (Bool-cases (ltb 0 s.broadcasts)) [
    | inr none_due ↦ rw none_due sound
    | inl due ↦ rw due (record {
      tracked = sound.tracked;
      below_next = sound.below_next;
      apart = λ i p h. sound.apart i p (Sends-wake s.workers i p h);
      alone =
          λ i j p h k. sound.alone i j p (Sends-wake s.workers i p h) (Sends-wake s.workers j p k);
      accounted = omega (arith, held-wake s.workers, sound.accounted);
    })
  ]
