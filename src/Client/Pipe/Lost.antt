-- ===== src/Client/Pipe/Lost.antt =====
-- A broadcast between the Pop of a worker and its Wait reaches no worker.
use magalix_agent.Prelude.{
  String, ℕ, zero, suc, ◌+◌, ◌≡◌, ◌⊎◌, inl, inr, refl, ap, ◌∙◌, false, List, [], ◌∷◌, arith, length,
  ltb, ok, Returns, Returns-eq, Bool-cases,
}
use magalix_agent.Client.Queue.{Package}
use magalix_agent.Client.Queue.Order.{at}
use magalix_agent.Client.Queue.Swap.{In}
use magalix_agent.Client.PipeStore.{DefaultPipeStore, is_expired, is_dropped, add}
use magalix_agent.Client.PipeStore.Add.{IsStored}
use magalix_agent.Client.PipeStore.Tracked.{listed}
use magalix_agent.Client.PipeStore.Keep.{pop_nothing}
use magalix_agent.Client.Pipe.{
  ready, waiting, Pipe, send, wake, broadcast, is_locked, popped, pop_round, wait_round, send_round,
  Action, sends_package, broadcasts_once, pops, waits, finishes, act, run,
}
use magalix_agent.Client.Pipe.Sound.{IsSound, entry, entry-IsStored}

-- A pipe whose only worker waits, with no broadcast due, stays as it is until the next call of Send.
pub IsStuck : Pipe → Type 0
IsStuck s =
    (a : Action)
    → (act a s ≡ ok s)
      ⊎ ((pack : Package) × (time : ℕ) × (created : ℕ) × (now : ℕ) × (a
            ≡ sends_package pack time created now))

stuck_lem : (s : Pipe) → s.workers ≡ waiting ∷ [] → s.broadcasts ≡ 0 → IsStuck s
unfolding act IsStuck broadcast pop_round wait_round send_round
stuck_lem s e f (sends_package pack time created now) = inr (pack, time, created, now, refl)
stuck_lem s e f broadcasts_once = inl (rw f refl)
stuck_lem s e f (pops zero now) = inl (rw e refl)
stuck_lem s e f (pops (suc i) now) = inl (rw e refl)
stuck_lem s e f (waits zero) = inl (rw e refl)
stuck_lem s e f (waits (suc i)) = inl (rw e refl)
stuck_lem s e f (finishes zero failed created now) = inl (rw e refl)
stuck_lem s e f (finishes (suc i) failed created now) = inl (rw e refl)

module _ (s : Pipe) (sound : IsSound s) (alone : s.workers ≡ ready ∷ [])
    (empty : length s.storage.pq.items ≡ 0) (quiet : s.broadcasts ≡ 0) (pack : Package)
    (time created now : ℕ) (lasting : is_expired pack now ≡ false) where
  abbrev stamped : Package
  stamped = record pack { time = time }

  abbrev interleaving : List Action
  interleaving = pops 0 now ∷ sends_package pack time created now ∷ broadcasts_once ∷ waits 0 ∷ []

  -- The pipe afterwards.
  abbrev left : ℕ × DefaultPipeStore → Pipe
  left r = record s {
    storage = r.1;
    workers = waiting ∷ [];
    next = s.next + 1;
    broadcasts = 0;
    sends = s.sends + 1;
    dropped = s.dropped + r.0;
  }

  run-left :
      (r : ℕ × DefaultPipeStore)
      → add (entry s sound stamped) s.next created now ≡ ok r
      → run interleaving s ≡ ok (left r)
  unfolding run act send broadcast pop_round wait_round popped wake is_locked
  run-left r e = rw (alone, pop_nothing s.storage now empty, e, quiet) refl

  none_listed : (name : String) → length (listed s.storage.kinds name) ≡ 0
  none_listed name = elim (Bool-cases (ltb 0 (length (listed s.storage.kinds name)))) [
    | inr none_there ↦ ground arith
    | inl some_there ↦
        let p = at (listed s.storage.kinds name) 0 in
        let (i, h, e) = (sound.tracked.from name p (0, ground arith, refl)).0 in
        absurd (omega (arith, empty, h))
  ]

  single : (n : ℕ) → n ≡ 0 → is_dropped stamped (suc n) now ≡ false
  unfolding is_dropped is_expired
  single n e = ground (arith, lasting)

  entered :
      (r : ℕ × DefaultPipeStore)
      → IsStored (entry s sound stamped) s.next created now r
      → In s.next r.1.pq
  entered r x =
      let mem = (entry s sound stamped).pq.mem in
      let here : mem s.next ≡ stamped = ground arith in
      x.kept_fresh s.next (inl refl) (
        ap (λ p. is_dropped p (suc (length (listed s.storage.kinds (mem s.next).kind))) now) here
        ∙ single _ (none_listed (mem s.next).kind))

  -- When a call of Send comes between the Pop of the only worker, which found nothing, and its Wait, its
  -- broadcast is lost: a package that has not expired is in the store, the worker waits, and nothing happens until the next
  -- call of Send.
  pub lost_wakeup : Returns (λ s'. In s.next s'.storage.pq × IsStuck s') (run interleaving s)
  lost_wakeup =
      let (r, e, x) =
        Returns-eq (add (entry s sound stamped) s.next created now)
          (entry-IsStored s sound stamped created now) in
      rw (run-left r e) (entered r x, stuck_lem (left r) refl refl)
