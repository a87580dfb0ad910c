-- ===== src/Client/Pipe/Rounds.antt =====
-- The rounds of the workers keep a pipe sound, and so does every sequence of actions.
use magalix_agent.Prelude.{
  ℕ, ◌+◌, ◌≤◌, ◌<◌, ◌≡◌, ◌≢◌, inl, inr, refl, sym, ap, ◌∙◌, Bool, true, false, Option, none, some,
  List, [], ◌∷◌, arith, length, get_elem?, set, ltb, Returns, Returns-eq, Returns-bind, Bool-cases,
}
use magalix_agent.Client.Queue.{Address}
use magalix_agent.Client.Queue.Order.{at}
use magalix_agent.Client.Queue.Swap.{In}
use magalix_agent.Client.PipeStore.{DefaultPipeStore, add, pop}
use magalix_agent.Client.PipeStore.Tracked.{IsTracked, IsWithout}
use magalix_agent.Client.PipeStore.Add.{IsStored, add-IsStored}
use magalix_agent.Client.PipeStore.Keep.{pop-IsTracked, pop_nothing}
use magalix_agent.Client.Pipe.{
  Worker, ready, empty_handed, waiting, sending, Pipe, is_locked, popped, pop_round, wait_round,
  send_round, Action, sends_package, broadcasts_once, pops, waits, finishes, act, run,
}
use magalix_agent.Client.Pipe.Sound.{IsSound, send-IsSound, broadcast-IsSound}
use magalix_agent.Client.Pipe.Workers.{load_of, held-set, Sends, Sends-set_quiet, Sends-set_sending}

module _ (s : Pipe) (sound : IsSound s) (i : ℕ) where
  quiet-IsSound :
      (w w' : Worker)
      → get_elem? s.workers i ≡ some w
      → load_of w ≡ 0
      → load_of w' ≡ 0
      → IsSound (record s { workers = set s.workers i w' })
  quiet-IsSound w w' e empty empty' =
      let before = λ (j : ℕ) (p : Address) (h : Sends (set s.workers i w') j p).
        (Sends-set_quiet s.workers i w e j p w' empty' h).0 in
      record {
        tracked = sound.tracked;
        below_next = sound.below_next;
        apart = λ j p h. sound.apart j p (before j p h);
        alone = λ j k p h h'. sound.alone j k p (before j p h) (before k p h');
        accounted = omega (arith, held-set s.workers i w w' e, empty, empty', sound.accounted);
      }

  taken-IsSound :
      (p : Address) (storage : DefaultPipeStore)
      → get_elem? s.workers i ≡ some ready
      → In p s.storage.pq
      → IsTracked storage
      → IsWithout s.storage.pq p storage.pq
      → s.storage.removed ≤ storage.removed
      → IsSound (popped s i (some p, storage))
  unfolding popped load_of
  taken-IsSound p storage e inside t u count =
      let cases = λ (j : ℕ) (q : Address) (h : Sends (set s.workers i (sending p)) j q).
        Sends-set_sending s.workers i ready e j q p h in
      let clash = λ (j : ℕ) (q : Address) (h : Sends s.workers j q) (same : q ≡ p).
        (sound.apart j q h).1 (rw same inside) in
      record {
        tracked = t;
        below_next = λ q h. sound.below_next q (u.from q h).0;
        apart = λ j q h. elim (cases j q h) [
          | inl (here, same) ↦ (rw same (sound.below_next p inside), λ h'. (u.from q h').1 same)
          | inr (other, old) ↦ let (k, out) = sound.apart j q old in (k, λ h'. out (u.from q h').0)
        ];
        alone = λ j k q h h'. elim (cases j q h) [
          | inl (here, same) ↦ elim (cases k q h') [
            | inl (here', same') ↦ here ∙ sym here'
            | inr (other, old) ↦ absurd (clash k q old same)
          ]
          | inr (other, old) ↦ elim (cases k q h') [
            | inl (here', same') ↦ absurd (clash j q old same')
            | inr (other', old') ↦ sound.alone j k q old old'
          ]
        ];
        accounted =
            omega (arith, held-set s.workers i ready (sending p) e, u.size, sound.accounted, count);
      }

  nothing-IsSound : get_elem? s.workers i ≡ some ready → IsSound (popped s i (none, s.storage))
  unfolding popped load_of
  nothing-IsSound e = quiet-IsSound ready empty_handed e refl refl

  pop_round-IsSound :
      (now : ℕ) (o : Option Worker)
      → get_elem? s.workers i ≡ o
      → Returns IsSound (pop_round s i now o)
  unfolding pop_round
  pop_round-IsSound now none e = sound
  pop_round-IsSound now (some empty_handed) e = sound
  pop_round-IsSound now (some waiting) e = sound
  pop_round-IsSound now (some (sending p)) e = sound
  pop_round-IsSound now (some ready) e = elim (Bool-cases (is_locked s.workers)) [
    | inl locked ↦ rw locked sound
    | inr free ↦ elim (Bool-cases (ltb 0 (length s.storage.pq.items))) [
      | inr empty ↦
          let nothing = pop_nothing s.storage now (ground arith) in
          rw (free, nothing) (nothing-IsSound e)
      | inl more ↦
          let hi : 0 < length s.storage.pq.items = ground arith in
          let (r, run, (same, t, u, count)) =
            Returns-eq (pop s.storage now) (pop-IsTracked s.storage now sound.tracked hi) in
          let got = ap (λ o. popped s i (o, r.1)) same in
          rw (free, run, got)
            (taken-IsSound (at s.storage.pq.items 0) r.1 e (0, hi, refl) t u (omega (arith, count)))
    ]
  ]

  wait_round-IsSound : (o : Option Worker) → get_elem? s.workers i ≡ o → IsSound (wait_round s i o)
  unfolding wait_round load_of
  wait_round-IsSound none e = sound
  wait_round-IsSound (some ready) e = sound
  wait_round-IsSound (some waiting) e = sound
  wait_round-IsSound (some (sending p)) e = sound
  wait_round-IsSound (some empty_handed) e = quiet-IsSound empty_handed waiting e refl refl

  module _ (p : Address) (e : get_elem? s.workers i ≡ some (sending p)) where
    others :
        (j : ℕ) (q : Address) → Sends (set s.workers i ready) j q → Sends s.workers j q × (j ≢ i)
    unfolding load_of
    others j q h = Sends-set_quiet s.workers i (sending p) e j q ready refl h

    delivered-IsSound :
        IsSound (record s { workers = set s.workers i ready; delivered = s.delivered + 1 })
    unfolding load_of
    delivered-IsSound = record {
      tracked = sound.tracked;
      below_next = sound.below_next;
      apart = λ j q h. sound.apart j q (others j q h).0;
      alone = λ j k q h h'. sound.alone j k q (others j q h).0 (others k q h').0;
      accounted = omega (arith, held-set s.workers i (sending p) ready e, sound.accounted);
    }

    again-IsSound :
        (created now : ℕ) (r : ℕ × DefaultPipeStore)
        → IsStored s.storage p created now r
        → IsSound
            (record s { storage = r.1; workers = set s.workers i ready; dropped = s.dropped + r.0 })
    unfolding load_of
    again-IsSound created now r x = record {
      tracked = x.tracked;
      below_next = λ q h. elim (x.from q h) [
        | inl same ↦ rw same (sound.apart i p e).0
        | inr old ↦ sound.below_next q old
      ];
      apart = λ j q h.
          let (old, other) = others j q h in
          let (k, out) = sound.apart j q old in
          (
            k,
            λ inside. elim (x.from q inside) [
              | inl same ↦ other (sound.alone j i p (rw same at old) e)
              | inr inner ↦ out inner
            ],
          );
      alone = λ j k q h h'. sound.alone j k q (others j q h).0 (others k q h').0;
      accounted =
          omega
            (arith, held-set s.workers i (sending p) ready e, sound.accounted, x.count, x.reset);
    }

  send_round-IsSound :
      (failed : Bool) (created now : ℕ) (o : Option Worker)
      → get_elem? s.workers i ≡ o
      → Returns IsSound (send_round s i failed created now o)
  unfolding send_round
  send_round-IsSound failed created now none e = sound
  send_round-IsSound failed created now (some ready) e = sound
  send_round-IsSound failed created now (some empty_handed) e = sound
  send_round-IsSound failed created now (some waiting) e = sound
  send_round-IsSound false created now (some (sending p)) e = delivered-IsSound p e
  send_round-IsSound true created now (some (sending p)) e =
      Returns-bind {P = IsStored s.storage p created now} _ (add s.storage p created now) _
        (add-IsStored s.storage p created now sound.tracked (sound.apart i p e).1)
        λ r x. again-IsSound p e created now r x

act-IsSound : (a : Action) (s : Pipe) → IsSound s → Returns IsSound (act a s)
unfolding act
act-IsSound (sends_package pack time created now) s sound =
    send-IsSound s sound pack time created now
act-IsSound broadcasts_once s sound = broadcast-IsSound s sound
act-IsSound (pops i now) s sound = pop_round-IsSound s sound i now (get_elem? s.workers i) refl
act-IsSound (waits i) s sound = wait_round-IsSound s sound i (get_elem? s.workers i) refl
act-IsSound (finishes i failed created now) s sound =
    send_round-IsSound s sound i failed created now (get_elem? s.workers i) refl

-- From a sound pipe, every interleaving of calls of Send, broadcasts and rounds of the workers returns (no
-- Add or Pop panics) and leaves a sound pipe: the queue is a valid heap whose packages the map of kinds lists, a package
-- is with one worker at most and not in the queue meanwhile, and every package sent was delivered, is with a
-- worker or in the store, or is counted as dropped.
pub run-IsSound : (actions : List Action) (s : Pipe) → IsSound s → Returns IsSound (run actions s)
unfolding run
run-IsSound [] s sound = sound
run-IsSound (a ∷ later) s sound =
    Returns-bind {P = IsSound} IsSound (act a s) (run later) (act-IsSound a s sound)
      λ s' sound'. run-IsSound later s' sound'
