-- ===== src/Client/Pipe/Wake.antt =====
-- Whether a package in the store can be left while all workers wait.
use magalix_agent.Prelude.{
  ◌||◌, ℕ, zero, suc, ◌<◌, ◌≡◌, ◌⊎◌, inl, inr, refl, ap, Bool, true, false, Option, none, some,
  List, [], ◌∷◌, arith, length, get_elem?, set, map, ltb, Returns, Returns-eq, Returns-bind,
  Bool-cases,
}
use magalix_agent.Client.Queue.{Package, Address}
use magalix_agent.Client.Queue.Order.{at}
use magalix_agent.Client.PipeStore.{DefaultPipeStore, add, pop}
use magalix_agent.Client.PipeStore.Add.{IsStored, add-IsStored}
use magalix_agent.Client.PipeStore.Keep.{pop_nothing, pop-IsTracked}
use magalix_agent.Client.Pipe.{
  Worker, ready, empty_handed, waiting, sending, Pipe, send, wake, broadcast, is_locked, popped,
  pop_round, wait_round, send_round, Action, sends_package, broadcasts_once, pops, waits, finishes,
  act, run,
}
use magalix_agent.Client.Pipe.Sound.{IsSound, entry, entry-IsStored}

-- A worker is ready or sending: it will look at the store again.
unfoldable pub is_active : Worker → Bool
is_active ready = true
is_active empty_handed = false
is_active waiting = false
is_active (sending p) = true

unfoldable pub some_active : List Worker → Bool
unfolding is_active
some_active [] = false
some_active (w ∷ ws) = is_active w || some_active ws

active-set :
    (ws : List Worker) (i : ℕ) (w w' : Worker)
    → get_elem? ws i ≡ some w
    → is_active w' ≡ true
    → some_active (set ws i w') ≡ true
unfolding some_active is_active
active-set [] i w w' e h = absurd (cc e)
active-set (x ∷ ws) zero w w' e h = ground (arith, h)
active-set (x ∷ ws) (suc i) w w' e h = ground (arith, active-set ws i w w' e h)

-- A change of a worker that is not active.
active-set_other :
    (ws : List Worker) (i : ℕ) (w w' : Worker)
    → get_elem? ws i ≡ some w
    → is_active w ≡ false
    → some_active ws ≡ true
    → some_active (set ws i w') ≡ true
unfolding some_active is_active
active-set_other [] i w w' e h a = absurd (cc e)
active-set_other (x ∷ ws) zero w w' e h a = ground (arith, e, h, a)
active-set_other (x ∷ ws) (suc i) w w' e h a =
    let rest = active-set_other ws i w w' e h in ground (arith, a, rest)

-- Unless a worker holds the lock, the broadcast makes some worker active.
active-wake :
    (ws : List Worker) → is_locked ws ≡ false → 0 < length ws → some_active (map wake ws) ≡ true
unfolding some_active is_active is_locked wake
active-wake [] h pos = absurd (omega arith)
active-wake (ready ∷ ws) h pos = refl
active-wake (waiting ∷ ws) h pos = refl
active-wake (sending p ∷ ws) h pos = refl
active-wake (empty_handed ∷ ws) h pos = absurd (cc h)

-- When the store holds a package, some worker is active or a broadcast is due.
unfoldable pub IsAwake : Pipe → Type 0
IsAwake s = 0 < length s.storage.pq.items → (some_active s.workers ≡ true) ⊎ (0 < s.broadcasts)

module _ (s : Pipe) (sound : IsSound s) (awake : IsAwake s) where
  emptied : (i : ℕ) → length s.storage.pq.items ≡ 0 → IsAwake (popped s i (none, s.storage))
  unfolding popped IsAwake
  emptied i e = λ more. absurd (omega (arith, e))

  taken :
      (i : ℕ) (p : Address) (storage : DefaultPipeStore)
      → get_elem? s.workers i ≡ some ready
      → IsAwake (popped s i (some p, storage))
  unfolding popped IsAwake is_active
  taken i p storage e = λ more. inl (active-set s.workers i ready (sending p) e refl)

  pop_round-IsAwake :
      (i now : ℕ) (o : Option Worker)
      → get_elem? s.workers i ≡ o
      → Returns IsAwake (pop_round s i now o)
  unfolding pop_round
  pop_round-IsAwake i now none e = awake
  pop_round-IsAwake i now (some empty_handed) e = awake
  pop_round-IsAwake i now (some waiting) e = awake
  pop_round-IsAwake i now (some (sending p)) e = awake
  pop_round-IsAwake i now (some ready) e = elim (Bool-cases (is_locked s.workers)) [
    | inl locked ↦ rw locked awake
    | inr free ↦ elim (Bool-cases (ltb 0 (length s.storage.pq.items))) [
      | inr empty ↦
          let nothing = pop_nothing s.storage now (ground arith) in
          rw (free, nothing) (emptied i (ground arith))
      | inl more ↦
          let hi : 0 < length s.storage.pq.items = ground arith in
          let (r, run, (same, t, u, count)) =
            Returns-eq (pop s.storage now) (pop-IsTracked s.storage now sound.tracked hi) in
          let got = ap (λ o. popped s i (o, r.1)) same in
          rw (free, run, got) (taken i (at s.storage.pq.items 0) r.1 e)
    ]
  ]

  wait_round-IsAwake :
      (i : ℕ) (o : Option Worker) → get_elem? s.workers i ≡ o → IsAwake (wait_round s i o)
  unfolding wait_round IsAwake is_active
  wait_round-IsAwake i none e = awake
  wait_round-IsAwake i (some ready) e = awake
  wait_round-IsAwake i (some waiting) e = awake
  wait_round-IsAwake i (some (sending p)) e = awake
  wait_round-IsAwake i (some empty_handed) e = λ more. elim (awake more) [
    | inl active ↦ inl (active-set_other s.workers i empty_handed waiting e refl active)
    | inr due ↦ inr due
  ]

  send_round-IsAwake :
      (i : ℕ) (failed : Bool) (created now : ℕ) (o : Option Worker)
      → get_elem? s.workers i ≡ o
      → Returns IsAwake (send_round s i failed created now o)
  unfolding send_round IsAwake is_active
  send_round-IsAwake i failed created now none e = awake
  send_round-IsAwake i failed created now (some ready) e = awake
  send_round-IsAwake i failed created now (some empty_handed) e = awake
  send_round-IsAwake i failed created now (some waiting) e = awake
  send_round-IsAwake i false created now (some (sending p)) e =
      λ more. inl (active-set s.workers i (sending p) ready e refl)
  send_round-IsAwake i true created now (some (sending p)) e =
      Returns-bind {P = IsStored s.storage p created now} _ (add s.storage p created now) _
        (add-IsStored s.storage p created now sound.tracked (sound.apart i p e).1)
        λ r x more. inl (active-set s.workers i (sending p) ready e refl)

  broadcast-IsAwake : is_locked s.workers ≡ false → 0 < length s.workers → IsAwake (broadcast s)
  unfolding broadcast IsAwake
  broadcast-IsAwake free pos = elim (Bool-cases (ltb 0 s.broadcasts)) [
    | inl due ↦ rw due λ more. inl (active-wake s.workers free pos)
    | inr none_due ↦ rw none_due awake
  ]

  send-IsAwake :
      (pack : Package) (time created now : ℕ) → Returns IsAwake (send s pack time created now)
  unfolding send IsAwake
  send-IsAwake pack time created now =
      let stamped : Package = record pack { time = time } in
      Returns-bind {P = IsStored (entry s sound stamped) s.next created now} _
        (add (entry s sound stamped) s.next created now) _
        (entry-IsStored s sound stamped created now) λ r x more. inr (omega arith)

-- In a sound pipe with workers, every action but a broadcast between the Pop of a worker and its Wait keeps this: when the
-- store holds a package, some worker will look at the store again, or a broadcast is due.
pub act-IsAwake :
    (a : Action) (s : Pipe)
    → IsSound s
    → 0 < length s.workers
    → (a ≡ broadcasts_once → is_locked s.workers ≡ false)
    → IsAwake s
    → Returns IsAwake (act a s)
unfolding act
act-IsAwake (sends_package pack time created now) s sound pos free awake =
    send-IsAwake s sound awake pack time created now
act-IsAwake broadcasts_once s sound pos free awake = broadcast-IsAwake s sound awake (free refl) pos
act-IsAwake (pops i now) s sound pos free awake =
    pop_round-IsAwake s sound awake i now (get_elem? s.workers i) refl
act-IsAwake (waits i) s sound pos free awake =
    wait_round-IsAwake s sound awake i (get_elem? s.workers i) refl
act-IsAwake (finishes i failed created now) s sound pos free awake =
    send_round-IsAwake s sound awake i failed created now (get_elem? s.workers i) refl
