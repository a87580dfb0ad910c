-- ===== src/Client/Pipe/Workers.antt =====
-- Lists of workers: the change of one, and the packages that they hold.
use magalix_agent.Prelude.{
  ℕ, zero, suc, ◌+◌, ◌≡◌, ◌≢◌, ◌⊎◌, refl, some, List, [], ◌∷◌, arith, get_elem?, set, map, ◌==◌,
  if◌then◌else◌,
}
use magalix_agent.Client.Queue.{Address}
use magalix_agent.Client.Pipe.{Worker, ready, empty_handed, waiting, sending, wake, start}

-- How many packages a worker holds.
unfoldable pub load_of : Worker → ℕ
load_of ready = 0
load_of empty_handed = 0
load_of waiting = 0
load_of (sending p) = 1

unfoldable pub held : List Worker → ℕ
unfolding load_of
held [] = 0
held (w ∷ ws) = load_of w + held ws

pub held-set :
    (ws : List Worker) (i : ℕ) (w w' : Worker)
    → get_elem? ws i ≡ some w
    → held (set ws i w') + load_of w ≡ held ws + load_of w'
unfolding held
held-set [] i w w' e = absurd (cc e)
held-set (x ∷ ws) zero w w' e = ground (arith, e)
held-set (x ∷ ws) (suc i) w w' e = omega (arith, held-set ws i w w' e)

pub get_elem?-set :
    (ws : List Worker) (i : ℕ) (w w' : Worker)
    → get_elem? ws i ≡ some w
    → (j : ℕ) → get_elem? (set ws i w') j ≡ (if i == j then some w' else get_elem? ws j)
get_elem?-set [] i w w' e j = absurd (cc e)
get_elem?-set (x ∷ ws) zero w w' e zero = refl
get_elem?-set (x ∷ ws) zero w w' e (suc j) = ground arith
get_elem?-set (x ∷ ws) (suc i) w w' e zero = ground arith
get_elem?-set (x ∷ ws) (suc i) w w' e (suc j) = ground (arith, get_elem?-set ws i w w' e j)

-- The worker at a position sends the package.
abbrev pub Sends : List Worker → ℕ → Address → Type 0
Sends ws i p = get_elem? ws i ≡ some (sending p)

module _ (ws : List Worker) (i : ℕ) (w : Worker) (e : get_elem? ws i ≡ some w) (j : ℕ)
    (p : Address) where
  -- What the workers send after one of them has stopped.
  pub Sends-set_quiet :
      (w' : Worker) → load_of w' ≡ 0 → Sends (set ws i w') j p → Sends ws j p × (j ≢ i)
  unfolding load_of
  Sends-set_quiet w' quiet h = ground (arith, h, quiet, get_elem?-set ws i w w' e j)

  -- What they send after one of them has got a package.
  pub Sends-set_sending :
      (q : Address)
      → Sends (set ws i (sending q)) j p
      → ((j ≡ i) × (p ≡ q)) ⊎ ((j ≢ i) × Sends ws j p)
  Sends-set_sending q h = ground (arith, h, get_elem?-set ws i w (sending q) e j)

pub Sends-wake : (ws : List Worker) (i : ℕ) (p : Address) → Sends (map wake ws) i p → Sends ws i p
unfolding wake
Sends-wake [] i p e = e
Sends-wake (ready ∷ ws) zero p e = absurd (cc e)
Sends-wake (empty_handed ∷ ws) zero p e = absurd (cc e)
Sends-wake (waiting ∷ ws) zero p e = absurd (cc e)
Sends-wake (sending q ∷ ws) zero p e = e
Sends-wake (w ∷ ws) (suc i) p e = Sends-wake ws i p e

pub held-wake : (ws : List Worker) → held (map wake ws) ≡ held ws
unfolding held wake
held-wake [] = refl
held-wake (ready ∷ ws) = omega (arith, held-wake ws)
held-wake (empty_handed ∷ ws) = omega (arith, held-wake ws)
held-wake (waiting ∷ ws) = omega (arith, held-wake ws)
held-wake (sending q ∷ ws) = omega (arith, held-wake ws)

pub not_start : (n i : ℕ) (p : Address) → ¬ Sends (start n) i p
unfolding start
not_start zero i p e = absurd (cc e)
not_start (suc n) zero p e = absurd (cc e)
not_start (suc n) (suc i) p e = not_start n i p e

pub held-start : (n : ℕ) → held (start n) ≡ 0
unfolding held start
held-start zero = refl
held-start (suc n) = omega (arith, held-start n)
