-- ===== src/Client/Connection/Retries.antt =====
-- WithBackoffLimit against a description of its tries.
use magalix_agent.Prelude.{
  ℕ, zero, suc, ◌+◌, ◌-◌, ◌*◌, ◌%◌, ◌<◌, ◌≡◌, inl, inr, refl, ap, ◌∙◌, Option, none, some, List, [],
  ◌∷◌, ◌++◌, arith, ltb, if◌then◌else◌, Bool-cases,
}
use magalix_agent.Client.Session.{Error}
use magalix_agent.Client.Connection.{
  Attempt, succeeded, failed, suspended, panicked, Backoff, ended, hung, broken, backoff_loop,
  with_backoff_limit,
}

-- The sleeps after that many calls that failed: ten rising ones, and again.
unfoldable pub pauses : ℕ → ℕ → List ℕ
pauses backoff zero = []
pauses backoff (suc n) = pauses backoff n ++ (backoff * (n % 10 + 1)) ∷ []

module _ {S : Type 0} (fn : S → Attempt S) where
  -- From the first state to the second that many calls fail, the last with that error.
  pub data Fails : ℕ → Option Error → S → S → Type 0 where
    no_call : (s : S) → Fails 0 none s s
    one_more :
        (n : ℕ) (o : Option Error) (s t u : S) (e : Error)
        → Fails n o s t
        → fn t ≡ failed e u
        → Fails (suc n) (some e) s u

module _ {S : Type 0} (fn : S → Attempt S) (backoff limit : ℕ) where
  -- How the tries end.
  pub data IsBackedOff (s : S) : Backoff S → Type 0 where
    on_success :
        (n : ℕ) (o : Option Error) (t u : S) (slept : List ℕ)
        → n < limit
        → slept ≡ pauses backoff n
        → Fails fn n o s t
        → fn t ≡ succeeded u
        → IsBackedOff s (ended none u slept)
    on_suspension :
        (n : ℕ) (o : Option Error) (t u : S)
        → n < limit
        → Fails fn n o s t
        → fn t ≡ suspended u
        → IsBackedOff s (hung u)
    on_panic :
        (n : ℕ) (o : Option Error) (t u : S)
        → n < limit
        → Fails fn n o s t
        → fn t ≡ panicked u
        → IsBackedOff s (broken u)
    on_limit :
        (o : Option Error) (t : S) (slept : List ℕ)
        → slept ≡ pauses backoff (limit - 1)
        → Fails fn limit o s t
        → IsBackedOff s (ended o t slept)

  -- How many sleeps the tries have brought.
  sleeps : ℕ → ℕ
  sleeps try = if ltb try limit then try else limit - 1

  module _ (s : S) where
    try_call :
        (rounds : ℕ)
        → ((try : ℕ) (err : Option Error) (t : S) (slept : List ℕ)
            → try + rounds ≡ limit
            → slept ≡ pauses backoff (sleeps try)
            → Fails fn try err s t
            → IsBackedOff s (backoff_loop fn backoff limit rounds try err t slept))
        → (try : ℕ) (err : Option Error) (t : S) (slept : List ℕ) (r : Attempt S)
        → try + suc rounds ≡ limit
        → slept ≡ pauses backoff try
        → Fails fn try err s t
        → fn t ≡ r
        → IsBackedOff s (elim r [
          | succeeded s' ↦ ended none s' slept
          | suspended s' ↦ hung s'
          | panicked s' ↦ broken s'
          | failed e s' ↦
              backoff_loop fn backoff limit rounds
                (try + 1)
                (some e)
                s'
                (if ltb (try + 1) limit then slept ++ (backoff * (try % 10 + 1)) ∷ [] else slept)
        ])
    unfolding sleeps pauses
    try_call rounds later try err t slept (succeeded u) e size f same =
        on_success try err t u slept (omega (arith, e)) size f same
    try_call rounds later try err t slept (suspended u) e size f same =
        on_suspension try err t u (omega (arith, e)) f same
    try_call rounds later try err t slept (panicked u) e size f same =
        on_panic try err t u (omega (arith, e)) f same
    try_call rounds later try err t slept (failed e' u) e size f same =
        let plus : try + 1 ≡ suc try = omega arith in
        let f' : Fails fn (try + 1) (some e') s u = rw plus (one_more try err s t u e' f same) in
        let size' : (if ltb (try + 1) limit
              then slept ++ (backoff * (try % 10 + 1)) ∷ []
              else slept)
            ≡ pauses backoff (sleeps (try + 1)) =
          elim (Bool-cases (ltb (try + 1) limit)) [
            | inl more ↦ rw (more, plus) (ap (λ l. l ++ (backoff * (try % 10 + 1)) ∷ []) size)
            | inr last ↦
                let end : try ≡ limit - 1 = ground (arith, e) in
                rw last (size ∙ ap (pauses backoff) end)
          ] in
        later (try + 1) (some e') u _ (omega (arith, e)) size' f'

    backoff_loop-IsBackedOff :
        (rounds try : ℕ) (err : Option Error) (t : S) (slept : List ℕ)
        → try + rounds ≡ limit
        → slept ≡ pauses backoff (sleeps try)
        → Fails fn try err s t
        → IsBackedOff s (backoff_loop fn backoff limit rounds try err t slept)
    unfolding backoff_loop sleeps
    backoff_loop-IsBackedOff zero try err t slept e size f =
        let over : try ≡ limit = omega (arith, e) in
        let last : sleeps limit ≡ limit - 1 = ground arith in
        on_limit err t slept
          (size ∙ ap (λ n. pauses backoff (sleeps n)) over ∙ ap (pauses backoff) last)
          (rw over at f)
    backoff_loop-IsBackedOff (suc rounds) try err t slept e size f =
        try_call rounds (backoff_loop-IsBackedOff rounds) try err t slept (fn t) e
          (size ∙ ap (pauses backoff) (ground (arith, e))) f refl

    start : [] ≡ pauses backoff (sleeps 0)
    unfolding sleeps pauses
    start = elim (Bool-cases (ltb 0 limit)) [
      | inl some_calls ↦ rw some_calls refl
      | inr no_calls ↦ let z : limit ≡ 0 = ground arith in rw z refl
    ]

    -- WithBackoffLimit calls the function until a call succeeds or as often as the limit says, with sleeps
    -- of `pauses` between the calls: it returns nil when a call succeeded, and the last error when all failed.
    -- With the limit 0 there is no call, and the result is nil. It never returns when a call does not, and panics
    -- when a call does.
    pub with_backoff_limit-IsBackedOff : IsBackedOff s (with_backoff_limit fn backoff limit s)
    unfolding with_backoff_limit
    with_backoff_limit-IsBackedOff =
        backoff_loop-IsBackedOff limit 0 none s [] (omega arith) start (no_call s)
