-- ===== src/Client/PipeStore/Cut.antt =====
-- Lists of packages without one position.
use magalix_agent.Prelude.{
  ℕ, zero, suc, ◌-◌, ◌<◌, ◌≡◌, ◌≢◌, inl, inr, refl, ap, ◌∙◌, false, some, List, [], ◌∷◌, ◌++◌,
  arith, length, take, drop, ltb, ◌==◌, if◌then◌else◌, Bool-cases,
}
use magalix_agent.Client.Queue.{Address}
use magalix_agent.Client.Queue.Order.{at}
use magalix_agent.Client.PipeStore.{without_first}

-- `ys` is `xs` without its position `i`.
pub record IsCut (xs : List Address) (i : ℕ) (ys : List Address) : Type 0 where
  pub size : length xs ≡ suc (length ys)
  pub place : (c : ℕ) → c < length ys → at ys c ≡ (if ltb c i then at xs c else at xs (suc c))

IsCut-cons :
    (x : Address) (xs : List Address) (i : ℕ) (ys : List Address)
    → IsCut xs i ys
    → IsCut (x ∷ xs) (suc i) (x ∷ ys)
unfolding at
IsCut-cons x xs i ys k = record { size = ap suc k.size; place = λ c h. place c h }
  where
    place :
        (c : ℕ)
        → c < suc (length ys)
        → at (x ∷ ys) c ≡ (if ltb c (suc i) then at (x ∷ xs) c else at (x ∷ xs) (suc c))
    place zero h = ground arith
    place (suc c) h = ground (arith, k.place c)

pub take-IsCut :
    (xs : List Address) (i : ℕ) → i < length xs → IsCut xs i (take i xs ++ drop (suc i) xs)
unfolding at
take-IsCut [] i h = absurd (omega arith)
take-IsCut (x ∷ xs) zero h = record { size = refl; place = λ c h. ground arith }
take-IsCut (x ∷ xs) (suc i) h =
    IsCut-cons x xs i (take i xs ++ drop (suc i) xs) (take-IsCut xs i (omega arith))

-- The package stands in the list.
abbrev pub InList : Address → List Address → Type 0
InList p xs = (i : ℕ) × (i < length xs) × (at xs i ≡ p)

-- The list without its first occurrence of a package of it.
pub without_first-IsCut :
    (p : Address) (xs : List Address)
    → InList p xs
    → (i : ℕ) × (i < length xs)
      × (at xs i ≡ p)
      × (ys : List Address) × (without_first p xs ≡ some ys)
      × IsCut xs i ys
unfolding without_first at
without_first-IsCut p [] (i, h, e) = absurd (omega arith)
without_first-IsCut p (x ∷ xs) (i, h, e) = elim (Bool-cases (x == p)) [
  | inl found ↦
      (0, omega arith, ground arith, xs, rw found refl, take-IsCut (x ∷ xs) 0 (omega arith))
  | inr other ↦
      let later : InList p xs = inner i h e other in
      let (j, hj, ej, ys, same, k) = without_first-IsCut p xs later in
      (suc j, omega arith, ej, x ∷ ys, rw (other, same) refl, IsCut-cons x xs j ys k)
]
  where
    inner : (i : ℕ) → i < suc (length xs) → at (x ∷ xs) i ≡ p → (x == p) ≡ false → InList p xs
    inner zero h e other = absurd (ground arith)
    inner (suc i) h e other = (i, omega arith, e)

module _ (xs ys : List Address) (i : ℕ) (k : IsCut xs i ys) where
  -- Where a position of the shorter list comes from.
  abbrev pub source : ℕ → ℕ
  source c = if ltb c i then c else suc c

  pub cut-from :
      (c : ℕ)
      → c < length ys
      → (source c < length xs) × (source c ≢ i) × (at xs (source c) ≡ at ys c)
  cut-from c h = elim (Bool-cases (ltb c i)) [
    | inl before ↦ rw before (omega (arith, k.size), ground arith, ground (arith, k.place c h))
    | inr after ↦ rw after (omega (arith, k.size), ground arith, ground (arith, k.place c h))
  ]

  pub cut-kept :
      (d : ℕ)
      → i < length xs
      → d < length xs
      → d ≢ i
      → (c : ℕ) × (c < length ys) × (at ys c ≡ at xs d)
  cut-kept d hi h other = elim (Bool-cases (ltb d i)) [
    | inl before ↦
        let inner : d < length ys = ground (arith, k.size) in
        (d, inner, ground (arith, k.place d inner))
    | inr after ↦
        let inner : d - 1 < length ys = ground (arith, k.size) in
        let back : suc (d - 1) ≡ d = ground arith in
        (d - 1, inner, k.place (d - 1) inner ∙ ground (arith, back))
  ]
