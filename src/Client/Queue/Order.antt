-- ===== src/Client/Queue/Order.antt =====
-- The order of packages, positions of the queue, and the operations in range as plain functions.
use magalix_agent.Prelude.{
  ℕ, zero, suc, ◌≤◌, ◌<◌, ◌≡◌, refl, true, false, some, List, [], ◌∷◌, ◌++◌, ok, arith, length,
  get_elem?, set, take, ◌==◌, if◌then◌else◌,
}
use magalix_agent.Client.Queue.{Package, Address, PriorityQueue, load, below, less, set_index, swap}

-- `b` does not come before `a`.
abbrev pub Le : Package → Package → Type 0
Le a b = below b a ≡ false

pub Le-trans : (a b c : Package) → Le a b → Le b c → Le a c
Le-trans a b c h k = ground arith

pub Le_refl : (a : Package) → Le a a
Le_refl a = ground arith

pub Le_of_below : (a b : Package) → below a b ≡ true → Le a b
Le_of_below a b h = ground arith

-- The item at a position; the address 0 where there is none.
unfoldable pub at : List Address → ℕ → Address
at [] i = 0
at (x ∷ xs) zero = x
at (x ∷ xs) (suc i) = at xs i

pub get_elem?-at : (xs : List Address) (i : ℕ) → i < length xs → get_elem? xs i ≡ some (at xs i)
unfolding at
get_elem?-at [] i h = absurd (omega arith)
get_elem?-at (x ∷ xs) zero h = refl
get_elem?-at (x ∷ xs) (suc i) h = get_elem?-at xs i (omega arith)

pub length-set : (xs : List Address) (i : ℕ) (v : Address) → length (set xs i v) ≡ length xs
length-set [] i v = refl
length-set (x ∷ xs) zero v = refl
length-set (x ∷ xs) (suc i) v = omega (arith, length-set xs i v)

pub at-set :
    (xs : List Address) (i j : ℕ) (v : Address)
    → i < length xs
    → at (set xs i v) j ≡ (if i == j then v else at xs j)
unfolding at
at-set [] i j v h = absurd (omega arith)
at-set (x ∷ xs) zero zero v h = refl
at-set (x ∷ xs) zero (suc j) v h = ground arith
at-set (x ∷ xs) (suc i) zero v h = ground arith
at-set (x ∷ xs) (suc i) (suc j) v h = ground (arith, at-set xs i j v)

pub at-append :
    (xs : List Address) (p : Address) (i : ℕ) → i < length xs → at (xs ++ p ∷ []) i ≡ at xs i
unfolding at
at-append [] p i h = absurd (omega arith)
at-append (x ∷ xs) p zero h = refl
at-append (x ∷ xs) p (suc i) h = at-append xs p i (omega arith)

pub at-append_last : (xs : List Address) (p : Address) → at (xs ++ p ∷ []) (length xs) ≡ p
unfolding at
at-append_last [] p = refl
at-append_last (x ∷ xs) p = at-append_last xs p

pub at-take : (n : ℕ) (xs : List Address) (i : ℕ) → i < n → at (take n xs) i ≡ at xs i
unfolding at
at-take zero xs i h = absurd (omega arith)
at-take (suc n) [] i h = refl
at-take (suc n) (x ∷ xs) zero h = refl
at-take (suc n) (x ∷ xs) (suc i) h = at-take n xs i (omega arith)

pub length-take_le : (n : ℕ) (xs : List Address) → n ≤ length xs → length (take n xs) ≡ n
length-take_le zero xs h = refl
length-take_le (suc n) [] h = absurd (omega arith)
length-take_le (suc n) (x ∷ xs) h = omega (arith, length-take_le n xs)

-- The package at a position.
abbrev pub pack_at : PriorityQueue → ℕ → Package
pack_at q i = q.mem (at q.items i)

pub load-ok : (q : PriorityQueue) (i : ℕ) → i < length q.items → load q i ≡ ok (at q.items i)
unfolding load
load-ok q i h = rw (get_elem?-at q.items i h)

-- Swap in range.
unfoldable pub swapped : PriorityQueue → ℕ → ℕ → PriorityQueue
swapped q i j =
    let x = at q.items i in
    let y = at q.items j in
    record {
      mem = set_index (set_index q.mem (if j == i then x else y) (some i)) x (some j);
      items = set (set q.items i y) j x;
    }

module _ (q : PriorityQueue) (i j : ℕ) (hi : i < length q.items) (hj : j < length q.items) where
  pub less-ok : less q i j ≡ ok (below (pack_at q i) (pack_at q j))
  unfolding less
  less-ok = rw (load-ok q i hi, load-ok q j hj)

  pub at-swapped :
      (c : ℕ)
      → at (swapped q i j).items c
        ≡ (if j == c then at q.items i else if i == c then at q.items j else at q.items c)
  unfolding swapped
  at-swapped c =
      let inner = at-set q.items i c (at q.items j) hi in
      let size = length-set q.items i (at q.items j) in
      let outer = at-set (set q.items i (at q.items j)) j c (at q.items i) (omega (arith, size)) in
      ground (arith, inner, outer)

  pub length-swapped : length (swapped q i j).items ≡ length q.items
  unfolding swapped
  length-swapped = omega (
    arith,
    length-set q.items i (at q.items j),
    length-set (set q.items i (at q.items j)) j (at q.items i),
  )

  pub swap-ok : swap q i j ≡ ok (swapped q i j)
  unfolding swap swapped
  swap-ok =
      let size = length-swapped in
      let q' : PriorityQueue = record q { items = (swapped q i j).items } in
      let first = load-ok q' i (omega (arith, size)) in
      let second = load-ok q' j (omega (arith, size)) in
      let p : at q'.items i ≡ (if j == i then at q.items i else at q.items j) =
        ground (arith, at-swapped i) in
      let r : at q'.items j ≡ at q.items i = ground (arith, at-swapped j) in
      rw (load-ok q j hj, load-ok q i hi, first, second, p, r)
