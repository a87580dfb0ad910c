-- ===== src/Prelude/Dict.antt =====
-- Go maps with string keys, as association lists: `insert` is `m[k] = v`, `remove` is `delete(m, k)`
-- and `lookup` is `v, ok := m[k]`. A range over the map visits the entries of the list in order.
use magalix_agent.Prelude.Tests.{if◌then◌else◌}
use magalix_agent.Prelude.Lists.{All}
use text.Mathlib.TextPositions.{eq_refl}
use Prim.Native.String.{String}
use mathlib.Core.Path.{◌≡◌, refl}
use mathlib.Core.Option.{Option, none, some}
use mathlib.Core.List.{List, [], ◌∷◌}
use native.Mathlib.Omega.{arith}
use text.Mathlib.Text.{◌==◌}
use text.Mathlib.TextEquality.{eq_iff}

abbrev pub Dict {ℓ} : Type ℓ → Type ℓ
Dict V = List (String × V)

module _ {ℓ} {V : Type ℓ} where
  unfoldable pub lookup : String → Dict V → Option V
  lookup k [] = none
  lookup k ((j, v) ∷ m) = if j == k then some v else lookup k m

  unfoldable pub insert : String → V → Dict V → Dict V
  insert k v [] = (k, v) ∷ []
  insert k v ((j, w) ∷ m) = if j == k then (k, v) ∷ m else (j, w) ∷ insert k v m

  unfoldable pub remove : String → Dict V → Dict V
  remove k [] = []
  remove k ((j, v) ∷ m) = let rest = remove k m in if j == k then rest else (j, v) ∷ rest

  pub lookup-insert :
      (key k : String) (value : V) (entries : Dict V)
      → lookup k (insert key value entries) ≡ (if key == k then some value else lookup k entries)
  unfolding insert lookup
  lookup-insert key k value [] = refl
  lookup-insert key k value ((old_key, old) ∷ entries) =
      ground (
        arith,
        lookup-insert key k value entries,
        eq_iff old_key key,
        eq_iff old_key k,
        eq_iff key k,
      )

  pub lookup-remove :
      (k j : String) (m : Dict V) → lookup j (remove k m) ≡ (if k == j then none else lookup j m)
  unfolding lookup remove
  lookup-remove k j [] = ground arith
  lookup-remove k j ((i, w) ∷ m) =
      ground (arith, eq_iff k j, eq_iff i k, eq_iff i j, lookup-remove k j m)

  -- No key stands twice.
  abbrev pub HasUniqueKeys : Dict V → Type ℓ
  HasUniqueKeys [] = Unit
  HasUniqueKeys ((k, v) ∷ m) = (lookup k m ≡ none) × HasUniqueKeys m

  pub insert-HasUniqueKeys :
      (k : String) (v : V) (m : Dict V) → HasUniqueKeys m → HasUniqueKeys (insert k v m)
  unfolding lookup insert
  insert-HasUniqueKeys k v [] h = (refl, tt)
  insert-HasUniqueKeys k v ((j, w) ∷ m) h =
      let fresh = lookup-insert k j v m in
      let rest = insert-HasUniqueKeys k v m h.1 in
      ground (arith, eq_iff j k, eq_iff k j, fresh, rest)

  pub remove-HasUniqueKeys :
      (k : String) (m : Dict V) → HasUniqueKeys m → HasUniqueKeys (remove k m)
  unfolding lookup remove
  remove-HasUniqueKeys k [] h = tt
  remove-HasUniqueKeys k ((j, w) ∷ m) h =
      let fresh = lookup-remove k j m in
      let rest = remove-HasUniqueKeys k m h.1 in ground (arith, eq_iff k j, fresh, rest)

  -- What holds of all that a lookup finds holds of all entries.
  pub All-lookup :
      (P : V → Type 0) (m : Dict V)
      → HasUniqueKeys m
      → ((k : String) (v : V) → lookup k m ≡ some v → P v)
      → All (λ kv. P kv.1) m
  unfolding lookup
  All-lookup P [] u h = tt
  All-lookup P ((j, w) ∷ m) u h =
      (h j w (simp eq_refl), All-lookup P m u.1 λ k v e. h k v (ground (arith, eq_iff j k, u.0)))
