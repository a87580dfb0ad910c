-- ===== src/Utils/Truncated.antt =====
-- The length of what TruncateString gives.
use magalix_agent.Prelude.{
  ℕ, zero, suc, ◌+◌, ◌-◌, ◌≤◌, ◌≡◌, refl, List, [], ◌∷◌, arith, length, length-append, take, ltb,
  Bool-cases, inl, inr, if◌then◌else◌,
}
use magalix_agent.Utils.{truncate_string}

length-take : (n : ℕ) (xs : List ℕ) → n ≤ length xs → length (take n xs) ≡ n
length-take zero xs h = refl
length-take (suc n) [] h = absurd (omega arith)
length-take (suc n) (x ∷ xs) h = omega (arith, length-take n xs)

-- TruncateString keeps the length of a text that is not longer than the number. A longer text becomes exactly as long
-- as the number when that is above 3, and else three bytes longer than the number.
pub length-truncate_string :
    (str : List ℕ) (num : ℕ)
    → length (truncate_string str num)
      ≡ (if ltb num (length str) then (if ltb 3 num then num else num + 3) else length str)
unfolding truncate_string
length-truncate_string str num =
    let dots : List ℕ = 46 ∷ 46 ∷ 46 ∷ [] in
    elim (Bool-cases (ltb num (length str))) [
      | inr short ↦ rw short refl
      | inl long ↦ elim (Bool-cases (ltb 3 num)) [
        | inl big ↦
            let size = length-take (num - 3) str (ground arith) in
            let fits : 3 ≤ num = ground arith in
            rw (long, big) (omega (arith, size, fits, length-append (take (num - 3) str) dots))
        | inr small ↦
            let size = length-take num str (ground arith) in
            rw (long, small) (omega (arith, size, length-append (take num str) dots))
      ]
    ]
