-- ===== src/Auditor/Opa/Counts.antt =====
-- The constraints of each template, counted, and the auditor whose counts are right: `UsageCount` is the
-- number of constraints of the template, and so a template is there as long as a constraint names it.
use magalix_agent.Prelude.{
  ℕ, ◌+◌, ◌<◌, ◌≡◌, refl, inl, inr, String, Option, none, some, [], ◌∷◌, str_eq, eq_iff,
  if◌then◌else◌, arith, Option-cases,
}
use magalix_agent.Prelude.Dict
use magalix_agent.Prelude.Dict.{
  Dict, HasUniqueKeys, lookup-insert, lookup-remove, insert-HasUniqueKeys, remove-HasUniqueKeys,
}
use magalix_agent.Auditor.Opa.{Template, Constraint, OpaAuditor, new}

-- 1 for a constraint of the template, 0 for another.
abbrev pub names : Constraint → String → ℕ
names c t = if str_eq c.template_id t then 1 else 0

-- The number of constraints of a template.
unfoldable pub uses : String → Dict Constraint → ℕ
uses t [] = 0
uses t ((k, c) ∷ m) = names c t + uses t m

pub uses-insert_new :
    (t k : String) (c : Constraint) (m : Dict Constraint)
    → Dict.lookup k m ≡ none
    → uses t (Dict.insert k c m) ≡ names c t + uses t m
unfolding uses Dict.lookup Dict.insert
uses-insert_new t k c [] h = refl
uses-insert_new t k c ((j, w) ∷ m) h = ground (arith, uses-insert_new t k c m)

pub uses-insert_old :
    (t k : String) (c old : Constraint) (m : Dict Constraint)
    → Dict.lookup k m ≡ some old
    → uses t (Dict.insert k c m) + names old t ≡ names c t + uses t m
unfolding uses Dict.lookup Dict.insert
uses-insert_old t k c old [] h = cc
uses-insert_old t k c old ((j, w) ∷ m) h = ground (arith, uses-insert_old t k c old m)

remove_missing :
    {V : Type 0} (k : String) (m : Dict V) → Dict.lookup k m ≡ none → Dict.remove k m ≡ m
unfolding Dict.lookup Dict.remove
remove_missing k [] h = refl
remove_missing k ((j, w) ∷ m) h = ground (arith, remove_missing k m)

pub uses-remove :
    (t k : String) (old : Constraint) (m : Dict Constraint)
    → HasUniqueKeys m
    → Dict.lookup k m ≡ some old
    → uses t (Dict.remove k m) + names old t ≡ uses t m
unfolding uses Dict.lookup Dict.remove
uses-remove t k old [] u h = cc
uses-remove t k old ((j, w) ∷ m) u h =
    ground (arith, uses-remove t k old m u.1, remove_missing k m, eq_iff j k)

uses-pos :
    (k : String) (c : Constraint) (m : Dict Constraint)
    → Dict.lookup k m ≡ some c
    → 0 < uses c.template_id m
unfolding uses Dict.lookup
uses-pos k c [] h = cc
uses-pos k c ((j, w) ∷ m) h = ground (arith, uses-pos k c m, eq_iff w.template_id c.template_id)

module _ {Policy : Type 0} where
  abbrev pub usage : Option (Template Policy) → ℕ
  usage none = 0
  usage (some t) = t.usage_count

  pub record IsCounted (a : OpaAuditor Policy) : Type 0 where
    pub unique : HasUniqueKeys a.constraints
    pub counted : (t : String) → usage (Dict.lookup t a.templates) ≡ uses t a.constraints
    pub positive :
        (t : String) (x : Template Policy) → Dict.lookup t a.templates ≡ some x → 0 < x.usage_count

  -- A constraint that is known has its template.
  pub template_exists :
      (a : OpaAuditor Policy) (k : String) (c : Constraint)
      → IsCounted a
      → Dict.lookup k a.constraints ≡ some c
      → (x : Template Policy) × (Dict.lookup c.template_id a.templates ≡ some x)
  template_exists a k c v h = elim (Option-cases (Dict.lookup c.template_id a.templates)) [
    | inr found ↦ found
    | inl missing ↦
        let n : 0 ≡ uses c.template_id a.constraints = rw missing at (v.counted c.template_id) in
        absurd (omega (arith, uses-pos k c a.constraints h))
  ]

pub new-IsCounted : {Policy : Type 0} → IsCounted {Policy = Policy} new
unfolding new uses Dict.lookup
new-IsCounted = record { unique = tt; counted = λ t. refl; positive = λ t x e. cc e }

pub IsCounted-same :
    {Policy : Type 0} (a b : OpaAuditor Policy)
    → IsCounted a
    → b.templates ≡ a.templates
    → b.constraints ≡ a.constraints
    → IsCounted b
IsCounted-same a b v e f = record {
  unique = rw f v.unique;
  counted = λ t. rw (e, f) (v.counted t);
  positive = λ t x found. v.positive t x (rw e at found);
}

pub lookup-new :
    (Policy : Type 0) (k : String) → Dict.lookup k (new {Policy = Policy}).constraints ≡ none
unfolding new Dict.lookup
lookup-new Policy k = refl
