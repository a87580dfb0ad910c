-- ===== src/Agent/Lifecycle/Ordered.antt =====
-- What every interleaving keeps, when a restart arrives once at most.
use magalix_agent.Prelude.{
  ℕ, ◌≡◌, refl, Bool, true, false, ◌&&◌, ◌||◌, if◌then◌else◌, Option, none, some, List, [], All,
}
use magalix_agent.Agent.Lifecycle.{
  Agent, start, sources_context_done, sinks_context_done, Restart, tests_sources, calls_sources,
  clears_sources, tests_sinks, calls_sinks, clears_sinks, sleeps, stop, wait_authorization, Member,
  gateway, entities, auditor, end_member, wait_group,
}

-- What a restart has done where it stands.
abbrev pub IsPlace : Agent → Restart → Type 0
IsPlace a tests_sources = Unit
IsPlace a calls_sources = a.cancel_sources ≡ true
IsPlace a clears_sources = a.sources_done ≡ true
IsPlace a tests_sinks = a.sources_done ≡ true
IsPlace a calls_sinks = (a.sources_done ≡ true) × (a.cancel_sinks ≡ true)
IsPlace a clears_sinks = (a.sources_done ≡ true) × (a.sinks_done ≡ true)
IsPlace a sleeps = (a.sources_done ≡ true) × (a.sinks_done ≡ true)

-- The sinks are stopped after the sources, the process exits with 0 only when both are, and with 1 only when it
-- was not authorized, and a member of the group has returned only when its context is done.
pub record IsOrdered (a : Agent) (rs : List Restart) : Type 0 where
  pub sources_cleared : a.cancel_sources ≡ false → a.sources_done ≡ true
  pub sinks_cleared : a.cancel_sinks ≡ false → a.sinks_done ≡ true
  pub sources_first : a.sinks_done ≡ true → a.sources_done ≡ true
  pub places : All (IsPlace a) rs
  pub stopped :
      a.exit_code ≡ some 0 → (sources_context_done a ≡ true) × (sinks_context_done a ≡ true)
  pub refused : a.exit_code ≡ some 1 → a.authorized ≡ false
  pub without_gateway : a.gateway_ended ≡ true → sinks_context_done a ≡ true
  pub without_entities : a.entities_ended ≡ true → sources_context_done a ≡ true
  pub without_auditor : a.auditor_ended ≡ true → sources_context_done a ≡ true

pub start-IsOrdered : IsOrdered start []
start-IsOrdered = record {
  sources_cleared = λ e. absurd (cc e);
  sinks_cleared = λ e. absurd (cc e);
  sources_first = λ e. absurd (cc e);
  places = tt;
  stopped = λ e. absurd (cc e);
  refused = λ e. absurd (cc e);
  without_gateway = λ e. absurd (cc e);
  without_entities = λ e. absurd (cc e);
  without_auditor = λ e. absurd (cc e);
}

pub or_later : (b c : Bool) → c ≡ true → (b || c) ≡ true
or_later true c e = refl
or_later false c e = e

and_both : (b c : Bool) → (b && c) ≡ true → (b ≡ true) × (c ≡ true)
and_both true c e = (refl, e)
and_both false c e = absurd (cc e)

pub either :
    {A : Type 0} (P : A → Type 0) (c : Bool) (x y : A)
    → (c ≡ true → P x)
    → (c ≡ false → P y)
    → P (if c then x else y)
either P true x y f g = f refl
either P false x y f g = g refl

module _ (a : Agent) (rs : List Restart) (o : IsOrdered a rs) where
  ended-IsOrdered :
      (cancel : Bool) (code : Option ℕ)
      → (code ≡ some 1 → a.authorized ≡ false)
      → IsOrdered (record a { cancel_all = cancel; all_done = true; exit_code = code }) rs
  ended-IsOrdered cancel code refused = record {
    sources_cleared = o.sources_cleared;
    sinks_cleared = o.sinks_cleared;
    sources_first = o.sources_first;
    places = o.places;
    stopped = λ h. (refl, refl);
    refused = refused;
    without_gateway = λ h. refl;
    without_entities = λ h. refl;
    without_auditor = λ h. refl;
  }

  pub stop-IsOrdered : IsOrdered (stop a) rs
  unfolding stop
  stop-IsOrdered =
      either (λ x. IsOrdered x rs) a.cancel_all _ a
        (λ e. ended-IsOrdered false a.exit_code o.refused) λ e. o

  pub wait_group-IsOrdered : IsOrdered (wait_group a) rs
  unfolding wait_group
  wait_group-IsOrdered =
      either (λ x. IsOrdered x rs) (a.gateway_ended && (a.entities_ended && a.auditor_ended)) _ a
        (λ e. ended-IsOrdered a.cancel_all (some 0) λ h. absurd (cc h)) λ e. o

  module _ (running : a.exit_code ≡ none) where
    pub wait_authorization-IsOrdered : (failed : Bool) → IsOrdered (wait_authorization a failed) rs
    unfolding wait_authorization
    wait_authorization-IsOrdered failed =
        either (λ x. IsOrdered x rs) a.authorized a _ (λ e. o)
          λ e.
            either (λ x. IsOrdered x rs) failed _ _
              (λ f. ended-IsOrdered a.cancel_all (some 1) λ h. e)
              λ f. record {
                sources_cleared = o.sources_cleared;
                sinks_cleared = o.sinks_cleared;
                sources_first = o.sources_first;
                places = o.places;
                stopped = o.stopped;
                refused = λ h. absurd (cc (running, h));
                without_gateway = o.without_gateway;
                without_entities = o.without_entities;
                without_auditor = o.without_auditor;
              }

    pub end_member-IsOrdered : (m : Member) → IsOrdered (end_member a m) rs
    unfolding end_member
    end_member-IsOrdered gateway =
        either (λ x. IsOrdered x rs) (sinks_context_done a) _ a
          (λ e. record {
            sources_cleared = o.sources_cleared;
            sinks_cleared = o.sinks_cleared;
            sources_first = o.sources_first;
            places = o.places;
            stopped = o.stopped;
            refused = o.refused;
            without_gateway = λ h. e;
            without_entities = o.without_entities;
            without_auditor = o.without_auditor;
          })
          λ e. o
    end_member-IsOrdered entities =
        either (λ x. IsOrdered x rs) (a.authorized && sources_context_done a) _ a
          (λ e. record {
            sources_cleared = o.sources_cleared;
            sinks_cleared = o.sinks_cleared;
            sources_first = o.sources_first;
            places = o.places;
            stopped = o.stopped;
            refused = o.refused;
            without_gateway = o.without_gateway;
            without_entities = λ h. (and_both a.authorized (sources_context_done a) e).1;
            without_auditor = o.without_auditor;
          })
          λ e. o
    end_member-IsOrdered auditor =
        either (λ x. IsOrdered x rs) (a.authorized && sources_context_done a) _ a
          (λ e. record {
            sources_cleared = o.sources_cleared;
            sinks_cleared = o.sinks_cleared;
            sources_first = o.sources_first;
            places = o.places;
            stopped = o.stopped;
            refused = o.refused;
            without_gateway = o.without_gateway;
            without_entities = o.without_entities;
            without_auditor = λ h. (and_both a.authorized (sources_context_done a) e).1;
          })
          λ e. o
