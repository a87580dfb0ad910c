-- ===== src/Agent/Lifecycle/Restarted.antt =====
-- The goroutine of the only restart keeps the order.
use magalix_agent.Prelude.{◌≡◌, refl, Bool, true, false, ◌||◌, List, [], ◌∷◌, All, Returns}
use magalix_agent.Agent.Lifecycle.{
  Agent, Restart, tests_sources, calls_sources, clears_sources, tests_sinks, calls_sinks,
  clears_sinks, sleeps, handle_restart,
}
use magalix_agent.Agent.Lifecycle.Ordered.{IsPlace, IsOrdered, or_later, either}

or_further : (b c d : Bool) → (c ≡ true → d ≡ true) → (b || c) ≡ true → (b || d) ≡ true
or_further true c d f e = refl
or_further false c d f e = f e

-- The flags that a restart changes: none is taken back.
restarted-IsOrdered :
    (a : Agent) (r : Restart) (rs : List Restart) (x y u v : Bool)
    → IsOrdered a (r ∷ [])
    → (x ≡ false → u ≡ true)
    → (y ≡ false → v ≡ true)
    → (v ≡ true → u ≡ true)
    → (a.sources_done ≡ true → u ≡ true)
    → (a.sinks_done ≡ true → v ≡ true)
    → All
        (IsPlace
          (record a { cancel_sources = x; cancel_sinks = y; sources_done = u; sinks_done = v }))
        rs
    → IsOrdered
        (record a { cancel_sources = x; cancel_sinks = y; sources_done = u; sinks_done = v })
        rs
restarted-IsOrdered a r rs x y u v o cleared cleared' first more more' places =
    let sources = or_further a.all_done a.sources_done u more in
    let sinks = or_further a.all_done a.sinks_done v more' in
    record {
      sources_cleared = cleared;
      sinks_cleared = cleared';
      sources_first = first;
      places = places;
      stopped = λ h. let (k, k') = o.stopped h in (sources k, sinks k');
      refused = o.refused;
      without_gateway = λ h. sinks (o.without_gateway h);
      without_entities = λ h. sources (o.without_entities h);
      without_auditor = λ h. sources (o.without_auditor h);
    }

-- The only restart goes on: no cancel function is nil when it is called.
pub handle_restart-IsOrdered :
    (a : Agent) (r : Restart)
    → IsOrdered a (r ∷ [])
    → Returns (λ n. IsOrdered n.0 (n.1 ∷ [])) (handle_restart a r)
unfolding handle_restart
handle_restart-IsOrdered a tests_sources o =
    restarted-IsOrdered a _ _ a.cancel_sources a.cancel_sinks a.sources_done a.sinks_done o
      o.sources_cleared o.sinks_cleared o.sources_first (λ h. h) (λ h. h)
      (either (IsPlace a) a.cancel_sources calls_sources tests_sinks (λ e. e) o.sources_cleared, tt)
handle_restart-IsOrdered a calls_sources o =
    either (Returns (λ n. IsOrdered n.0 (n.1 ∷ []))) a.cancel_sources _ _
      (λ e.
        restarted-IsOrdered a _ _ a.cancel_sources a.cancel_sinks true a.sinks_done o (λ h. refl)
          o.sinks_cleared (λ h. refl) (λ h. refl) (λ h. h) (refl, tt))
      λ e. absurd (cc (e, o.places.0))
handle_restart-IsOrdered a clears_sources o =
    restarted-IsOrdered a _ _ false a.cancel_sinks a.sources_done a.sinks_done o (λ h. o.places.0)
      o.sinks_cleared o.sources_first (λ h. h) (λ h. h) o.places
handle_restart-IsOrdered a tests_sinks o =
    restarted-IsOrdered a _ _ a.cancel_sources a.cancel_sinks a.sources_done a.sinks_done o
      o.sources_cleared o.sinks_cleared o.sources_first (λ h. h) (λ h. h)
      (
        either (IsPlace a) a.cancel_sinks calls_sinks sleeps (λ e. (o.places.0, e))
            (λ e. (o.places.0, o.sinks_cleared e)),
        tt,
      )
handle_restart-IsOrdered a calls_sinks o =
    either (Returns (λ n. IsOrdered n.0 (n.1 ∷ []))) a.cancel_sinks _ _
      (λ e.
        restarted-IsOrdered a _ _ a.cancel_sources a.cancel_sinks a.sources_done true o
          o.sources_cleared (λ h. refl) (λ h. o.places.0.0) (λ h. h) (λ h. refl)
          ((o.places.0.0, refl), tt))
      λ e. absurd (cc (e, o.places.0.1))
handle_restart-IsOrdered a clears_sinks o =
    restarted-IsOrdered a _ _ a.cancel_sources false a.sources_done a.sinks_done o o.sources_cleared
      (λ h. o.places.0.1) o.sources_first (λ h. h) (λ h. h) o.places
handle_restart-IsOrdered a sleeps o = record {
  sources_cleared = o.sources_cleared;
  sinks_cleared = o.sinks_cleared;
  sources_first = o.sources_first;
  places = o.places;
  stopped = λ h.
      let (k, k') = o.places.0 in
      (or_later a.all_done a.sources_done k, or_later a.all_done a.sinks_done k');
  refused = λ h. absurd (cc h);
  without_gateway = o.without_gateway;
  without_entities = o.without_entities;
  without_auditor = o.without_auditor;
}
