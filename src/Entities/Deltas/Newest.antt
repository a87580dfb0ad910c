-- ===== src/Entities/Deltas/Newest.antt =====
-- The items of a batch hold, for each object, a change that is as new as any that came.
use magalix_agent.Prelude.{ℕ, ◌≤◌, ◌≡◌, String, some}
use magalix_agent.Prelude.Dict
use magalix_agent.Prelude.Dict.{Dict}
use magalix_agent.Entities.Deltas.{Delta, Batch, open_batch, flushed}

-- The items hold a change of the object of that identifier, from that time on.
abbrev pub IsKept : Dict Delta → String → ℕ → Type 0
IsKept items id time = (d : Delta) × (Dict.lookup id items ≡ some d) × (time ≤ d.timestamp)

pub items_of : Batch → Dict Delta
items_of (open_batch items) = items
items_of (flushed items stop) = items
