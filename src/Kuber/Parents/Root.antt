-- ===== src/Kuber/Parents/Root.antt =====
-- kuber/utils.go: RootParent.
use magalix_agent.Prelude.{String, Bool, ◌≡◌, ◌≢◌, refl}
use magalix_agent.Kuber.Parents.{ParentController, nil, controller, last_parent, root_parent}

-- `q` is `p` or stands above it.
pub data Climbs : ParentController → ParentController → Type 0 where
  here : (p : ParentController) → Climbs p p
  up :
      (kind name api_version : String) (watched : Bool) (above q : ParentController)
      → Climbs above q
      → Climbs (controller kind name api_version watched above) q

-- The field Parent.
abbrev pub parent : ParentController → ParentController
parent nil = nil
parent (controller kind name api_version watched above) = above

pub record IsRoot (p q : ParentController) : Type 0 where
  pub climbs : Climbs p q
  pub exists : q ≢ nil
  pub top : parent q ≡ nil

last_parent-IsRoot :
    (kind name api_version : String) (watched : Bool) (above : ParentController)
    → IsRoot
        (controller kind name api_version watched above)
        (last_parent kind name api_version watched above)
unfolding last_parent
last_parent-IsRoot kind name api_version watched nil = record {
  climbs = here _;
  exists = λ e. cc e;
  top = refl;
}
last_parent-IsRoot kind name api_version watched (controller k n a w above) =
    let r = last_parent-IsRoot k n a w above in
    record {
      climbs = up kind name api_version watched _ _ r.climbs;
      exists = r.exists;
      top = r.top;
    }

-- RootParent of a controller climbs the parents to one that has no parent; of nil it is nil.
pub root_parent-IsRoot :
    (p : ParentController) → (p ≢ nil → IsRoot p (root_parent p)) × (root_parent nil ≡ nil)
unfolding root_parent
root_parent-IsRoot nil = (λ h. absurd (h refl), refl)
root_parent-IsRoot (controller kind name api_version watched above) =
    (λ h. last_parent-IsRoot kind name api_version watched above, refl)
