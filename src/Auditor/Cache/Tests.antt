-- ===== src/Auditor/Cache/Tests.antt =====
-- The theorem at a sequence of calls.
use magalix_agent.Prelude.{◌≡◌, some, List, [], ◌∷◌}
use magalix_agent.Agent.Governance.{compliant, violating}
use magalix_agent.Auditor.Cache.{new_audit_results_cache, get}
use magalix_agent.Auditor.Cache.Operations.{
  Operation, puts, removes_constraint, removes_resource, operate_all, get-operate_all,
}

abbrev operations : List Operation
operations =
    puts "c1" "default:Pod:web" compliant
    ∷ removes_resource "default:Pod:web"
    ∷ puts "c1" "default:Pod:web" violating
    ∷ puts "c2" "default:Pod:web" compliant
    ∷ removes_constraint "c2"
    ∷ []

get-operate_all_example :
    get (operate_all operations new_audit_results_cache) "c1" "default:Pod:web" ≡ some violating
get-operate_all_example = get-operate_all operations new_audit_results_cache "c1" "default:Pod:web"
