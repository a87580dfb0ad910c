-- ===== src/Kuber/Kube/Tests.antt =====
-- The theorem at the version of a managed cluster, and the two panics.
use magalix_agent.Prelude.{◌≡◌, refl, String, List, [], inr, ok, panic}
use magalix_agent.Kuber.Kube.{get_server_minor_version, get_cluster_provider}
use magalix_agent.Kuber.Kube.Minor.{get_server_minor_version-last}

abbrev atoi : String → String
atoi s = s

abbrev failed : String → String
failed err = err

get_server_minor_version-last_example :
    get_server_minor_version atoi failed (inr "21+") ≡ ok (atoi "21")
get_server_minor_version-last_example = get_server_minor_version-last atoi failed "21" "+" refl

minor_version-empty : get_server_minor_version atoi failed (inr "") ≡ panic
unfolding get_server_minor_version
minor_version-empty = refl

cluster_provider-no_nodes :
    (split : String → String → List String) → get_cluster_provider split (inr []) ≡ panic
unfolding get_cluster_provider
cluster_provider-no_nodes split = refl
