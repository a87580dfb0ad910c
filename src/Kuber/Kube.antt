-- ===== src/Kuber/Kube.antt =====
-- kuber/kube.go: what Kube asks the cluster for. The answers of the cluster, strconv.Atoi and strings.Split
-- are arguments: an answer is an error on the left, or a value on the right.
mod Minor
mod Tests
use magalix_agent.Prelude.{
  zero, ◌-◌, ◌==◌, String, ◌⊎◌, inl, inr, List, [], ◌∷◌, Run, ok, panic, str_eq, if◌then◌else◌,
}
use Prim.Native.String.{◌++◌ as str_append, len, slice}

-- GetServerMinorVersion, of the answer to ServerVersion. `R` is the number with the error that Go returns. A
-- slice that starts below 0 panics.
pub get_server_minor_version : {R : Type 0} → (String → R) → (String → R) → String ⊎ String → Run R
get_server_minor_version atoi failed (inl err) = ok (failed err)
get_server_minor_version atoi failed (inr minor) =
    let last1 = slice minor (len minor - 1) (len minor) in
    if len minor == 0
    then panic
    else if str_eq last1 "+"
    then ok (atoi (slice minor zero (len minor - 1)))
    else ok (atoi minor)

-- `strings.Split(…)[0]`
pub first_part : List String → Run (String ⊎ String)
first_part [] = panic
first_part (part ∷ parts) = ok (inr part)

-- GetClusterProvider, of the answer to the list of the nodes, which holds their provider ids.
pub get_cluster_provider :
    (String → String → List String) → String ⊎ List String → Run (String ⊎ String)
unfolding first_part
get_cluster_provider split (inl err) =
    ok (inl (str_append "unable to list cluster nodes, error: " err))
get_cluster_provider split (inr []) = panic
get_cluster_provider split (inr (provider_id ∷ nodes)) = first_part (split provider_id ":")
