-- ===== src/Kuber/Resources.antt =====
-- kuber/resources.go: the resources that the agent knows. The groups and versions of k8s.io/api are an
-- argument.
use magalix_agent.Prelude.{String}
use Prim.Native.String.{◌++◌ as str_append}

pub record GroupVersion : Type 0 where
  pub group : String
  pub version : String

pub record GroupVersionResourceKind : Type 0 where
  pub group : String
  pub version : String
  pub resource : String
  pub kind : String

-- The method String.
pub show_gvrk : GroupVersionResourceKind → String
show_gvrk g = str_append g.group (
    str_append "/" (
      str_append g.version
        (str_append ", Resource=" (str_append g.resource (str_append ", Kind=" g.kind)))))

-- SchemeGroupVersion of the packages of k8s.io/api.
pub record Schemes : Type 0 where
  pub core : GroupVersion
  pub apps : GroupVersion
  pub batch : GroupVersion
  pub batch_beta : GroupVersion
  pub networking : GroupVersion
  pub rbac : GroupVersion
  pub storage : GroupVersion

abbrev pub with_resource : GroupVersion → String → String → GroupVersionResourceKind
with_resource g resource kind = record {
  group = g.group;
  version = g.version;
  resource = resource;
  kind = kind;
}

module _ (schemes : Schemes) where
  abbrev pub nodes : GroupVersionResourceKind
  nodes = with_resource schemes.core "nodes" "Node"

  abbrev pub namespaces : GroupVersionResourceKind
  namespaces = with_resource schemes.core "namespaces" "Namespace"

  abbrev pub limit_ranges : GroupVersionResourceKind
  limit_ranges = with_resource schemes.core "limitranges" "LimitRange"

  abbrev pub pods : GroupVersionResourceKind
  pods = with_resource schemes.core "pods" "Pod"

  abbrev pub replication_controllers : GroupVersionResourceKind
  replication_controllers =
      with_resource schemes.core "replicationcontrollers" "ReplicationController"

  abbrev pub deployments : GroupVersionResourceKind
  deployments = with_resource schemes.apps "deployments" "Deployment"

  abbrev pub stateful_sets : GroupVersionResourceKind
  stateful_sets = with_resource schemes.apps "statefulsets" "StatefulSet"

  abbrev pub daemon_sets : GroupVersionResourceKind
  daemon_sets = with_resource schemes.apps "daemonsets" "DaemonSet"

  abbrev pub replica_sets : GroupVersionResourceKind
  replica_sets = with_resource schemes.apps "replicasets" "ReplicaSet"

  abbrev pub jobs : GroupVersionResourceKind
  jobs = with_resource schemes.batch "jobs" "Job"

  abbrev pub cron_jobs : GroupVersionResourceKind
  cron_jobs = with_resource schemes.batch_beta "cronjobs" "CronJob"

  abbrev pub ingresses : GroupVersionResourceKind
  ingresses = with_resource schemes.networking "ingresses" "Ingress"

  abbrev pub ingress_classes : GroupVersionResourceKind
  ingress_classes = with_resource schemes.networking "ingressclasses" "IngressClass"

  abbrev pub network_policies : GroupVersionResourceKind
  network_policies = with_resource schemes.networking "networkpolicies" "NetworkPolicy"

  abbrev pub services : GroupVersionResourceKind
  services = with_resource schemes.core "services" "Service"

  abbrev pub persistent_volumes : GroupVersionResourceKind
  persistent_volumes = with_resource schemes.core "persistentvolumes" "PersistentVolume"

  abbrev pub persistent_volume_claims : GroupVersionResourceKind
  persistent_volume_claims =
      with_resource schemes.core "persistentvolumeclaims" "PersistentVolumeClaim"

  abbrev pub storage_classes : GroupVersionResourceKind
  storage_classes = with_resource schemes.storage "storageclasses" "StorageClass"

  abbrev pub roles : GroupVersionResourceKind
  roles = with_resource schemes.rbac "roles" "Role"

  abbrev pub role_bindings : GroupVersionResourceKind
  role_bindings = with_resource schemes.rbac "rolebindings" "RoleBinding"

  abbrev pub cluster_roles : GroupVersionResourceKind
  cluster_roles = with_resource schemes.rbac "clusterroles" "ClusterRole"

  abbrev pub cluster_role_bindings : GroupVersionResourceKind
  cluster_role_bindings = with_resource schemes.rbac "clusterrolebindings" "ClusterRoleBinding"

  abbrev pub service_accounts : GroupVersionResourceKind
  service_accounts = with_resource schemes.core "serviceaccounts" "ServiceAccount"
