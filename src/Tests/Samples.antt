-- ===== src/Tests/Samples.antt =====
-- Machines, control planes and libraries to run the model on.
use cluster_api_bootstrap_pr.Prelude.{
  ℕ, String, Bool, true, false, Option, none, some, List, [], ◌∷◌, ltb, pos, ◌≡◌, ◌↔◌, Memᴰ, arith,
  ap,
}
use cluster_api_bootstrap_pr.Prelude.Dict.{keys}
use cluster_api_bootstrap_pr.Api.{
  Machine, Cluster, FailureDomains, FailureDomainSpec, CritControlPlane, ObjectReference,
  CritConfigSpec,
}
use cluster_api_bootstrap_pr.Machines.Sort.{Sort, IsStrictWeak}
use cluster_api_bootstrap_pr.Machines.Sort.Insertion.{insertion}
use cluster_api_bootstrap_pr.Machines.Filters.{machine_control_plane_label_name, hash_label_key}
use cluster_api_bootstrap_pr.Machines.Collection.{Collection}
use cluster_api_bootstrap_pr.ControlPlane.{ControlPlane}
use cluster_api_bootstrap_pr.ControlPlane.Interface.{Library}

abbrev before : ℕ → Option ℕ → Bool
before a none = false
before a (some b) = ltb a b

abbrev created_before : Machine → Machine → Bool
created_before a b = before a.creation_timestamp (some b.creation_timestamp)

pub created_before-IsStrictWeak : IsStrictWeak created_before
created_before-IsStrictWeak = record {
  asymmetric = λ x y h. ground arith;
  transitive = λ x y z h k. ground arith;
}

abbrev machine_sort : Sort Machine
machine_sort = insertion

abbrev is_zero : Option ℕ → Bool
is_zero none = true
is_zero (some t) = false

abbrev ids_of : FailureDomains → List (Option String)
ids_of [] = []
ids_of ((k, d) ∷ domains) = some k ∷ ids_of domains

some_injective : (a b : String) → some a ≡ some b → a ≡ b
some_injective a b h = cc

known_id :
    (domains : FailureDomains) (id : String)
    → Memᴰ (some id) (ids_of domains)
    → Memᴰ id (keys domains)
known_id [] id h = elim h [ ]
known_id ((k, d) ∷ domains) id (Memᴰ.head e) = Memᴰ.head (some_injective id k e)
known_id ((k, d) ∷ domains) id (Memᴰ.tail h) = Memᴰ.tail (known_id domains id h)

listed_id :
    (domains : FailureDomains) (id : String)
    → Memᴰ id (keys domains)
    → Memᴰ (some id) (ids_of domains)
listed_id [] id h = elim h [ ]
listed_id ((k, d) ∷ domains) id (Memᴰ.head e) = Memᴰ.head (ap some e)
listed_id ((k, d) ∷ domains) id (Memᴰ.tail h) = Memᴰ.tail (listed_id domains id h)

pub ids_of-same :
    (domains : FailureDomains) (id : String)
    → Memᴰ (some id) (ids_of domains) ↔ Memᴰ id (keys domains)
ids_of-same domains id = (known_id domains id, listed_id domains id)

pub ids_of-some : (domains : FailureDomains) → ¬ Memᴰ none (ids_of domains)
ids_of-some [] h = elim h [ ]
ids_of-some ((k, d) ∷ domains) (Memᴰ.head e) = cc
ids_of-some ((k, d) ∷ domains) (Memᴰ.tail h) = ids_of-some domains h

-- The hash of the sample is the version.
abbrev pub library : Library
library = record {
  is_zero = is_zero;
  before = before;
  by_creation = machine_sort.sort created_before;
  by_creation_same = machine_sort.same created_before;
  by_creation_length = machine_sort.same_length created_before;
  by_creation_ordered = λ ms. machine_sort.ordered created_before ms created_before-IsStrictWeak;
  sorter = insertion;
  filter_control_plane = λ domains. domains;
  get_ids = ids_of;
  get_ids_same = ids_of-same;
  get_ids_some = ids_of-some;
  deep_hash = λ version infra spec. version;
}

abbrev pub template : ObjectReference
template = record {
  api_version = "infrastructure.cluster.x-k8s.io/v1alpha3";
  kind = "DockerMachineTemplate";
  namespace_of = "default";
  name = "infra";
  uid = "";
}

-- A machine of control plane "cp" in a failure domain, with a hash and a node.
abbrev pub machine : String → ℕ → Option String → String → Machine
machine name created fd hash = record {
  name = name;
  namespace_of = "default";
  labels = (machine_control_plane_label_name, "cp") ∷ (hash_label_key, hash) ∷ [];
  annotations = none;
  owner_references = [];
  creation_timestamp = created;
  deletion_timestamp = none;
  cluster_name = "c";
  version = some hash;
  infrastructure_ref = template;
  config_ref = none;
  failure_domain = fd;
  node_ref = some name;
}

abbrev pub m1 : Machine
m1 = machine "m1" 1 (some "a") "v1"

abbrev pub m2 : Machine
m2 = machine "m2" 2 (some "b") "v2"

abbrev pub m3 : Machine
m3 = machine "m3" 3 (some "a") "v1"

abbrev pub machines : List Machine
machines = m1 ∷ m2 ∷ m3 ∷ []

abbrev pub collection : Collection
collection = ("m1", m1) ∷ ("m2", m2) ∷ ("m3", m3) ∷ []

abbrev domain : FailureDomainSpec
domain = record { control_plane = true; attributes = [] }

abbrev pub domains : FailureDomains
domains = ("a", domain) ∷ ("b", domain) ∷ []

abbrev pub config_spec : CritConfigSpec
config_spec = record {
  config = "kind: ControlPlaneConfiguration";
  files = [];
  pre_crit_commands = [];
  post_crit_commands = [];
  users = [];
  ntp = none;
  format = "";
  verbosity = false;
}

abbrev pub ccp : CritControlPlane
ccp = record {
  name = "cp";
  namespace_of = "default";
  uid = "1";
  finalizers = [];
  deletion_timestamp = none;
  spec = record {
    replicas = 3;
    version = "v2";
    infrastructure_template = template;
    crit_config_spec = config_spec;
  };
  status = record {
    selector = "";
    replicas = 0;
    updated_replicas = 0;
    ready_replicas = 0;
    unavailable_replicas = pos 0;
    initialized = true;
    ready = false;
    failure_reason = "";
    failure_message = none;
  };
}

abbrev pub cluster : Cluster
cluster = record {
  name = "c";
  namespace_of = "default";
  uid = "2";
  control_plane_endpoint = record { host = "10.0.0.1"; port = 6443 };
  cluster_network = none;
  control_plane_ref = none;
  infrastructure_ready = true;
  control_plane_initialized = false;
  failure_domains = domains;
}

abbrev pub control_plane : ControlPlane
control_plane = record { ccp = ccp; cluster = cluster; machines = collection }
