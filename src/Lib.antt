-- ===== src/Lib.antt =====
-- A model of the Cluster API bootstrap and control plane provider for crit, and what holds of it.
--
-- The provider runs two reconcilers. The one for CritConfig resources (controllers/bootstrap)
-- completes a machine's configuration, gives a worker a bootstrap token, and stores the machine's
-- cloud-config in a Secret. The one for CritControlPlane resources (controllers/controlplane)
-- keeps as many control plane machines as the resource asks for: it creates the cluster's
-- certificates and its kubeconfig, takes over machines without a controller, creates the first
-- machines, replaces outdated ones by scaling up and down while the control plane is healthy,
-- deletes all machines with the resource, and reports a status. It decides on a view of the
-- control plane (internal/control_plane.go) over collections of machines
-- (internal/machine_collection.go), filters (internal/machinefilters) and failure domains
-- (internal/failure_domain.go), and asks a management cluster (internal/cluster.go) and a workload
-- cluster (internal/workload_cluster.go) for machines and for health. Certificates are kept in
-- Secrets (internal/secret). Workload clusters are reached through cached clients that a tracker
-- makes, watches and drops (internal/remote). The resources exist in two versions, with
-- conversions between them (apis/bootstrap/v1alpha1, apis/controlplane/v1alpha1).
--
-- The files and the code:
-- Prelude holds the shared names: tests and lists on the native numbers, Go maps as association lists
-- (Prelude/Dict), errors and results (Prelude/Errors).
-- Api holds the structures of apis/bootstrap/v1alpha2 and apis/controlplane/v1alpha2, and those of
-- Cluster API that the code reads (Api/Meta).
-- Machines holds filters (Machines/Filters: And is and_filter, InFailureDomains is in_failure_domains),
-- collections (Machines/Collection: Filter is filter, Oldest is oldest) and the choice of failure domains
-- (Machines/FailureDomain: PickMost is pick_most, PickFewest is pick_fewest, PickNFewest is
-- pick_n_fewest). Machines/Sort states what the code needs of sort.Sort.
-- ControlPlane is the view that the reconciler decides on; ControlPlane/Interface is the record of
-- what it takes from other libraries, with their documented behaviour, and ControlPlane/Objects has the
-- objects that it makes.
-- Secret holds certificates (Secret/Certificates: LookupOrGenerate is lookup_or_generate) over an
-- interface of the store (Secret/Store).
-- Management holds the health check (Management/Workload: ControlPlaneIsHealthy; Management/Cluster:
-- healthCheck, GetMachinesForCluster, GetWorkloadCluster).
-- Controller holds the reconciler, a module per file of controllers/controlplane: Deletion (delete.go),
-- Generation (helpers.go), Scaling (upgrade.go and the initialisation), Status (status.go), Reconcile
-- (controlplane.go), Dispatch (controller.go), and Ownership (EnsureOwnership). Controller/Environment
-- has the trace of the calls that write and the answers they get, each of which may depend on all calls
-- before it; a function of the reconciler takes the trace so far and returns a longer one.
-- Bootstrap holds the reconciler of controllers/bootstrap: the values taken over from the Cluster
-- (Bootstrap/Defaults), the tokens of token.go (Bootstrap/Token: createToken is create_token,
-- refreshToken is refresh_token), the certificates and files of a worker (Bootstrap/Worker), the
-- cloud-configs (Bootstrap/CloudConfig), the Secret with the bootstrap data (Bootstrap/Store,
-- helpers.go), the rounds reconcileWorker and reconcileControlPlane (Bootstrap/Round:
-- reconcile_worker, reconcile_control_plane_config), Reconcile (Bootstrap/Dispatch:
-- reconcile_config) and the map functions (Bootstrap/Requests), the last two from controller.go.
-- Bootstrap/Services has what a round takes from other code. A round passes on the states of two
-- clusters, the management cluster's Secrets and the workload cluster's.
-- Remote holds internal/remote: the client of a cluster (Remote/Client), the tracker (Remote/Tracker:
-- Watch is watch, newClusterCache is new_cluster_cache, the clean-up that healthCheckCluster and
-- Reconcile share is clean_up), the health check (Remote/Checks), calls that do not overlap as a step
-- relation (Remote/Steps), and goroutines that interleave between the locks (Remote/Threads, where an
-- Act is one critical section and a Pc the place between two). Go maps with struct keys are functions there (Remote/Keys), and a cache
-- is a cell of a heap that the tracker's map points into.
-- Cloudinit holds what Write of internal/cloudinit prints, its templates as functions from the
-- configuration to the text (write, files_text, users_text).
-- Conversion holds the conversions of apis/bootstrap/v1alpha1 and apis/controlplane/v1alpha1, hand-written
-- and generated (Conversion/ToV1alpha2, Conversion/ToV1alpha1), over the records of Api/V1alpha1;
-- Conversion/Codec is what they take from crit.
-- Tests holds concrete machines, libraries and answers, and the theorems applied to them.
--
-- Conventions: a pointer is an option, a Go map is an association list and ranging over it follows the
-- list, times are instants, a nil dereference and an index out of range are the error `panic` where the
-- code could meet them. All loops are structural, so no fuel is needed. Counts of machines and nodes are
-- natural numbers: the code's int32 holds far more than any cluster has. Replicas is a natural number;
-- a negative one, at which the code panics, is outside the model.
--
-- In Remote/Threads each lock is taken and released by itself, a Watch holds watchesLock from its second
-- test to its return, and any number of goroutines run; in Remote/Steps and Remote/Stale a call is taken
-- from its locks to its return. A Secret that Create has accepted is read back as it was created: the
-- type that an API server fills in, and a client's cache that lags behind, are outside the model. Of a
-- worker's configuration only the fields are kept that the code reads or writes. When a conversion fails, what it has written into its target is left out, and a nil slice is an
-- empty list.
--
-- Not modelled: logs and events; the making of keys and X.509 certificates; generated deep copies,
-- which are the identity on values; the registration of types, conversions, webhooks and watches; the
-- goroutines that a cache starts besides its health check; the fake client of internal/remote/fake.
pub mod Prelude
pub mod Api
pub mod Machines
pub mod ControlPlane
pub mod Secret
pub mod Management
pub mod Remote
pub mod Cloudinit
pub mod Controller
pub mod Conversion
pub mod Bootstrap
pub mod Tests
