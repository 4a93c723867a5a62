-- ===== src/Lib.antt =====
-- The Stroom operator: four controllers that reconcile DatabaseServer, StroomCluster,
-- DatabaseBackup and StroomTaskAutoscaler resources of a Kubernetes cluster.
--
-- How the parts interact. A StroomCluster names a DatabaseServer, or an external database, and
-- claims it; its controller creates the service account, the ConfigMaps, a StatefulSet with two
-- services for each node set, and the ingresses, and drains the nodes before it lets the cluster
-- go. The DatabaseServer's controller creates a MySQL instance and holds it back while the
-- cluster that claimed it exists. The autoscaler samples the CPU usage of the nodes' pods and
-- moves the task limit of each node in the cluster's database. A DatabaseBackup is a CronJob
-- against the database.
--
-- Which file models what:
--   Base      Go's texts, maps and sized integers, results with errors, and code that changes a
--             state (`M`), with `Keeps`, what an action leaves true.
--   Kube      the Kubernetes types that the operator reads or writes; `Env`, the calls of the API
--             server, of MySQL, of the clock and of the password generator, each of which finds a
--             world and leaves one; `Library`, the pure functions of apimachinery.
--   Api       api/v1: the resources, their names, labels and tests for emptiness.
--   Metrics   internal/controller/stroomtaskautoscaler.go.
--   Database  internal/controller/database_connection.go and database_connection_info.go.
--   Autoscaler  internal/controller/stroomtaskautoscaler_controller.go: Limit is the choice of a
--             new limit, Scale is scaleStroomNode, Reconcile is Reconcile, and Usage is
--             autoScaleStroomNodeTasks, which nothing calls.
--   DatabaseServer  internal/controller/databaseserver.go (Resources) and
--             databaseserver_controller.go (Reconcile). Names, Children and Secrets are about the
--             objects that they create, References about what these refer to, Reconcile.Repeat about
--             repeated calls.
--   Cluster   internal/controller/stroomcluster.go (Config, Environment, Volumes, Containers,
--             StatefulSet, Services, Ingresses) and stroomcluster_controller.go (Claim,
--             Finalizers, Tasks, Deletion, Pvcs, Files, Apply, Reconcile). Plan is the abstract view
--             of its child objects: the list of the objects that one call writes, in order, and
--             `Stores`, an API server that adds no defaults and on which only the operator acts.
--   Backup    internal/controller/databasebackup.go and databasebackup_controller.go.
--   Operator  the four controllers together: Calls lists the calls that they make; Cluster,
--             Children, Server, Scaler and Backup go through each controller's code for them;
--             Steps is the relation of calls of the controllers and of what others do in between.
--   Manager   cmd/main.go (Main) and the four SetupWithManager (Setup), over the calls of
--             controller-runtime's manager (Runtime).
-- Below a module of definitions stand the modules of theorems about it, named for what they prove.
--   Tests     a concrete client, and the theorems at it.
--
-- Conventions. A function keeps the name that it has in the code, in snake case. An object that
-- the code changes through a pointer is passed on as a value: `E.update` returns the object as the
-- server returns it, which replaces the caller's. A time is a number of nanoseconds since the zero
-- time, a duration an int64 of nanoseconds that wraps, and a quantity its text, whose value
-- `Library` gives. A Go map is an association list. Kubernetes values that the operator passes on
-- unread are their JSON text.
--
-- Fuel. `itoa` has one round for each unit of the number, which is more than it has digits. The
-- loop of `deletePvcs` has as many rounds as there are replicas to remove. The
-- repeated calls of DatabaseServer/Reconcile/Repeat have six rounds, one for each object that is
-- created and one for the status.
--
-- Not modelled: logging; the parsing of the command line and the logger's options in cmd/main.go;
-- generated code (zz_generated.deepcopy.go, groupversion_info.go); the scripts under
-- internal/controller/static_content, which are a parameter; the charts and manifests; the
-- types of lists and of statuses that nothing reads. The float64 arithmetic of
-- the CPU percentage is a parameter. The order in which Go ranges over a map is the association
-- list's.
pub mod Base
pub mod Kube
pub mod Api
pub mod Metrics
pub mod Database
pub mod Autoscaler
pub mod DatabaseServer
pub mod Cluster
pub mod Backup
pub mod Operator
pub mod Manager
pub mod Tests
