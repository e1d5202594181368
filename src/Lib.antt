-- ===== src/Lib.antt =====
-- A verification library for the provider example operator, a Kubernetes operator that connects a
-- database provider to the DBaaS operator.
--
-- The parts of the program and the modules that model them:
--
--   apis/dbaas/v1beta1              Api: the resources, with the fields that the code uses of the
--                                   metav1 and dbaas-operator types that they embed
--   apis/dbaas/v1beta1/zz_generated.deepcopy.go
--                                   DeepCopy: the forms that its functions have, over a memory of
--                                   cells; DeepCopy.Kinds: the functions
--   apis/dbaas/v1beta1/groupversion_info.go
--                                   Start.Scheme: the scheme and the init functions
--   controllers/dbaas/common.go     Api.Reasons: the condition types and reasons; SyncPeriod:
--                                   GetSyncPeriod is get_sync_period
--   controllers/dbaas/providerinventory_controller.go
--                                   Inventory: Reconcile is reconcile, updateInventoryStatus is
--                                   update_inventory_status; report and sync are the two ways on
--                                   from its calls of the provider
--   controllers/dbaas/providerconnection_controller.go
--                                   Connection: Reconcile is reconcile with choose, provision,
--                                   bind_connection and, for the repeated way out of a failed step,
--                                   abandon; getClusterInstance is get_cluster_instance;
--                                   Connection.Build: the objects and the conditions that it builds
--   controllers/dbaas/providerinstance_controller.go
--                                   Instance: Reconcile is reconcile with acquire, record_cluster,
--                                   settle and abandon
--   controllers/dbaas/dbaasprovider_reconciler.go
--                                   Registration: Reconcile is reconcile with register;
--                                   buildProviderSpec is Registration.Spec over Registration.Data;
--                                   the predicate on deployments is Registration.Deployments
--   controllers/dbaas/testutil/fakeproviderservice.go
--                                   Service: the interface that the controllers embed, a record of
--                                   operations that Inventory, Connection and Instance take as a
--                                   parameter; Service.Info: PopulateInstanceInfo; FakeService: the
--                                   implementation
--   controllers/dbaas/testutil/fakeclient.go
--                                   FakeClusters: the cloud that the implementation talks to;
--                                   FakeClusters.Steps: its clients and goroutines as a step
--                                   relation; FakeClusters.Steps.Draining: the goroutine that adds
--                                   on its own; FakeClusters.Steps.Bag: the list without the order
--   main.go                         Start: init, main and the SetupWithManager methods are init,
--                                   main, program and the setup functions; System: the controllers
--                                   over the implementation. A System.Jobs.Job is a request that a
--                                   controller takes from its queue. A SystemStep of
--                                   System.Backing.Invariant is a job, a step of the cloud or an
--                                   edit of a user; System.Backing.Amid lets the latter two come
--                                   between the calls of a job; System.Readiness: what comes of an
--                                   instance over time; System.Offering: how a connection gets to a
--                                   cluster of the cloud
--
-- The controllers read a custom resource from the API server, call the provider service, and write
-- the status of the resource, a secret or a config map back. The service changes the cloud, which
-- is a variable of the process: the world of the composed system is a pair of a world of the host
-- and a state of the cloud (FakeService.Extend).
--
-- The API server, apimachinery and controller-runtime are not part of the repository. Host is the
-- record of what is called of them, a parameter of every definition that calls it; Host.Server
-- states what their documentation promises, by observations of a world; Host.Memory is a host that
-- meets it, on which Examples evaluates the theorems. Service.Calm judges calls that do not
-- panic; the Replies modules carry that through the controllers. Registration.Registrar and
-- Registration.Once.Registry do the same for the calls of the registration controller.
-- System.Backing.KeepsInstances states what the server and the cache of the client, which may give
-- former versions, do to instances. Start.Toolkit lists what main calls of controller-runtime and
-- client-go, Start.Calls.Audit is a world that remembers those calls, and
-- Start.Known.Catalogue states what apimachinery promises of schemes.
--
-- Modelling choices. A call takes a world and returns a value or an error in the next world, or
-- panics (Base.Effect). The kind of Reply says whether a reconciliation asks for another round and
-- with which error. Log lines, contexts and HTTP responses are left out. Go maps are association
-- lists; a missing key reads as the empty text where the code reads it so. Times are texts. The
-- secret that an inventory refers to is a text and not an option, since config/crd/bases requires
-- it. The loops are structural recursion; the fuel of strconv.Itoa is one more than the number,
-- which has no more digits than that. A channel holds five values; a send on a full channel ends
-- once the goroutine has received. In System.Backing a call of a controller is one step, except that
-- CreateCluster judges the request and sends the cluster in two, and other steps come before each;
-- elsewhere in System a job runs by itself. In the step relation of
-- the cloud a creation may be judged by any earlier state of the list, and reading the list is one
-- step.
--
-- The resources are values, except in DeepCopy: there the maps, slices and pointers in a struct are
-- addresses, and DeepCopy.View says what can be read through a value and which cells it leads to.
-- The structs of other packages are DeepCopy.Structs there, with their own DeepCopyInto. An array
-- is one cell, so no two slices overlap, and the loop over the items writes its array at the end.
--
-- A duration is the bit pattern of its nanoseconds in 64 bits, read with a sign by Base.Int;
-- strconv.Atoi is Base.Decimal.Parse, for numbers that fit an int of 64 bits. The process exits
-- with the code 1 in every Exit; a panic of init is a panic of program.
--
-- Not modelled: how the flag package parses the command line, and the flags of zap; the set-up
-- of the test suite; the manifests under config and bundle.
pub mod Base
pub mod Api
pub mod DeepCopy
pub mod Host
pub mod SyncPeriod
pub mod Start
pub mod Service
pub mod FakeClusters
pub mod FakeService
pub mod Registration
pub mod System
pub mod Inventory
pub mod Connection
pub mod Instance
mod Examples
