-- ===== src/Lib.antt =====
-- The Cloud Scheduler source for Knative: a controller that keeps, for each CloudSchedulerSource
-- resource, a Cloud Scheduler job and a receive adapter that forwards its calls to a sink.
--
-- The parts of the program and the files that model them:
-- - Api and its children: the resource (pkg/apis/cloudschedulersource/v1alpha1/types.go, register.go)
--   and the library types that it is made of, by the fields that the code reads or writes.
-- - DeepCopy: the generated copies (zz_generated.deepcopy.go), on values, which is how Reconciler uses
--   them, and with pointers on a memory of cells (Memory), where Independence tells copy from original.
-- - Lister: the lister of the informer's cache (pkg/client/listers/cloudschedulersource/v1alpha1);
--   Listing is its List.
-- - Reconciler: pkg/reconciler/cloudschedulersource. Sinks is sinks.go; Services is
--   resources/service.go with reconcileService; Finalizers, Jobs, Updates and Loop are the methods
--   of cloudschedulersource.go: addFinalizer and removeFinalizer, createJobProto, reconcileJob and
--   deleteJob (`remove_job`), update, reconcileCloudSchedulerSource and Reconcile. Controller is
--   NewController: Wiring follows the informer from the factory to the lister and the handlers, and
--   Events a change in the cluster to the Reconcile of a source. Lifecycle is a source from its
--   creation to its end: the object that the API server stores, and the moves of users, of the
--   server and of Reconcile.
-- - Adapter: the receive adapter's handler, pkg/receiveadapter/receiveadapter.go, with its own
--   parameters `Web` and `Network`; Delivery counts what it posts.
-- - Commands: cmd/receiveadapter/main.go, cmd/controller/main.go and the sample programs
--   cmd/eventdumper/dumper.go and cmd/filter/filter.go (Samples). The arguments that the service
--   of Reconciler.Services carries are those that Commands.ReceiveAdapter reads.
--   Controller.Goroutines is cmd/controller from its first go statement on: `take` (Turns) is a
--   turn of a goroutine, of a cache that fills, or of the signal, on the state of the factory of
--   Informers that NewController has used. Sound and Orderly are about an invariant, Progress about
--   what remains possible. Its rules for what is vendored: a cache fills only once its informer
--   runs and not after the signal, the wait for it ends by that or by the signal, and a controller's
--   Run returns without an error only after the signal.
-- - Informers: the shared informer factory, pkg/client/informers/externalversions (factory.go,
--   generic.go and the directory cloudschedulersource). Shared, Starting and Running are about its
--   methods, Sources is the informer of the resource.
-- - Client: pkg/client/clientset/versioned. Client itself is the typed client, whose requests Routes
--   reads as a server does; Configs is the clientset with both NewForConfig; Schemes is the
--   registration of the types (scheme/register.go, addKnownTypes). Fake is the test double of the
--   typed client and Fake.Clientsets that of the clientset (fake/clientset_generated.go), whose
--   tracker of objects is vendored; Gets follows an object from NewSimpleClientset to the client.
-- - Delivery joins the parts: from the Reconcile of a source that has its service and no job yet to
--   the event that its sink is posted.
--
-- What the code calls and does not implement is a parameter. `Platform.Vendor` holds the vendored
-- functions that only compute, such as the sets of texts, the classification of errors and semantic
-- equality. `Platform.Env` holds the services: the informer's cache, the dynamic client, the service
-- client, Cloud Scheduler and the client of our own resource. Each of its answers is any function of
-- the calls made before, so that other clients, failures and chance are covered. A method of the
-- program is a function from a history of calls to its result and the longer history (`Run`); one
-- that also changes the object behind a pointer keeps that object beside the history (`Work`).
-- Laws of the parameters are records: `AreSets`, `IsSemantic`, `IsFaithful` (Cloud Scheduler
-- answers from the jobs that the answered calls have left, and a failed call has no effect),
-- `IsSteady` (the cache keeps objects under their keys, and nobody moves a source to another
-- project or location), `IsWorking` (no call about one source fails, and its sink, service and
-- job are in order), `Deploys` (the service was created earlier for the same sink, and the server
-- kept its containers), `Answers`, `Serves` and `Refuses` (the API server: the cache has what is
-- stored, and updates are accepted, or refused only where the source has the finalizer, or
-- refused), `IsPlaced` (a source stays under its name, project and location), `IsKeyed` (the cache keeps a source under its own
-- namespace and name), `Registers` and `Tracks` (schemes, and the object tracker of tests).
-- Theorems name the laws that they need, and Tests has a cluster that meets them.
--
-- Loops: those over maps and lists, in the informer factory, the listers, the copies and the fake
-- client, are structural recursions on lists, so that no fuel is needed. `Reached` is the sequence
-- of calls of Reconcile that the work queue makes, one at a time. Reconciler.Loop.Workers is two
-- calls at once: `Interleaving` merges their histories in any order. Loop.Permits says which calls a
-- Reconcile can make at all, for Loop.Events (about which jobs) and Loop.Isolation (of whose objects).
-- Loop.Refusals is about a removal that Cloud Scheduler does not make.
--
-- Not modelled: logging and metrics; the work queue between an event and Reconcile, which is
-- vendored like everything under vendor; and the exit by a second signal.
pub mod Base
pub mod Api
pub mod Platform
pub mod DeepCopy
pub mod Lister
pub mod Reconciler
pub mod Adapter
pub mod Commands
pub mod Informers
pub mod Client
pub mod Delivery
mod Tests
