-- ===== src/Lib.antt =====
-- A model of the operator toolkit: the graph of operands and its order of execution, the executor,
-- the composite operator, the reconcilers, the admission webhooks and their certificates, the
-- RBAC recorder, the informer cache and the declarative builder.
--
-- How the parts interact: `NewCompositeOperator` builds the graph of the operands' requirements and
-- reads an order of steps off it; `Ensure` and `Cleanup` give the order, or its reverse, to the
-- executor, which calls the operands of each step through `CallEnsure` or `CallCleanup`. The composite
-- reconciler calls such an operator as its `Operate` and `Cleanup`, and keeps the object's status and
-- finalizer. The sync reconcilers, the stateless action reconciler, the webhooks and the clients use
-- the queries on objects and lists.
--
-- Which file models which part:
-- - Prelude: Boolean tests, results, lists and dictionaries.
-- - Dag: operator/v1/dag/dag.go, `solve` and its helpers. The library's graph is the record `Graph`,
--   with the laws `IsGraph`; a vertex is its ID, and the map `order` an association list (`Steps`).
--   Dag/View reads a round as a pure function, Dag/Placed and Dag/Solve have the invariants of the
--   loop, Dag/Schedule, Dag/Bounds and Dag/Levels the theorems, Dag/Build `NewOperandDAG` and `Order`
--   over the library `DagLib` with the laws `IsDagLib`, and Dag/Listed and Dag/Build/Library a
--   concrete graph and library.
-- - Operand: operator/v1/operand/operand.go and order.go. The event and the error of a call are the
--   fields of `Reply`; `Errors` is what the program takes from its error values.
-- - Executor: operator/v1/executor/executor.go. A goroutine is a `Thread` whose `Phase` says where it
--   stands; `run_schedule` interleaves the moves as a list of indices says, and `wait` is `wg.Wait()`.
--   Executor/Threads and Executor/Accounts count what the moves do, Executor/Serial and
--   Executor/Concurrent show that both strategies keep one contract, `Stepped`, and Executor/Gate
--   takes it from the step to the order.
-- - Operator: operator/v1/composite_operator.go and operate.go. Operator/Built follows
--   `NewCompositeOperator` from the options to the order.
-- - Object: object/object.go, and object/list.go in Object/Names.
-- - Composite: controller/composite/v1/reconcile.go. The methods of the controller and the client's
--   writes are the fields of `Env`, and a run notes the calls with an effect. Composite/Init has
--   composite.go, and Sync/Init and Action/Init the options of the other reconcilers.
-- - Sync: controller/sync/v1, controller/external-object-sync/v1 and controller/metadata-sync/v1.
-- - Action: controller/stateless-action/v1/reconcile.go.
-- - Admission: webhook/admission and webhook/function.
-- - Lookups: singleton/singleton.go and client/composite/client.go.
-- - Rbac: rbac/client, its calls, its record and `reorderRules`; Rbac/Keys and Rbac/Permits tell groups and
--   resources apart by their joined names, and Rbac/Output has `Result`.
-- - Discovery: discovery/cluster/cluster.go.
-- - Cert: internal/webhook/cert/writer, the secret writer's `EnsureCert`. Cert/Provision has
--   internal/webhook/cert/provisioner.go and Cert/Manager webhook/cert/manager.go. Cert/Stored takes
--   the secret through a call, Cert/Replaced a secret that cannot be read, Cert/Provision/Injected the webhooks' bundles, Cert/Manager/Refreshed
--   the configurations, Cert/Manager/Disk the files of the host, and Cert/Manager/Host puts the
--   manager on the secret writer.
-- - Informers: cache/informer/informersmap.go, with the key of cache_reader.go and the start of
--   informer_cache.go. A section under the lock is one move; `Step` and `Reach` interleave the calls of
--   `Get` with the start; Informers/Once and Informers/Held have the invariants, and Informers/Shared
--   what they say of the calls.
-- - Kustomization: declarative/kustomize/mutate.go. Declarative: declarative/transform/transform.go,
--   declarative/loader/filesystem.go and, in Declarative/Builder, declarative/builder.go and
--   declarative/kustomize/kustomize.go. A file system, with
--   the laws `IsFileSystem` on cleaned paths, kustomize's loader and its run are parameters;
--   Declarative/Transformed and Declarative/Copied read the files after each step, and
--   Declarative/Builder/Built after all of them. Declarative/Owners sets the owner references.
-- The modules named Samples hold concrete inputs, tests and the theorems' instances.
--
-- Fuel: the loop of `solve` ends for some graphs only, so `solve_loop` takes a number of rounds, and
-- `none` says that it has not ended. A bound on the ranks of the vertices is enough on a graph
-- without cycles. The retry loop of `RunAction` reads the choices of its `select` from a list; all
-- other loops are structural. Numbers are natural numbers: the steps count the rounds and cannot be
-- negative, and a period in nanoseconds is compared with zero, added up in the times of calls, and passed on.
--
-- Not modelled: telemetry, logging and events' contents; the libraries that the code calls, which
-- are parameters; the generator of internal/webhook/cert, internal/pkiutil, the defaults of
-- webhook/cert's options, declarative/applier, deleter and loader.go, the field indexes of cache/,
-- source/, runnable/, predicate/ and webhook/builder; the mocks, the generated code and the examples.
-- Where two goroutines act on the world, each operand's call is one move.
pub mod Action
pub mod Admission
pub mod Cert
pub mod Composite
pub mod Dag
pub mod Declarative
pub mod Discovery
pub mod Executor
pub mod Informers
pub mod Kustomization
pub mod Lookups
pub mod Object
pub mod Operand
pub mod Operator
pub mod Prelude
pub mod Rbac
pub mod Sync
