-- ===== src/Lib.antt =====
-- bmc-secret-operator: a Kubernetes operator that copies the credentials of BMCSecret objects to a
-- secret backend (Vault), one entry for each BMC that refers to the secret.
--
-- The parts and the code they model:
--   Api            api/v1alpha1: the SecretBackendConfig and BMCSecretSyncStatus resources, and what
--                  is read of metal-operator's BMC and BMCSecret
--   PathBuilder    internal/secretbackend/pathbuilder.go: PathBuilder.Build; PathBuilder/Parser is
--                  text/template on texts and {{.Field}}
--   Interface      internal/secretbackend/interface.go: the interfaces as records of operations;
--                  Interface/Store says what the reconciler relies on of a backend
--   Vault          internal/secretbackend/vault: the backend (vault.go) and authentication (auth.go)
--   Backend        the values of the interface Backend: Vault, the stub of
--                  internal/secretbackend/openbao, and the two instrumented wrappers of factory.go
--   Config         internal/secretbackend/config.go: LoadConfigFromCRD and LoadConfigFromEnv
--   MultiEngine    internal/secretbackend/multi_engine.go: labels and engine backends
--   Factory        internal/secretbackend/factory.go: the cached configuration, backend, path builder
--                  and engines; Interleaving has calls of several workers, step by step
--   Resolver       internal/controller/bmcresolver: the BMCs of a secret, and their names
--   Reconciler     internal/controller/bmcsecret_controller.go: Sync has the two loops and
--                  needsUpdate, Status updateSyncStatus and setCondition, Deletion handleDeletion,
--                  Reconcile the run, Setup SetupWithManager and the mapping of BMC events
--   Metrics        internal/metrics/metrics.go: what is recorded, classifyError, and in Collector the
--                  vectors that NewCollector registers
--   ConfigReconciler  internal/controller/secretbackendconfig_controller.go
--   Main           cmd/main.go: what the flags make of the manager (Options), and the run of main
--   Mock           internal/controller/mock: the in-memory backend (Mock, Single) and the test factory
--                  with several engines (Engines, Multi)
--   Tests          the theorems at work on a small system
--
-- How the parts interact: the reconciler is given a client of the cluster, a factory, the operations
-- of the backends, an event recorder, perhaps metrics, and a clock (the record BmcSecretReconciler).
-- Each is a function of one state of the whole system, which its laws, where a theorem needs some,
-- describe. Factory.Release.methods and backend_methods fill these interfaces from the operator's own
-- factory and backends, and Metrics.for_reconciler and for_backends the metrics; Factory.Stores
-- relates these backends to the contract that the reconciler's proofs use, which they keep but for
-- the existence test at a path that itself contains the text "secret not found".
--
-- How code is translated: a method is a function of the state that returns its value and the new
-- state (Base.Effect); an error is a value of Result, with its text and whether it is a NotFound; a
-- nil pointer, map or interface is none. A Go map is an association list; where the test
-- factory ranges over one, the order is a parameter.
-- `attempt` is the call followed by `if err != nil`. The loops are structural recursion; the only
-- fuel is that of Base.Decimal, which prints n with fuel n + 1, more than n has digits. Times are
-- the readings of the clock, in seconds.
--
-- Not modelled: logging; contexts and their cancellation; the interleaving of several runs of the
-- reconcilers (that of the factory's methods is Factory.Interleaving); generated code and the
-- registration of types; the parsing of the command line. Kubernetes, controller-runtime, Vault and
-- Prometheus are parameters.
pub mod Base
pub mod Api
pub mod PathBuilder
pub mod Interface
pub mod Vault
pub mod Backend
pub mod Config
pub mod MultiEngine
pub mod Factory
pub mod Resolver
pub mod Reconciler
pub mod Metrics
pub mod ConfigReconciler
pub mod Main
pub mod Mock
pub mod Tests
