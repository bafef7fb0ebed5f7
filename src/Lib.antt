-- ===== src/Lib.antt =====
-- The KubeTraffic controller and its demonstration workload, as definitions and theorems.
--
-- A TrafficRoute passes the admission webhook, is reconciled by the controller, which resolves the
-- endpoints of its backends, registers it with the control plane, overrides the weights of its
-- versions with those the control plane returns, builds a routing model and applies the rendered
-- HAProxy configuration, and has its status written. The traffic goes to pods such as the sample
-- application.
--
-- Api: controller/api/v1alpha1/trafficroute_types.go, one record for each struct.
-- Webhook: controller/internal/webhook/v1alpha1/trafficroute_webhook.go. The loops carry the paths
--   or names seen so far, where the code has a set.
-- Discovery: controller/internal/discovery/resolver.go, over a cluster of fallible reads.
-- Model: controller/internal/model/model.go. Int32 values are integers, sums of them wrap.
-- ControlPlane: controller/internal/controlplane/client.go (the messages, the client, the
--   pass-through configuration), the messages of route.pb.go, and fake.go. Store is an abstract view
--   of the fake.
-- Proxy: controller/internal/proxy (the renderer, the data plane client, the fake) and
--   controller/hack/genconfig. Reading is no code of the repository: it reads a rendered text by
--   lines and words, as HAProxy does, and serves as the independent description of the renderer.
-- Controller: controller/internal/controller. An operation returns the calls that it makes, in
--   order, and the cache of configurations after it; `Env` holds the reconciler's settings and the
--   replies of the API server, of the control plane and of the data plane. Watches are the mappings
--   and `SetupWithManager`; Decisions is decision_watcher.go, as a run over connections and as steps
--   with the channel that main makes and the source that reads it.
-- Manager: controller/cmd/manager/main.go, from the flags to the wired parts or an exit.
-- SampleApp: demo/sample-app (main.go, and in internal config.go, fault.go, metrics.go,
--   handlers.go, server.go).
--   Handlers return the calls on their response writer; requests in flight and the two goroutines of
--   `Run` are step relations, so that every interleaving is covered.
-- Prelude: helpers for lists, bytes, maps, integers, decimals and sorting.
-- Tests: runs on concrete input, and the witnesses.
--
-- All loops are structural recursion over the lists they range over, so there is no fuel, except
-- that the decision watcher runs over the sequence of its connections.
--
-- Not modelled: flag parsing, the manager and its work queue, logging, the gRPC, HTTP and JSON
-- transports, net/http's multiplexer, floating-point arithmetic and SHA-256 (parameters), generated
-- code, the Java control plane, the console and the deployments.
pub mod Prelude
pub mod Api
pub mod Webhook
pub mod Discovery
pub mod Model
pub mod ControlPlane
pub mod Proxy
pub mod Controller
pub mod Manager
pub mod SampleApp
pub mod Tests
