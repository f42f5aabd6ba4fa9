-- ===== src/Lib.antt =====
-- yass-simulator: a simulator of satellite networks on Kubernetes. An operator turns the resources of
-- an experiment into pods; in each node's pod a world-controller shapes the traffic to the other
-- nodes by the parameters that the experiment-executor computes from the orbits, and injects
-- hardware events; a metrics-bridge joins what the nodes publish into metrics.
--
-- What is modelled, file by file. A function of the model has the name of the function of the source,
-- with words divided by underscores; the helpers with other names are the branches of one function.
--
-- MetricsBridge/Tracker: `Tracker` of internal-components/metrics-bridge/internal/state/state.go.
--   A PUT is pending until it is too old or too many are pending; receipts are joined with it by
--   md5sum or by name. The maps of Go are association lists whose keys are distinct where that
--   matters, instants are integers, and the mutex makes each method one step.
-- MetricsBridge/IpMap: `IPMap` and `TrimPort` of the same file.
-- MetricsBridge/Bridge: `onCrudEvent` and `Sweep` of
--   internal-components/metrics-bridge/internal/bridge/bridge.go, over the tracker and the addresses.
--   What they count and push is a list.
-- WorldController/Networking: `Handler` of
--   internal-components/world-controller/internal/networking. Param has the link parameters, Overlay
--   the effect of a fault on them, Minors the numbers of the traffic classes, Netlink the requests to
--   the kernel, Profile the rules of one peer, Handler the whole state and its methods. `Update`
--   walks the parameters and then the peers that are out of view; `ApplyFaultOverlay` installs the
--   rules of all peers again.
-- WorldController/HwEvents: `Manager` of
--   internal-components/world-controller/internal/hwevents/hwevents.go. Event has the events of
--   yass-operator/api/v1/hardware_event_types.go and when they fire, Manager the state and the
--   effects, Tick one round of the scheduler. The manager asks the handler of Networking for an
--   overlay; here this is a field of its state with the last arguments of the call.
-- WorldController/Battery: `NodeHwState` of internal-components/world-controller/internal/hw/hw.go,
--   the level of the battery from the time and from the bytes that the traffic statistics report.
-- WorldController/Verdict: `agentVerdict` and the task that stores it
--   (internal-components/world-controller/main.go). Final lets it run beside the node controller of
--   Operator/Node, one step after the other.
-- Executor/Completion: `loadCompletionTerminators` and `recordCrudForCompletion` of
--   internal-components/experiment-executor/internal/app.go: the experiment is a success once a
--   ground station has received the files that its rule asks for.
-- Operator/Experiment: `Reconciler` of
--   yass-operator/internal/controller/experiment/experiment_controller.go. One call of Reconcile is a
--   function of the experiment and of the answers of the cluster (Cluster). Conditions has the
--   conditions and the state, Components the objects that are created, Run the states of a run,
--   Eviction what is deleted after a run, Reconcile the whole call, Deletion the cleanup. Run/Moves
--   has the changes of the state as a step relation. Operator/Phase has the phases of a node.
-- Operator/Node: `FsNodeReconciler` of
--   yass-operator/internal/controller/fs_node/fs_node_controller.go, in the same way: the pod and the
--   service of a node, its conditions and its phase.
-- Operator/Webhook: the admission of layouts, nodes and experiments, yass-operator/internal/webhook/v1.
--   Namespaces states what the API server does with the experiments of a namespace as steps.
-- Mqtt2Prom: internal-components/mqtt2prom. Labels has the labels and their text form, Histogram the
--   store of histogram.go, Collector the handlers of the messages. Texts are lists of bytes.
-- Base: tests, lists, maps, integers with the wrap-around of Go, and floating point numbers.
-- Tests: the results at concrete inputs.
--
-- Parameters of the model: the kernel behind netlink (it may refuse any request, and answers from
-- the requests so far), net.ParseIP and the methods of net.IP, time.ParseDuration,
-- Duration.Seconds, strings.ToLower, strings.TrimSpace, strconv.Atoi, strconv.Itoa, time.Format,
-- time.Parse, AllMatch of goutils, the Kubernetes API behind the client (its answers to one
-- call), the vectors and the registry of the Prometheus client, the regular expressions of the
-- webhooks, the source of random numbers, and the floating point numbers. No law is assumed of
-- them but what a theorem names.
--
-- Bounds and fuel: the loop of getCID has 260 units of fuel; from 0 it makes 256 rounds to the first
-- minor, and from a reserved minor one. Integers of Go that the code computes with (int64, int32,
-- uint16) wrap as they do there. Instants are not bounded.
--
-- Of the experiment that the API server holds, the annotations are modelled; the next call reads them
-- again. The list that the webhook gets comes from a cache that may be behind. A process of the
-- world-controller may be followed by another one, that knows nothing of the verdict stored before.
--
-- Not modelled: logs, the text of errors, the stop watches, the statistics of the network
-- interface, the mount commands of the disk faults, and the order in which Go walks a map: the
-- model walks it in the order of insertion; what an Update of the Kubernetes API writes back into
-- the object in memory, the finalizers and the namespace that ends, the contents of the pods and
-- services that the operator creates, the decoding of messages, the scrape by Prometheus. A
-- failure of an effect of a hardware event is only logged by the source, so the model lists the
-- effect and not its outcome.
pub mod Base
pub mod Executor
pub mod MetricsBridge
pub mod Mqtt2Prom
pub mod Operator
pub mod Tests
pub mod WorldController
