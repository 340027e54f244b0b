-- ===== src/Lib.antt =====
-- The logging operator: what it makes of the resources of a logging, and the side cars of tailed pods.
--
-- The parts and how they interact. The repository (pkg/resources/model/repository.go) collects the
-- resources that belong to a logging. The status reconciler (pkg/resources/model/reconciler.go) says
-- which of them are used and what is wrong with them. System creation (pkg/resources/model/system.go)
-- makes flows of the resources, with the filters and outputs of their plugins, and registers them at
-- a builder (pkg/sdk/logging/model/types/builder.go), which keeps the router's routes. The renderer
-- (pkg/sdk/logging/model/render/fluent.go) writes the system as a fluentd configuration. The
-- controller (controllers/logging) makes the configuration so and runs the reconcilers one after the
-- other; that of fluentd (pkg/resources/fluentd) checks the configuration by a pod before it rolls
-- it out, and drains the buffers of claims that are no longer used. Beside this, the pod webhook
-- (pkg/webhook/podhandler) reads an annotation (pkg/resources/annotation) and
-- adds side cars to the pod, whose paths come from pkg/resources/volumepath.
--
-- The files. Names follow the source: `CreateSystem` is `create_system`.
-- Base: strings as lists of code points, maps as association lists, sorting, decisions.
-- Directive: types.go of pkg/sdk/logging/model/types, with `NewCopyDirective`.
-- StringsMap and StringsMap/Fields: stringmaps.go there; a struct is the list of its fields.
-- Flow: flow.go there and the `FlowMatch` of router.go; Router: router.go and builder.go.
-- Resources: the resources of pkg/sdk/logging/api/v1beta1 and pkg/sdk/logging/plugins.
-- Input: forward.go of pkg/sdk/logging/model/input, with transport and security of common.
-- Output and the modules below it: pkg/sdk/logging/model/output, a module per file. Output/Kinds lists
-- the buffered outputs; Output/Defaults and Output/Disabled are proofs about their buffer sections.
-- Filter and the modules below it: pkg/sdk/logging/model/filter in the same way.
-- StringsMap/Tagged: fields with their tags.
-- System, System/Flows, System/Finish and System/Create: system.go; System/Logging: the `Logging`
-- resource. The other modules below System are proofs.
-- Render: fluent.go; the modules below it are proofs, and Render/Layout says what lines a configuration
-- has. Repository: repository.go. Status: reconciler.go. Mirror:
-- pkg/mirror/struct_iter.go. VolumePath, Annotation and PodHandler: the packages of these names, and
-- pkg/resources/kubetool for the volumes and mounts.
-- Drain, Drain/Claim and Drain/Reconcile: `reconcileDrain` of pkg/resources/fluentd/fluentd.go, with
-- drainjob.go, placeholderpod.go and dataprovider.go; a round of a claim is `drain_claim`. The other
-- modules below Drain are proofs, and Drain/Server says what the API server holds of a claim.
-- Fluentd/Reconcile: `Reconcile` of fluentd.go; Fluentd/ConfigCheck and Fluentd/Cleanup:
-- appconfigmap.go; Fluentd/Secrets: outputsecret.go; Fluentd/Trace: the requests and results of runs.
-- Controller/Reconcile and Controller/Mapper: controllers/logging/logging_controller.go. The other
-- modules below Fluentd and Controller are proofs. Examples: the theorems at concrete inputs.
--
-- State is passed explicitly: the builder is a record, a registration returns the builder after it
-- with its error, or says that a nil pointer was read. Errors are values; a list of faults stands
-- for the errors that the code appends. A pointer that may be nil is an option.
--
-- Runs that talk to the cluster are values: the list of requests in order, and how the run ended. What
-- the cluster answers is a function of the request, so that theorems hold for all answers.
--
-- Parameters: MD5, `encoding/json`, the client of the API server, the secrets, the plugins of filters
-- and outputs, the lower case of characters above ASCII, and the arguments that the version of
-- fluent-bit asks for; of the reconcilers, the answers of the API server and of `ReconcileResource`, the
-- combination of results and errors, the hash of a configuration, the volumes that extra volumes add,
-- and how the other reconcilers end. Where a theorem assumes something of them, it is one of its
-- hypotheses: that requests succeed and have their documented effect, that a job is gone some time
-- after its deletion was asked for, that extra volumes are added behind, that the reconciler of fluentd holds the pointer it is given.
--
-- Bounds and fuel: numbers are unbounded, as no arithmetic of these parts depends on their width.
-- Loops are structural; a number has at most as many digits as its value plus one, and the loop
-- over an iterator is given one step more than there are fields, which is enough.
--
-- Not modelled: the contents of the Kubernetes objects that reconcilers make, fluent-bit and the node
-- agents, the controllers of extensions, which construct workloads and call the Kubernetes API; the
-- filter parser, and the outputs s3, loki, logz, newrelic, splunk_hec and
-- aws_elasticsearch; generated deep copies; log messages; the decoding of admission requests; command
-- line tools, charts, images and tests. In System the plugins of resources are parameters.
pub mod Base
pub mod Controller
pub mod Directive
pub mod Drain
pub mod StringsMap
pub mod Flow
pub mod Fluentd
pub mod Router
pub mod Resources
pub mod Input
pub mod Output
pub mod Filter
pub mod System
pub mod Render
pub mod Repository
pub mod Mirror
pub mod Status
pub mod VolumePath
pub mod Annotation
pub mod PodHandler
pub mod Examples
