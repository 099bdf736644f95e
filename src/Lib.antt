-- ===== src/Lib.antt =====
-- The Konflux operator: what it applies, deletes, reports and watches in a cluster.
--
-- The operator (operator/) installs Konflux from a custom resource. Each reconcile applies manifests
-- through a tracking client, deletes what it applied once but not this time, and writes the state of
-- the deployments and of the sub-resources into status conditions; for the metrics of an operand it
-- keeps a scrape token and applies the ServiceMonitor that uses it.
--
-- Files and what they model:
-- - Prelude and its modules: shared lists, texts, maps, equality, error results, and `Exec`, a state
--   that survives an error.
-- - Cluster: Kubernetes objects, the requests to the API server, and the record `Api` of its answers,
--   each of which may depend on all the requests sent before.
-- - Tracking: operator/pkg/tracking/tracking.go and IsCustomResourceDefinition of
--   operator/pkg/kubernetes/crd.go. Tracking/Defs has the client with its tracked keys and the
--   operations SetOwnership, ApplyObject, ApplyOwned, Patch, Create, Update, CreateOrUpdate and track;
--   Tracking/Apply what they leave behind. Tracking/Cleanup has CleanupOrphans: a goroutine for each
--   kind, one request and what follows it per step, and a schedule that says whose turn it is, so that
--   every interleaving is one schedule. Its modules Safety and Complete are about what is
--   deleted and what is gone when all have returned. No fuel is needed: a goroutine takes one step for its
--   List call, one for each item, and one to return. The mutex and the wait of the errgroup are not modelled.
-- - Condition: operator/internal/condition/condition.go and constants.go. Condition/Defs has the
--   operations and Condition/Defs/Data what they work on; Laws says what SetStatusCondition and FindStatusCondition of k8s.io/apimachinery are
--   relied on for (the record IsStatusApi); Deployments and SubResources are about a resource's own
--   deployments and its sub-resources.
-- - Scrape: the scrape token and its ServiceMonitor. Token, Ensure and Minting are about
--   operator/pkg/kubernetes/scrape_token.go; Resync and Settle about
--   operator/pkg/kubernetes/servicemonitor_resync.go and planServiceMonitorResync; Reconcile and Order
--   about operator/pkg/kubernetes/metrics_tls.go and operator/internal/common/scrape_token.go;
--   Freshness about the refresh of a token; Resources about operator/pkg/kubernetes/component_metrics.go. Times are natural numbers of nanoseconds, so that all
--   times lie after one epoch; RFC 3339 is the record Clock. What is called (the API server, the token
--   request, the apply functions, crypto/x509) answers through the record Env.
-- - Konflux: operator/internal/controller/konflux/konflux_controller.go with
--   operator/internal/condition/reconcile_error.go and the flags of operator/api/v1alpha1/konflux_types.go.
--   Defs has the sub-resources in the order of the source and the fixed tables, Reconcile the whole of
--   Reconcile and checkCertManagerAvailability; Ready is about what is reported, Deletes about what may be
--   deleted, Sweeps about what has been, Orders about the two orders of the source. It uses the tracking client, its cleanup under a schedule, and the conditions.
-- - Predicate: operator/internal/predicate/predicate.go, the filters of update events.
-- - Segment: operator/pkg/segment/segment.go, the write key.
-- - HashedConfigMap: operator/pkg/hashedconfigmap/hashedconfigmap.go, with SHA-256 and the calls as the
--   record HashApi.
-- - Component: the plain controllers under operator/internal/controller. Defs has what their Reconcile
--   functions share, Manifests applyManifests, Controllers the values for applicationapi, rbac, cli,
--   certmanager and enterprisecontract, DefaultTenant that of defaulttenant; Parts takes the six
--   together. Steps and Tracked are about the session, Deletes, Sweeps and Ready about what a
--   reconcile deletes, has deleted and reports.
-- - Customization: operator/pkg/customization. Container has the options of container.go, Overlay those
--   of pod.go, Merge the merge into a pod; Keyed the loops that replace or append, Laws and Pods what
--   becomes of containers and pods.
-- - Overrides: operator/pkg/overrides/overrides.go. Cuts has where a text is cut, Images the image references
--   and the images of a kustomization, Repos the repositories and git rules, Validate the validation;
--   References and Accepted are about the reading of references and about what is accepted. The walk
--   over files, YAML and kustomize are not modelled; strings.ToLower, %q and local paths are parameters.
-- - ClusterInfo: operator/pkg/clusterinfo/clusterinfo.go, with the discovery client as a parameter.
-- - Ingress: operator/pkg/ingress/ingress.go, and reconcileIngress of
--   operator/internal/controller/ui/konfluxui_controller.go. Hosts has Hostname and Port of net/url, Defs the
--   endpoint and the Ingress, Managed what is applied; Endpoint is about the resolution order and
--   Agreement about the Ingress and the endpoint together. The cluster's domain is a parameter: the answer
--   of the Get call.
-- - Watches: operator/internal/controller/handler/handler.go, with the object store of
--   operator/pkg/manifests/manifests.go as a map from components to objects.
-- - Oauth2Proxy: operator/pkg/oauth2proxy/config.go over the options of Customization, with
--   buildOAuth2ProxyOptions and isOpenShiftLoginEnabled of the KonfluxUI controller.
-- The modules named Tests hold small clusters, resources and clocks at which the theorems are applied.
--
-- How the parts interact: the controllers apply each object through the tracking client and then
-- let it clean up, so that the safety of the cleanup rests on what the applies tracked; the scrape token is
-- applied through the same client, which is why the ServiceMonitor is applied again while its
-- certificate is not ready; the conditions are written last, from what the cluster then says.
--
-- Not modelled: logging, contexts and cancellation by deadline (an answer may be any error at any
-- time), the encoding of objects as JSON, the embedded manifests, and the start of the manager.
-- A label selector is text. Errors keep the class that the callers test for and their text.
pub mod Prelude
pub mod Cluster
pub mod Tracking
pub mod Condition
pub mod Scrape
pub mod Konflux
pub mod Predicate
pub mod Segment
pub mod HashedConfigMap
pub mod Component
pub mod Customization
pub mod Overrides
pub mod ClusterInfo
pub mod Ingress
pub mod Watches
pub mod Oauth2Proxy
