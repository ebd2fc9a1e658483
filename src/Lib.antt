-- ===== src/Lib.antt =====
-- infra-operator: a library of models and proofs about the operator's own logic.
--
-- The operator reconciles Kubernetes objects. Modelled here are four of its parts.
--
-- Addresses. An IPSet asks for an address in each of several networks. The controller
-- (internal/controller/network/ipset_controller.go) looks the networks up in the NetConfig
-- (apis/network/v1beta1/netconfig_types.go), keeps what the IPSet's Reservation holds and asks
-- AssignIP (internal/ipam/funcs.go) for the rest.
--   Netip        net/netip: addresses, their order, Next, the bytes that the program tests
--   Ipam         AssignIP: assign_ip, build_excluded, build_reserved, fixed_ip_exists,
--                iterate_for_assignment (its inner loop is search_range)
--   NetConfig    GetNet and GetNetAndSubnet: get_net, get_net_and_subnet
--   IpSet        ensureReservation: ensure_reservation, its loop add_networks, the deferred send
--   IpSet.Reconcile   reconcileNormal: its conditions and its result
--   IpSet.Deletion    reconcileDelete, and Reconcile's way to the handlers
--   Inet         Go's net: the blocks that the webhooks test addresses against
--   Admission    the webhooks of NetConfig and IPSet (netconfig_webhook.go, ipset_webhook.go and
--                common_webhook.go of apis/network/v1beta1): field paths, messages and shared checks
--   Admission.Names, Networks, NetConfigs   validateDNSDomain; the checks of a subnet; valiateNetworks,
--                valiateNetworksChanged and the handlers of NetConfigs
--   Admission.IpSets   validateIPSetNetwork, validateIPSetChanged and the handlers of IPSets; an index
--                out of range, a panic in Go, is none
-- The other modules below Admission hold proofs: Ranges, Unique, Kept, Changes, and Places, where the
-- webhook's checks meet the controller's loop.
--
-- RabbitMQ (apis/rabbitmq/v1beta1, internal/rabbitmq/cluster.go, internal/controller/rabbitmq).
--   RabbitMq.Versions   version.go, and RequiresStorageWipe
--   RabbitMq.Clusters   rabbitmq_webhook.go: Default, the checks, ValidateCreate and ValidateUpdate
--   RabbitMq.Users      rabbitmquser_webhook.go: the same for users, with the client's answers as a
--                       record; reading a nil pointer, a panic in Go, is the error nil_dereference
--   RabbitMq.Vhosts, Policies   rabbitmqvhost_webhook.go, rabbitmqpolicy_webhook.go
--   RabbitMq.Upgrade    rabbitmq_controller.go: the storage wipe's decision and phases, one pass of
--                       Reconcile (reconcile); the results of its calls are a record of answers
-- RabbitMq.Order, Defaults, UserRules, Wiping and Completing hold proofs; Steps of Wiping is the relation
-- of the states that passes and changes of the spec reach.
--
-- Messaging (internal/controller/rabbitmq): the controllers of RabbitMQ users, vhosts, policies and
-- TransportURLs, which share users and vhosts and hold them with finalizers.
--   Messaging             the objects
--   Messaging.Calls       the calls, their answers, and the libraries as a record of functions
--   Messaging.Programs    a handler is a tree of calls; it leaves with the object to be written and its
--                         outcome, and goes on for every answer. Obeys says that all paths keep to rules
--                         on calls and ends, given the history of calls and answers
--   Messaging.Readiness   helpers.go: get_management_url, get_tls_ca_cert, check_cluster_readiness
--   Messaging.Finalizers  TransportURLFinalizerFor, the canonical names (apis/rabbitmq/v1beta1)
--   Messaging.Creation    rabbitmquser_controller.go: reconcileNormal and Reconcile's two phases
--   Messaging.Release     rabbitmquser_controller.go: reconcileDelete, deleteOrphanedVhost
--   Messaging.Vhosts, Policies   rabbitmqvhost_controller.go, rabbitmqpolicy_controller.go
--   Messaging.Passes      Reconcile of these three, with the deferred patch
--   Messaging.Watches     the map functions of their watches
--   Messaging.Urls, Rotation, Legacy, Shared, Transport, TransportPasses   transporturl_controller.go: the
--                         Secret with the URL, the release of a rotated user, the objects of earlier
--                         releases, the two halves of reconcileNormal, reconcileDelete and Reconcile
-- Messaging.Rules has the rules for Obeys; Standing, Claims and VhostClaims say what handlers are held
-- to; Quiet, Protected, ReleasedVhosts, Released, VhostRelease, HeldVhosts and Rotated hold proofs. Conditions are kept
-- without their messages; a nil pointer that is read is the error nil_dereference. Every handler is a
-- finite tree, so every pass ends.
--
-- Remediation (internal/controller/remediation, apis/remediation/v1beta1). The PodRemediator deletes
-- volume claims stuck on a fenced node, in a transaction with their owner's consent: a ConfigMap
-- records the decision, a marker and a finalized token on the claim commit it.
--   Remediation.Objects   the objects' fields that are read; annotations.go
--   Remediation.Commit    deletion_commit.go: the record, its tests and its decoding
--   Remediation.Fencing   podremediator_controller.go, safety_helpers.go: nodes, volumes, SNRs
--   Remediation.Api       the requests to the API server, and the monad of programs that make them
--   Remediation.Calls     safety_helpers.go and the small steps of the other files
--   Remediation.Prepare   deletion_commit_prepare.go: marker and finalized token
--   Remediation.Delete    deletion_commit_prepare.go: deletePVCAndPods
--   Remediation.Resume    deletion_commit_resume.go: the cleanup of one claim
--   Remediation.Recover   deletion_commit_resume.go: all records, after a restart
--   Remediation.Scan      pvc_scan.go: one claim's step in the handshake
--   Remediation.Namespaces, Verdict, Reconcile   podremediator_controller.go: the namespaces, the
--                         conditions and intervals, reconcileNormal and reconcileDelete
-- The other modules below these hold proofs, named for what they are about, and tests; a cluster in
-- memory (Remediation.Cluster) carries the tests, with a whole deletion in Remediation.Scenario.
--
-- There too, a program is a tree of calls, which goes on for every answer of the API server, so that
-- other writers may act between any two calls; run runs it against a server (Env), a world and a function
-- that answers each request. Trace has the rules by which a statement on all calls, each behind the calls
-- and answers before it (Obeys), follows the program's text. Parsing and printing of addresses,
-- case folding, strings.Split and Atoi, the merge of label maps, SHA-256 and JSON are parameters as
-- well. A Go function that changes an object through a pointer returns the object; log lines are left
-- out, and the texts of wrapped errors are shortened. Go's nil maps are read as empty maps.
--
-- Fuel: search_range runs on steps_left, the number of addresses from the range's first to the end of
-- its family and a few more. Each round takes Next, which lowers that number; behind the family's last
-- address comes the zero address, where the loop returns if no set holds it. Ipam.Search shows this.
--
-- Not modelled: most of the controllers' wiring (set-up, field indexes, event predicates), the
-- other webhooks, the rest of the RabbitMQ cluster's controller, the Redis, Memcached, DNS, BGP and
-- InstanceHA controllers, which mostly build Kubernetes objects, and generated code.
pub mod Base
pub mod Netip
pub mod Ipam
pub mod NetConfig
pub mod IpSet
pub mod Inet
pub mod Admission
pub mod RabbitMq
pub mod Messaging
pub mod Remediation
