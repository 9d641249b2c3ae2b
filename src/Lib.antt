-- ===== src/Lib.antt =====
-- A model of the session management function of a 5G core (github.com/omec-project/smf).
--
-- The parts and how they interact. A request on a PDU session becomes a transaction
-- (transaction/transaction.go), whose stages (fsm/txnFsm.go) find or make the session's context, wait
-- on the context's bus behind the transaction that is active, and hand the request to the context's
-- state machine (fsm/handler.go). The state machine calls the procedures of the package producer,
-- which take a UE address from a pool (context/ip_allocator.go), look for a path through the user plane
-- (context/user_plane_information.go), make a data path of it (context/datapath.go) whose rules are
-- drawn from the UPFs (context/upf.go) and sent to them in PFCP transactions (pfcp/udp), and build the
-- QoS rules, the QoS flow descriptions and the update of the session's policy data (package qos).
--
-- The files.
--   Base      shared names: Boolean tests, lists, signed numbers, bytes, texts, maps, outcomes
--   GoStd     what the code uses of Go's library: strconv.Atoi, strings.Split and Fields, parts of net
--   Ipam      context/ip_allocator.go. Addr: maskBits, IPAddrWithOffset, IPAddrOffset. Pool: _IDPool.
--             Allocator: IPAllocator. History: calls in any order. The other children hold proofs.
--   Fsm       fsm/handler.go. Handlers: the table, the handlers and HandleEvent. Edges: the diagram.
--   Txn       transaction/transaction.go and fsm/txnFsm.go. Types: transactions, the bus, the contexts
--             and their pools. Handlers: the stages, NewSMContext, GetSMContext and RemoveSMContext of
--             context/sm_context.go, HandlePduSessionContextReplacement of producer/pdu_session.go.
--             LifeCycle: StartTxnLifeCycle. Bus, Rounds, Drain and Requests hold proofs.
--   Qos       FlowDesc, Filters, Rules and Encode: qos/qos_rule.go. FlowTypes and Flows:
--             qos/qos_flow.go. Changes and Policy: qos/pcc_rule.go, qos/session_rule.go,
--             qos/traffic_control_data.go, qos/smPolicyData.go. BitRates: util/qos_convert.go. Wire and
--             FlowWire: decoders of the IEs.
--             RoundTrip, FilterLengths, FlowLengths, PolicyLaws and Decisions hold proofs.
--   Topo      context/user_plane_information.go. Types: nodes and slices (context/snssai.go). Search:
--             getPathBetween. Select: selectMatchUPF, GenerateDefaultPath and the cache of default
--             paths. NodeIds: context/nodeid.go and the pool of UPFs of context/upf.go. Nodes and
--             Links: changes of nodes and links. Plane: NewUserPlaneInformation and the look-ups. Routes,
--             Fuel, Paths, NodeLaws, LinkLaws, Relink and Changes hold proofs.
--   Upf       context/upf.go. Ids: the interface of the id generator. Types: the parts of rules, of
--             context/pfcp_rules.go and the small files beside it. Rules: PDRs, FARs, BARs and QERs.
--             Interfaces: N3 and N9 interfaces, DNNs. RuleLaws, Tracking and Leaks hold proofs.
--   Paths     context/datapath.go. Nodes: data path nodes and GenerateDataPath. Tunnels: the deactivation
--             of a path. Steps: the state and the loops of an activation. Rates and Qers: the QERs of
--             PCC rules, session rules and dedicated flows. Install: validateDataPathUpfStatus, the local
--             SEIDs of context/sm_context.go, ActivateUpLinkTunnel and ActivateDownLinkTunnel. Forward:
--             ActivateUpLinkPdr. Downlink: ActivateDlLinkPdr. Activate: ActivateTunnelAndPDR. PreConfig:
--             context/ue_datapath.go. Branching: context/bp_manager.go. Chains, Teardown, Prefixes,
--             Passes, Kept, Untouched, Aimed, Activation, Connected, Uplink, Refused and Unmade hold
--             proofs.
--   Pfcp      pfcp/udp. Transactions: transaction.go and the message types. Server: the tables, the life
--             cycle and readPfcpMessage of udp.go. Messages and Requests: pfcp/message/build.go. Sending:
--             producer/datapath.go. Rounds, Tables, LifeCycle, Closed, Established, Returns, Sessions
--             and Repeats hold proofs.
--   Session   context/sm_context.go: isAllowedPDUSessionType. Grants holds proofs.
--   Config    factory/config.go. Compare: the comparison of two configurations. Differences holds proofs.
--   Examples  tests on concrete data.
--
-- How code becomes definitions. A function that may fail returns an Outcome: ok, err (an error, its
-- text dropped) or panic. A method that changes its receiver returns the new value. Go's integers are
-- signed numbers, cut to the width where the code converts to uint8 or uint16; that an int or an int64
-- wraps around is not modelled. Bytes are natural numbers. A string is the list of its bytes. A map is an association list, a map's iteration runs
-- over that list from the front, so a statement about every list covers every order of iteration. A
-- sync.Map that is only loaded from, stored to and deleted from is the function that Load is, or the
-- set of its keys. A nil pointer is none; other pointers are places on a heap, a function of the place.
--
-- Bounds and fuel. maskBits takes eight rounds per byte at most, and has as many. The life cycle of a
-- transaction runs on fuel, which is to exceed the cost of the transaction and of its bus: the rounds of
-- every queued transaction, and those of the one that a PFCP session may put on the bus.
-- The search for a path has its depth as fuel, one more than the nodes there are. The loops over a data
-- path have one unit for each round, and a fuel above the number of nodes is enough.
-- The decoder of the QoS rules IE runs on fuel above the number of rules.
--
-- Parameters. The procedures of the producer: whether each call of the state machine succeeds, the
-- state it leaves, and whether metrics are published. What the database holds. The value that
-- strconv.ParseFloat gives for a bit rate, as a uint16. Go's equality of models.FlowInformation. The
-- generator of ids of the package idgenerator, with laws for Allocate and FreeID. What net.ParseIP,
-- IP.String and the host look-up answer, and each new uuid. How each round of a PFCP
-- transaction goes: whether the write fails, which event comes, or whether the timer runs out first.
-- What net.ResolveIPAddr answers, the SEIDs drawn where the database is used, and the text of
-- models.FlowStatus_DISABLED.
--
-- Not modelled: locks (each operation is one step, and interleavings are sequences of stages), clocks,
-- logs and metrics; IPv6 text in net.ParseIP; a sent PFCP message that
-- does not parse again, for which startTxLifeCycle calls no error handler; the procedures, but for the parts named above;
-- the encoding of PFCP messages, which the go-pfcp library does, and the handlers of those received;
-- NAS and NGAP messages; the reading and the processing of a configuration; the HTTP servers and clients.
pub mod Base
pub mod GoStd
pub mod Ipam
pub mod Fsm
pub mod Txn
pub mod Qos
pub mod Topo
pub mod Upf
pub mod Paths
pub mod Pfcp
pub mod Session
pub mod Config
pub mod Examples
