-- ===== src/Lib.antt =====
-- netSoldier: what decides on, records, applies and lifts the enforcement of a home network, and what
-- is proved about it.
--
-- The program. The threat-intelligence sync (apps/threat-intel-sync) collects indicators and exports
-- them. The detection engine (apps/detection-engine) matches them against the query log of the DNS
-- server and against sensors, gates the alerts by analysts' verdicts, correlates them by device, and
-- posts detection events (libs/events) to the killswitch controller (apps/killswitch-controller). Its handlers (cmd/killswitch-controller/main.go) ask the policy
-- (internal/policy) for a decision, create an action in the store (internal/actions), and drive an
-- enforcement driver (internal/drivers). An operator approves, rejects and reverts actions; a loop
-- reverts those whose time has run out. Two lists protect devices: the allowlist, which the policy
-- reads, and the target guard, which the drivers read.
--
-- The files.
-- - Prelude: names of the libraries, Boolean tests, lists, and what the program uses of Go's strings
--   and strconv, maps (association lists) and 64-bit integers.
-- - Events: libs/events. Action is enforcement.go, Detection is detection.go (IsKnownBadSignal,
--   KnownBadSignals, HasKnownBadSignal), Signature is signature.go (SignPayload, VerifyPayload).
-- - Net: what the program uses of net.ParseMAC and net/netip. The parsers and printers of IP
--   addresses are a parameter, the record NetParser, and IpParser for package net. Domain has the
--   tests on domains that both validations share.
-- - Actions/Store: internal/actions/store.go. NewStore, Create, Approve, Reject, Activate, Revert,
--   RecordFailure, Get, ListByState, ListExpired, evictLocked, transition and writeAudit. Changes
--   gives the changes of one action as a relation, and each method as such a change; Validity is
--   the invariant; Lifecycle, Audit, Eviction, Deadline and Steps are the theorems.
-- - Policy: internal/policy. Rules is Evaluate with its gates, Env is LoadFromEnv, Allowlist is
--   allowlist.go.
-- - Drivers: internal/drivers. The record Driver is the interface of driver.go; Guard is guard.go,
--   Sinkhole is sinkhole.go over an interface to AdGuard Home, SwitchPort is switchport.go over an
--   interface to the switch's webhook, ArpIsolate is arpisolate.go over an interface to the kernel
--   (Wire is what is read and sent, Setup is NewARPIsolateDriver; Frames, Refusals, Lifetime and Gateway have
--   theorems).
-- - Inventory: apps/device-inventory. Store is internal/store/sqlite.go (UpsertFull, insertDevice, Prune,
--   SetLabels, GetDevice, EnrichByIP, List, Count): a statement is a function on the rows.
--   DhcpFingerprint is internal/dhcpfp (Lookup and its table).
-- - Controller: main.go. handleEvaluate, handleApprove, handleReject, handleRevert, handleGetAction,
--   handleListByState, applyAction, revertOne and one tick of runSafeTTLRevert are functions on a
--   World, the store with a network of any type; Auth is authMiddleware; Setup is what main decides
--   from the environment. Evaluation, Approval, Enforcement, Release and Ticker have the theorems on
--   the handlers, Auth/Entry and Setup/Guarding those on the rest.
-- - Intel: apps/threat-intel-sync/internal/ioc. Indicator is indicator.go (Key, Merge), Validate is
--   validate.go, Indicators is store.go (Upsert, UpsertAll, PruneBefore, All, ByType): what the feeds
--   of known-bad names and addresses are let to put into the exports. Export is internal/export.
-- - Detect: apps/detection-engine. Matcher is internal/iocmatch (Add, MatchDomain, MatchIP, MatchHash;
--   Severity and Validate are severity.go and validate.go), Alert and Engine are internal/detection
--   (poll, emitAlert, Ingest, addAlert), EventMap is internal/eventmap, Feedback is internal/feedback
--   (Record, Suppressed, LoadInto, HandleFeedback), Composite is internal/composite (Observe and all
--   below it), DnsCache is internal/correlator/dnscache.go, Ingest is internal/ingest/model.go,
--   TlsHeuristics is internal/tlsheur, and Pipeline is what cmd/detection-engine/main.go wires:
--   OnAlert, the gate of the verdicts, the correlator and the sender. Feedback/Standing gives the
--   life of a feedback store as a relation, and what silences a detection as a function of the
--   accepted verdicts; Pipeline/Gate carries it to what is sent, and
--   Pipeline/Polls to a poll of the query log.
--
-- How it is modelled. Every method that holds the mutex for the whole of a change is a function
-- on the state, so what concurrent handlers do is a list of calls. The clock is an argument, in
-- nanoseconds, read once in a request. Texts are lists of bytes, and upper and lower case are
-- ASCII's. A lifetime times a second wraps at 64 bits, as in Go. Error texts are cut to fixed
-- phrases, and log lines and metrics are left out. The store has the audit entries in the order
-- of the changes; Actions/Store/Delivery has the writes, which come after the mutex is released,
-- as steps of their own, of which each may fail. Go's maps are association lists, of which no
-- theorem depends on the order, and a sort keeps the order of equal elements. No function runs on
-- fuel: all loops are over lists.
--
-- Not modelled. HMAC-SHA256, base64, AdGuard, the switch, the kernel's sockets and neighbour table,
-- and Go's parsers of IP addresses are parameters, with what is documented of them as hypotheses;
-- so is the arithmetic of float64, with what IEEE 754 gives on [0, 1]. The query of the feedback
-- table is its rows. JSON and CSV encoding, the HTTP servers and clients, tickers and goroutines,
-- the writers to ClickHouse, metrics and the read-only pages are left out: they carry no decision.
-- So are packet capture, the flow correlator, the downloads of feeds, the discovery, the vendor table
-- and the pages of the device inventory, the anomaly detector and the user interface.
pub mod Prelude
pub mod Events
pub mod Net
pub mod Actions
pub mod Policy
pub mod Drivers
pub mod Intel
pub mod Detect
pub mod Inventory
pub mod Controller
