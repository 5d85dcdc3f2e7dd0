-- ===== src/Lib.antt =====
-- The verification library of the modem service: the decisions that the service takes on what the
-- modem, ModemManager, NetworkManager and the SIM report, and what they set off.
--
-- internal/service/service.go runs a loop. Each tick reads the modem's state (internal/modem), checks
-- its health and recovers it, lets the link assessor judge a snapshot and applies a remedy, classifies
-- the connectivity that is published, counts the bytes of the bearer, and has the PIN manager look at
-- the SIM and the APN manager at the profile of the connection. Messages are taken from the modem into
-- an inbox and sent by internal/sms, which also queues those to be forwarded. The parts share the modem, not their state: each keeps its own record, and the service
-- calls them one after the other. So each part is a module of its own here, and a run of the program
-- is, for a part, a list of its operations with what the outside answers.
--
--   Prelude       shared names, native lists, Boolean tests
--   Connectivity  internal/modem/connectivity/classifier.go: Classifier, Classify, Force
--   Link          internal/modem/link/link.go: checkLocal, Assess, NoteRemedyApplied
--   Snapshot      internal/modem/snapshot.go: LinkSnapshot, ParseCGACT, ParseCGPADDR, the default route
--   Policy        internal/service/service.go: handleAssessment, applyRemedy, nextProbeInterval and the
--                 schedule of the remote probe
--   Usage         internal/datausage/counter.go: load, Observe, Flush, Backstop
--   Health        internal/health/health.go: the health record
--   Recovery      internal/service/service.go: checkHealth, handleModemFailure, attemptRecovery
--   Sim           internal/sim/manager.go: Reconcile
--   Sms           internal/sms/manager.go: Send, HandleAdded, DrainReceived
--   Apn           internal/apn/manager.go: Reconcile, apply, rollback; internal/apn/nm.go: the commands
--                 of nmcli
--   SmsStorage    internal/service/sms_storage.go: recoverFullSMSStorage
--   Forward       internal/sms/store_forward.go: the queue of messages to forward
--   Inbox         internal/sms/store.go: the inbox; internal/sms/forward.go: ForwardText, SMSSegments
--   Forwarding    internal/service/sms_forward.go: forwardOne, which joins Forward and Sms
--   Location      internal/location/location.go: the week rollover and the delays between attempts
--   Dns           internal/health/probe.go: buildDNSQueryType, skipDNSName
--   Bearer        internal/mm/bearer.go: DataBearer
--   Mm            internal/mm/types.go: the names of ModemManager's numbers, and the SIM lock that
--                 internal/modem/modem.go reads
--
-- A method becomes a function from the old record to the new one, under the source's name, with its
-- guards in the source's order. What it calls outside is its trace, a list of events; what D-Bus, the
-- database, the file system, the contexts and the locks answer are arguments, so that a statement
-- holds for every answer. Go's zero values stand for what they stand for in the source. Times are
-- numbers, of nanoseconds, in the database of milliseconds and in the APN manager of seconds, and the
-- clock is an argument. A `uint64` sum wraps at 2 ^ 64. Loops are structural, but for two that run on
-- fuel. The one over a DNS name has one more unit than the message has bytes, which is enough since
-- every turn passes a byte; the one over the weeks of a GPS date (Location) has one for each rollover
-- before the first valid date, and one more.
--
-- A transaction of the APN manager makes many calls, each of whose answers may depend on those before.
-- There the outside is a record of functions on the history of the calls (`World`), the transaction is
-- a program in a monad of state and errors (Apn/Calls, Apn/Transaction), and what it keeps is shown by
-- the rules of a program logic (Apn/Rules, Apn/Events). Its timeouts are errors that a world may answer.
--
-- Not modelled: logging; Redis, D-Bus, HTTP and socket calls themselves; opening the database; the
-- rest of the location service and of the remote probe, the power and USB sequences, and the start-up
-- and shutdown of the service.
pub mod Prelude
pub mod Bearer
pub mod Connectivity
pub mod Dns
pub mod Link
pub mod Policy
pub mod Usage
pub mod Health
pub mod Recovery
pub mod Sim
pub mod Sms
pub mod SmsStorage
pub mod Forward
pub mod Mm
pub mod Apn
pub mod Inbox
pub mod Snapshot
pub mod Forwarding
pub mod Location
