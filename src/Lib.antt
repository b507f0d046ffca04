-- ===== src/Lib.antt =====
-- mrkt: an email marketing service that is deployed from a repository. A release holds a manifest of
-- mailing lists, messages, sequences and broadcasts. The engine keeps contacts, their consent and
-- their progress in an SQLite database, and a worker turns what is due into jobs and deliveries.
--
-- The parts modelled, with the files of the repository that they follow:
--
-- * Prelude (and Prelude/...): shared names; lists, options and texts as Go has them.
-- * Manifest (internal/manifest): Types is the data of a manifest (manifest.go), Check the errors of
--   validation, Patterns its regular expressions, Validate, Sequences and Graph are `Validate`,
--   with its search for cycles in Graph. Condition is `Evaluate` and Simulate is `Simulate`
--   (simulation.go), Locale is `ResolveLocale`.
-- * Store (internal/engine/migrations.go): the tables as records in Rows, and in Query what the SQL
--   statements do: a table is the list of its rows, an UPDATE is `update_where`, and so on.
-- * Engine (internal/engine): each operation is a function from the database, the instants that
--   `e.now()` returns and the texts that `newID` returns to its result and the database that its
--   transaction leaves. Jobs is the queue of execution.go (`claimJob`, `finishJob`, `retryJob`),
--   Limits the counters of `reserveSelectedTransport` and `allowSubscribe`, Lookup the queries,
--   Completion `completeEnrollment`, `maybeCompleteBroadcast` and `enrollSubscriptionTx`, Delivery
--   `reserveDelivery`, `recordSMTPResult` and `maybeOpenCircuit`, and Consent the actions of
--   `doConsent` in consent.go. Schedule is `scheduleDueEnrollments` and Events the action "create" of
--   `doEvents`, in execution.go. Operations is what operations.go does to an enrollment or a
--   broadcast (cancel, pause, resume), the migration of enrollments to another release (Migrate) and
--   the retention of data (Retention; its UPDATE with LIMIT redacts the first rows of the table).
--   Releases is releases.go: Plan what a deployment tests before its transaction, with
--   `releaseChanges` and `validateReleaseRuntimeRefs`, Activate the transaction and the rollback.
--   Worker is `runJob` of execution.go for the jobs "confirmation" and "enrollment_complete", with
--   `confirmationMessage` of consent.go and `reserveTransportSend`.
--   Transports is `selectedTransport` of transport_selection.go.
--   Configs and Registry are the encrypted configurations of registry.go and `registryConfig`,
--   Addresses is `normalizeEmail` of catalog.go. Feedback is `doFeedback` of feedback.go: Steps its
--   transaction, Ses how a notification of Amazon SES is read, Receive the whole. Outbox is outbox.go:
--   FanOut distributes events to webhooks, Attempts leases, settles and replays a delivery, and Tick
--   is `tickOutbox`. Authority and Entry are engine.go: the scopes and `authorizeOperation`, the
--   routing of `do` (Entry/Routes), and `Do` with its idempotency keys (Entry).
--
-- Tests are in the modules named Tests, over the small database of Engine/Sample.
--
-- Go's library is a parameter: the record `Runtime` of Manifest/Types and `Env` of Engine/Env. What
-- a theorem needs of it is a hypothesis, such as `Ranges` (`range` meets the keys of a map) and
-- `FloatLaws` (IEEE comparisons). The order in which `range` meets a map is such a parameter.
--
-- What an operation takes from outside is a record beside it: the fingerprints, instants and IDs of
-- the reports of a provider (`Intake`), the verification of signatures and the decoding of JSON
-- (`Providers`, `Codec`), the artifact store and the digest of a manifest (`Deployer`), the senders of
-- mail (`Senders`, `Mailer`), the envelopes of events (`Fan`) and the HTTP client (`Post`). `Do` is
-- modelled on the table of its keys: what a handler answers, and which of the program's statements on
-- that table run meanwhile, are data (`Meanwhile`, `TableWrite`), and the handlers that are modelled
-- stand in modules of their own.
--
-- Fuel: the search for cycles gets one call more than the sequence has steps, and `ResolveLocale` one
-- more than the locale has characters; both are proved to be enough. The simulation has the source's
-- own limit of 100 rounds, which an accepted sequence of at most 100 steps does not exceed. A tick of
-- the outbox has the source's own limit of 10 attempts.
--
-- SQLite has one writer, so what interleaves is whole transactions: one for most operations, one for
-- each enrollment in the loop of the scheduler, and several for subscribing and for an event. Where
-- an operation reads before its transaction, as `deploy` and `migrateEnrollments` do, it takes two
-- databases. The jobs "confirmation" and "enrollment_complete" are several statements, and take what
-- other calls do between them (`Between`); so does `Do` between the lookup, the claim and the
-- conclusion of a key (`Meanwhile`). Merged into one step are: the reads of `selectedTransport`; the
-- reads before the transaction of a turn of the scheduler and of `doFeedback`; the UPDATE and the
-- SELECT of `recordSMTPResult`; the statements of `maybeOpenCircuit`; in `tick_outbox`, whose leases
-- and settlements are transactions of their own, all rounds of a tick; and the two UPDATEs of
-- "rollback". The failure of a statement for another reason than its rows (a full disk, a closed
-- database, a cancelled context) rolls the transaction back and is not modelled; nor is a clash of
-- the random texts of `newID`. The payload of an outbox event is modelled by its members that are
-- texts. Rendering, SMTP, HTTP, cryptography and storage are not modelled; nor are the jobs
-- "broadcast" and "sequence" of `runJob` with `dispatch`, and `Tick` over all jobs.
pub mod Prelude
pub mod Manifest
pub mod Store
pub mod Engine
