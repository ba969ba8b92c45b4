-- ===== src/Lib.antt =====
-- A verification library for the rental service: the decisions that its money and its stock depend
-- on, translated from TypeScript into functions that compute, with theorems about them.
--
-- Contracts (packages/contracts/src) holds the shared vocabulary, which the other parts use:
--   Contracts.Time, timestamps as what `Date.parse` and `timestamp` learn of a text;
--   Contracts.Flow, payment requests and observations and `matchPayment` (rental-flow.ts);
--   Contracts.Booking, the states of a booking in its mode (booking-state.ts);
--   Contracts.Period, `normalizePeriod`, `newIntakeWindow`, `intakeClose` (hold.ts), over day numbers
--   and milliseconds;
--   Contracts.Hold, the items of a hold, `parseConditions`, `variantMatches` (hold.ts).
-- Payment (packages/core/src/payment) decides what an observation of the provider may do:
--   Payment.Truth, `decidePaymentTruth` and `retryDelaySeconds` (payment-truth.ts);
--   Payment.Projection, `decidePaymentProjection` with `projectionPriceIntact` and `normalized`
--   (payment-projection.ts): Input holds the facts read, Decide the branches in the source's order;
--   Payment.Worker, `runNormalProductionTick` (normal-production-worker.ts), a tick whose ports answer
--   or throw, and whose clock may pass the deadline before any row;
--   Payment.Tick, `handleWorkerTick` (worker-tick.ts), in two steps, up to the call of the worker and
--   from its end, since other requests may arrive between the two;
--   Payment.Freshness, `parseTickLines` and `evaluateWorkerFreshness` (worker-freshness.ts).
-- Inventory (packages/core/src/inventory) decides whether stock is there:
--   Inventory.Intervals, `fitIntervals`, and Inventory.Periods, `search` (period-matching.ts);
--   Inventory.Activation, the tables of scripts/provisional-activation-plan.ts, with `Number` as a
--   parameter whose values are counted in parts of a unit and may be negative;
--   Inventory.Provisional, `provisionalCapacity` (provisional-capacity.ts), and
--   Inventory.Wear, `wearCapacityDetailed` (wear-capacity.ts), both over the rows that their queries
--   read.
-- Launch (packages/contracts/src/launch-staging.ts) decides whether the shops may open:
--   Launch.Staging, `launchStagingPreflight`; Launch.Backup, `backupConnectionGate`;
--   Launch.Manifest, `productionConfigManifest`.
-- Release (scripts) proves, step by step, that a credential, a deployment or a backup may be relied
-- on:
--   Release.Names, databases, services and the names of roles (production-app-roles.ts);
--   Release.Credential, the lifecycle of the first credentials (production-credential-activation.ts):
--   Reset, Lease and Stages hold the checks, Containment the way back, and Calls the operations on a
--   store of proofs, each an object with an identity, which the source keeps in WeakSets;
--   Release.Dormant, `observe`, `collectDormantProof` and `verifyDormantProof`
--   (production-worker-dormant-proof.ts), over a port whose calls may throw, and in Logs the reader
--   of its request log;
--   Release.Backup, `objectKey` (production-backup.ts) with its readers `parseObjectKey`,
--   `assertKeyConsistent` (production-backup-object-get.ts) and `keyTimeIso`
--   (production-restore-evidence.ts), in Run the steps of `runProductionBackup` with the files and
--   the bucket of its uploads and with removals that may fail, in Cleanup what they leave on the disk,
--   and in Env `readBackupEnv` and `spawnPgDump`;
--   Release.Restore, `validateDrillResult`, and in Record `derive`, `assertFresh`,
--   `finalizeRestoreEvidence` and `verifyRestorePassRecord` of production-restore-evidence.ts, over
--   the contents of the evidence directory; Release.Download, `downloadBackupObject`
--   (production-backup-object-get.ts).
-- Square (packages/core/src/payment) talks to the payment provider, in trial stages and in earnest:
--   Square, the reading of a response (square-transport.ts) and `squareObservation`
--   (square-boundary.ts); Square.S1, who the merchant is, Square.S2, one payment, and Square.S3, its
--   refund (square-s1.ts, square-s2.ts, square-s3.ts), each a transport that lets calls through
--   once and a service on top of it. What fetch gives is an input, a deadline that passes is an
--   exception of it, and the transports of S2 and S3 keep a log of the calls given to fetch, answered
--   or not. Square.Gateway is `SquarePaymentGateway` (square-engine.ts) over
--   `FetchSquareTransport` in Transport (square-transport.ts), with what they do as a list of
--   effects, and Webhook the notifications (square-boundary.ts).
-- Automation (tools/automation) lets an agent work on the repository:
--   Automation.Runner, paths, scopes and approvals, and Automation.Verdict, `evaluate` (runner.ts);
--   Automation.Journal, `once` (controller/engine.ts) on a journal in memory and on disk
--   (controller/store.ts), where the process may stop at any save or effect and start again.
--
-- Numbers are natural numbers, with what the source does below zero written out; 95 percent of a
-- quantity, rounded down, is `q * 95 / 100`. SHA-256 over canonical JSON is a parameter. Rows read by
-- a query and answers of a provider are inputs. An exception is a value: `none`, an error
-- constructor, or a flag that ends the loop. The search counts its visits against the budget of the
-- source, from the number that the pruning before it has spent, which is an input, and a budget of the
-- size of the search tree beside those is enough. The schedule of the containment runs
-- on fuel of the size of its window, which is enough, since a delay is at least a second.
--
-- Not modelled: SQL, HTTP, JSON parsing and schema validation; the pruning before the search of
-- units; the writes of claims; child processes, files and encryption; the loop of the controller
-- around `once`; pricing, custody, transfers, notifications and the web application.
pub mod Automation
pub mod Common
pub mod Contracts
pub mod Inventory
pub mod Launch
pub mod Payment
pub mod Release
pub mod Square
