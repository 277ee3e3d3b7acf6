-- ===== src/Lib.antt =====
-- A verification of the core of the FiberPass backend: a wallet owner opens a pass (a session), funds
-- are allocated to it from a funding source, and an app charges the pass.
--
-- Parts, and how they interact:
-- * Money (src/lib/money.ts): amounts are canonical decimal strings of at most 256 bits. Every other
--   part calls it. Money/Digits and Money/Laws prove what parsing, printing and arithmetic do;
--   Money/Decimal has the conversion from and to amounts with a decimal point.
-- * Vault (src/domain/vaultV2.ts): `validateVaultV2Transition` decides whether a transition of a vault
--   is accepted. Vault/Types has the data, Vault/Checks the checks that every transition passes,
--   Vault/Actions one function per action. Vault/Facts, Guards, Payout and Owner read what a successful
--   check says; Vault/Spec is the abstract vault, Vault/Refinement and Vault/Exit relate the code to
--   it, and Vault/History is about sequences of transitions.
-- * Funding (src/domain/funding.ts, src/services/fundingSource.service.ts and
--   src/models/fundingSource.model.ts): sources, and the allocations that passes hold of them.
--   Funding/Domain has the rules, Records the documents and their save hooks, Sources, Allocations and
--   Selection the operations. Refresh, Balance, Operations, Preservation and Opening are about single
--   operations, History about sequences, Release about a repeated release.
-- * Charges (src/services/chargeReservation.service.ts, src/models/chargeAttempt.model.ts,
--   src/models/chargeDailyCounter.model.ts and `createPaymentReceipt` of
--   src/services/receipt.service.ts): a charge is reserved in its session and in a daily counter, sent
--   to a provider, and then released or finalized; finalizing spends the allocation of the pass.
--   Charges/Records has the documents, Reservation, Execution, Settlement and Receipts the operations,
--   Balance, Preservation, Finalization, Opening, Repeat, Settled and History the proofs.
-- * Receipts (`allocateAtomicFee` of src/domain/receipt.ts): how a fee is shared between the receipts of
--   a settlement. The loop is recursion on the remainder.
-- * Automation (src/domain/automation.ts): the status tables of invoices, batches and payment jobs.
-- * Metered (src/domain/meteredPayment.ts, src/models/meteredPayment.model.ts,
--   src/services/meteredPayment.service.ts and src/services/meteredPaymentWorker.service.ts): the
--   owner grants an app a budget of a pass, the app reports usage events, which reserve in the grant
--   and the pass and are collected in batches, and a worker settles or releases the batches; a
--   settlement spends the allocation of the pass (Funding) and writes receipts (Charges/Receipts) with
--   fee shares (Receipts). Metered/Records has the documents, Amounts the limits and the rate window,
--   Grants the creation of a grant, Usage, Batches and Acceptance that of an event
--   (`acceptUsageEventOnce`), Submission its retries, Release the release of a batch and the
--   revocation of a grant, Finalization the settlement, Worker the single updates of the worker and
--   Run its loop. The other files are proofs: Linked, Placement and Balance about events, batches and
--   reserves; Accepted, Granted, Preservation, Settled and Steps about single operations; History and
--   Operations about runs and sequences; Bounds, Repeat and Final about limits and repetition; Counts,
--   Tallies and Totals about the counters of a run.
-- * Workers (src/services/workerRuntime.service.ts and src/services/webhook.service.ts): leases in
--   Workers/Leases, with proofs in Exclusion, and the delivery of webhooks in Workers/Webhooks, with
--   proofs in Attempts.
-- * Schedules (src/domain/schedule.ts, src/models/schedule.model.ts and
--   src/services/paymentSchedule.service.ts): an occurrence of a payment schedule reserves in the pass,
--   is claimed, retried or blocked by the worker, and is settled, which debits the pass, writes a receipt
--   (Charges/Receipts) and moves the schedule on. Records has the documents, Calendar the next
--   occurrence, Budget the reserve, the retries and the blocking, Execution the claim, the submission and
--   the closing of schedules, Success the settlement; Balance, History, Steps and Operations are proofs
--   about what passes hold in reserve.
-- * Prelude has the shared names, Boolean tests, results with errors, texts, stores (Prelude/Store) with
--   lookup, upsert and the update of the first document that passes a filter, and what transactions do
--   with documents (Prelude/Documents).
-- Tests in each part run the operations on small data.
--
-- Conventions. A function that throws returns `Outcome`, with a constructor for each error; a
-- message is left out where a code tells the errors apart. A collection is a list of documents; an
-- operation takes the collections and returns them, and a transaction that throws leaves them as
-- they were. Identifiers that are only compared are numbers, and so are dates (milliseconds). A
-- minor amount is a natural number, as the schemas require, and the code's bound on safe integers is
-- written out. A bigint is an integer. In the vault a JavaScript number is a natural number or
-- anything else, and its sum is rounded above 2 ^ 53. Printing an amount runs on fuel, one more than
-- the amount, which is more than the number of its digits. SHA-256 and the caller's own session
-- filter are parameters. A stored atomic amount of the metered documents is the number that its
-- canonical string writes. The loops of the workers run on the number of rounds that are left, which
-- is the limit of the code, and the retries of a submission on the five tries of the code; what
-- other requests do between those tries is a parameter. A run of a worker and a batch of it have one
-- time, where the code reads the clock for some updates. What the filter
-- of a charge's reservation keeps of the caller's is any test of the session. Connectors, resolvers of payment requests, secrets
-- and HTTPS requests are parameters whose calls return or throw, and so is the Temporal library with
-- its calendar; ids that are drawn at random are arguments.
--
-- Not modelled: the minima and maxima of the schemas, amounts given as numbers; operations of
-- different requests that overlap inside a transaction, since the database runs them one after the
-- other; floating-point minor units and display amounts; notifications, routes, connectors,
-- heartbeats, the creation of schedules and their worker loop, the session service, conversions to
-- responses and the lock scripts.
pub mod Prelude
pub mod Money
pub mod Vault
pub mod Funding
pub mod Charges
pub mod Receipts
pub mod Schedules
pub mod Automation
pub mod Metered
pub mod Workers
