-- ===== src/Lib.antt =====
-- A model of solana-payment-ops, a TypeScript monorepo that verifies, reconciles and announces
-- stablecoin payments on Solana. A confirmed transaction is followed until it is final
-- (packages/ingestion), parsed to token transfers, and a transfer is verified against an expectation
-- (packages/core); finalized payment events are reconciled with open invoices
-- (packages/reconciliation); what happened is delivered to webhook endpoints, with retries
-- (packages/webhooks). The parts meet in data: a parsed transfer of a finalized transaction becomes
-- a finalized payment event, a decision becomes a lifecycle event whose payload a webhook delivers.
--
-- Common holds what the parts share: results that may be errors, lists, texts, signed numbers,
-- decimal texts, bits, maps in insertion order, with their lemmas.
--
-- Core models packages/core/src. Types: domain/types.ts, domain/constants.ts and the shapes of
-- fixtures/schema.ts. TokenInstruction: solana/token-instruction.ts, transfer.ts and
-- transfer-checked.ts (`decode_token_instruction` is `decodeTokenInstruction`). AccountKeys:
-- solana/compiled-message.ts. ParseTransaction: solana/parse-transaction.ts, where a thrown
-- `UnsupportedTransferEvidenceError` is the `err` of a result. VerifyPayment:
-- verify/verify-payment.ts, one definition for each check of the report. Envelope:
-- `validateEnvelope` of fixtures/schema.ts.
--
-- Reconciliation models packages/reconciliation/src. Types: domain/types.ts. Event:
-- engine/reconcile-event.ts, whose early returns are nested conditionals. Batch:
-- engine/reconcile-batch.ts, whose `Map` that the callback updates is passed from event to event.
--
-- Webhooks models packages/webhooks/src. RetryPolicy: delivery/retry-policy.ts. Worker: `deliverClaim`
-- and what it calls in delivery/worker.ts, with `signWebhook` of signing/hmac.ts. Signing:
-- `verifyWebhook` of that file. Concurrent:
-- `mapConcurrent` of delivery/worker.ts, whose interleavings are lists of the workers that are resumed.
-- Batch: `runDeliveryBatch`.
--
-- Ingestion models packages/ingestion/src. Types: domain/types.ts. Finality:
-- finality/finality-engine.ts, where `observe` is the body of the loop of `refresh`. Consensus:
-- `decideState` of consensus/finalized-consensus.ts. A finalized transaction is the source of the
-- payment events that Reconciliation decides on.
--
-- Parameters stand for code that is not in the repository: `bs58.decode`, HMAC-SHA256, the network,
-- `Date.parse`, the collation of `localeCompare`, the delivery store and the clock. Names are the
-- source's in snake case. Numbers are unbounded: amounts are `bigint`s in the source; indexes, slots
-- and times are safe integers there. Dates are milliseconds since an epoch before all of them; the
-- random number of the retry policy is a fraction of 2 ^ 53 and its product is exact. All loops run
-- over lists or a fixed count, so no fuel is used.
--
-- Platform (packages/platform/src) holds what the hosted platform computes: Numerals the number texts
-- that it accepts, ExactDecimal quotes/exact-decimal.ts, Quote quotes/quote-math.ts, QuotePolicy
-- quotes/quote-policy.ts, Invoices invoices/arithmetic.ts, and Payments
-- payments/status-projector.ts: `projectOne` over a store of one payment attempt, with the journal
-- entries of operations/ledger-store.ts by their identity. Its loops end by the scale of a decimal
-- and by the smaller number of Euclid's algorithm. Parameters are decimal.js, the digests, `trim`
-- with `normalize`, the reading of a timestamp, and the answers of the queries.
--
-- Not modelled: the schemas' patterns of texts, the SQL itself, RPC requests and
-- backfill, the refusals of `normalizeJournal`, the rest of the platform (authentication, audit,
-- quotas, stores of quotes and invoices), the applications. Where an event has the reference of
-- several active expectations, `lockProjectionRoot` takes the newest: the model has that one attempt.
pub mod Common
pub mod Core
pub mod Ingestion
pub mod Platform
pub mod Reconciliation
pub mod Webhooks
