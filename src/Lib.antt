-- ===== src/Lib.antt =====
-- AgentWorth: the trust kernel between an agent and the rails that move money, as the code under
-- src/ has it.
--
-- An agent proposes a payment intent. The executor (src/core/executor.ts) asks the gate
-- (src/core/gate.ts), a pure function of the intent and a context read from the store; it looks for
-- patterns in the signed log (src/core/riskChain.ts), records the decision in the log
-- (src/core/audit.ts), and calls a rail's provider (src/rails) only when the decision is
-- auto_execute, or when the operator approves a pending intent. The SDK (src/sdk/index.ts) is the
-- facade that grants and revokes mandates and passes payments on to the executor.
--
-- Files and code:
--   Types         src/core/types.ts: mandates, intents, receipts, decisions, the gate's context
--   Gate          src/core/gate.ts, `evaluateGate` cut at its numbered stages: `validate`, `screen`,
--                 `authorize`, `check_caps`, `scrutinise`
--   Risk          src/core/risk.ts and src/core/trust.ts: `classifySpendRisk`, `payeeTrust`
--   Fx            src/core/fx.ts: conversion between currencies
--   Payee         src/core/payeeNormalize.ts and src/core/denyList.ts: the deny rules
--   Audit         src/core/audit.ts: the hash-linked, signed log
--   RiskChain     src/core/riskChain.ts: patterns over the recent log
--   Store         src/core/store.ts and src/store/memoryStore.ts: the ledger
--   Sqlite        src/store/sqliteStore.ts: the ledger in SQL tables; Store.Calls has the calls of both
--   Postgres      src/store/postgresStore.ts: a mirror with a queue of statements to make it durable
--   Rails         src/rails/provider.ts, src/rails/registry.ts and src/rails/fakeRail.ts; Rails.Network
--                 has src/rails/networkRail.ts, its rails, and src/core/credentialBroker.ts
--   Executor      src/core/executor.ts; Executor.Operations has `settle` and `execute`,
--                 Executor.Approval has `approve`, `refund` and the operator's controls
--   Enforcement   src/core/enforcement.ts: policy hash, decision records, replay
--   Ingress       src/ingress/rateLimit.ts and src/ingress/idempotency.ts: the limit and the retries of requests
--   Compliance    src/compliance/sanctions.ts and src/compliance/aml.ts: screens of payees;
--                 Compliance.Oversight has src/compliance/oversight.ts, the report on a log
--   Reconcile     src/finance/reconcile.ts: what was settled against an account's statement
--   Templates     src/core/mandateTemplates.ts and src/core/streaming.ts: presets of mandates
--   Erc7710       src/erc7710/index.ts: hex and words (Hex, Words), caveat terms (Terms), mandates as
--                 delegations (Delegation), redemptions under the gate (Redemption); the other
--                 modules below it have the proofs
--   KeyCustody    src/core/keyCustody.ts, and the log of src/core/audit.ts over a key provider
--   MandateCard   src/core/mandateCard.ts: cards of mandates, made, compared, derived, linted
--   GovernedWallet  src/rails/governedWallet.ts: the gate above a wallet
--   EarningDesk   src/earn/earningDesk.ts: what the agent is paid
--   X402Proxy     src/proxy/x402Proxy.ts: a proxy that pays x402 challenges through the executor
--   ReplaySim     src/obs/replaySim.ts: the decisions of a log under another policy
--   Sdk           src/sdk/index.ts; Sdk.History has every history of calls as a step relation
--   Prelude       shared tests on numbers, lists, signed integers, insertion-ordered maps, texts and
--                 the UTC calendar; Examples has the values that the Tests modules run on
--
-- How the code is read:
--   * Money is a number of minor units. The amount of an intent is a whole number or
--     `malformed`: negative, fractional, infinite, NaN. The amount of a refund that is asked for is
--     whole, that of an inbound payment whole or NaN; a total of the oversight report is followed while
--     it adds whole amounts. The score of a risk is a signed integer.
--   * An instant is the number of milliseconds since the epoch of a canonical ISO-8601 string, on
--     which the order of strings and of instants agree; before the epoch subtraction stops at 0.
--   * A reason, an alert or an error is a constructor with the values that its text shows.
--   * State is passed on: an operation takes the store and the log and returns them with a result or
--     the exception that it throws, the writes before the throw included. A call is one step: what
--     another call does while a provider is awaited is not modelled.
--   * A provider is a function to a receipt or a thrown message; its `verifyReceipt` does not throw.
--   * A rate of exchange is a fraction of whole numbers, and the conversion rounds exactly, where the
--     code rounds a double: close to a half the two differ by a minor unit.
--   * SHA-256 over canonical JSON, HMAC, key resolution, the policy hash, `toUpperCase`, and NFKC
--     with lower case are arguments; nothing is assumed of them but what a theorem's own
--     hypothesis says. Theorems on the log speak of collisions instead of excluding them.
--   * Every loop is a recursion on a list, but for four in Erc7710: the bytes of a number have 33
--     bytes of fuel, which tells the numbers of at most 32 bytes apart; the loop over addresses has
--     as much as there are bytes; a number has fewer hex digits than it counts, or one; and 203
--     halvings bring a number below 2^256 below 2^53.
--   * Binary data are lists of numbers below 256. The hex texts of the source are texts. `Number` of a
--     big integer rounds to 53 bits.
--   * A table of a database is the list of its rows; a statement that breaks a key or a NOT NULL column
--     throws and changes nothing, and its error is read as the one that the memory store throws in its
--     place; a SELECT without an order answers in the order of insertion. A statement that is sent may
--     be lost, or be carried out unanswered. The histories of a Postgres store are
--     those without notifications between instances.
--   * Ids are not the empty string, which the code takes for no id in a few places.
--
-- Not modelled: the commit barrier, the tracer and the notifier of the executor, which change no
-- decision; failures of the signing service; the cryptography of ERC-7710; SQL engines, the clients of
-- rails, the HTTP server, the protocols AP2, ACP and AG-UI,
-- identity, disclosure, the agent loop, the finance advice, the command line and the evaluations.
mod Prelude
pub mod Types
pub mod Fx
pub mod Audit
pub mod Risk
pub mod Payee
pub mod RiskChain
pub mod Store
mod Examples
pub mod Rails
pub mod Enforcement
pub mod Executor
pub mod Sdk
pub mod Gate
pub mod Ingress
pub mod KeyCustody
pub mod Templates
pub mod Compliance
pub mod MandateCard
pub mod GovernedWallet
pub mod EarningDesk
pub mod Erc7710
pub mod Sqlite
pub mod Postgres
pub mod X402Proxy
pub mod Reconcile
pub mod ReplaySim
