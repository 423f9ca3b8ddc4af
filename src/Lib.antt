-- ===== src/Lib.antt =====
-- Treasury Backend: a model of its settlement of collected money and of its payments, and the
-- theorems about it.
--
-- The program is a set of services over one database. A command comes from a controller with an
-- idempotency key, an If-Match version and, where a step-up is asked for, the proof of it; the
-- service runs it in one transaction, writes its own tables, appends movement facts, audit events
-- and outbox events, and stores the response under the key. What is modelled is the settlement of
-- card and online collections: a batch takes amounts from collection items, a second user confirms
-- it against the bank credit, and a third user may reverse it. And the execution of payments: an
-- approved payment is paid out of cashboxes and bank accounts that must be able to pay, and an
-- executed one is reversed by a correcting payment. Both write their money as movement facts, of
-- which a balance is the sum.
--
-- Parts and files:
--   Prelude        tests, lists and integers over the native numbers
--   Money          `units` and `amount` of src/collection-and-settlement/settlement.service.ts, and
--                  `decimal` of src/payments/payment-execution.service.ts and of
--                  src/cashbox-and-custody/payment-cashbox-effects.service.ts
--     Digits, RoundTrip   what is printed is read back; the two readers on a negative text
--     Texts               trimming, and the checks on header texts
--   Store          what the services share
--     Errors         errors as values and the chain of steps
--     Effects        src/foundation-effects/foundation-effects.service.ts and `consumeStepUpProof`
--                    of src/access-control/access-authorization.repository.ts
--     Idempotency    `findIdempotency`, `startIdempotency`, `finishIdempotency`
--     Proofs         a step-up proof is used once
--     Replay         how a command answers a key that it knows
--   Settlement     `create`, `confirm` and `reverse` of
--                  src/collection-and-settlement/settlement.service.ts
--     Tables         the rows of src/database/schema.ts
--     Repository     src/collection-and-settlement/settlement.repository.ts
--     Service        what the commands share: requests, headers, authority, replay, proof
--     Request        `validateCreate`, the checks on a create request
--     Create, Confirm, Reverse   the commands, each with its theorems in child modules
--     Collection     src/collection-and-settlement/collection-effects.service.ts: an item is created;
--                    Column, what the column numeric(38, 8) makes of its amount
--     Items          the item table through its ids, and the constraints on its rows
--     Frame          what an update leaves alone
--   Payment        `execute` and `reverse` of src/payments/payment-execution.service.ts
--     Tables         the rows of src/database/schema.ts
--     Sources        `payable` and `receivable` of src/cashbox-and-custody/payment-cashbox-effects.service.ts,
--                    src/cashbox-and-custody/receipt-cashbox-effects.service.ts,
--                    src/banking/payment-banking-effects.service.ts and
--                    src/banking/receipt-banking-effects.service.ts
--     Checks         requests, the lock, totals, separation of duties, allocations, proofs; its child
--                    modules say of the rows what the tests on approvers and allocations accept
--     Totals         the source totals, reservations and sources of a payment
--     Execute        `execute`, with its theorems in child modules
--     Reversal, Reverse   `reverse`: its checks and rows, then the command with its theorems
--     Ledger         the abstract ledger, which `execute` and `reverse` implement
--   Approval       src/payments/payment-approval.service.ts
--     Decimals       `decimalParts` and `compareDecimal`
--     Policy         `uniqueMaximal` and `dominates`: the policy of a payment
--     Steps          `composeSteps`: the steps of all policies in one order
--     Act            the decision of `act` on the steps, with `currentSteps` and `insertAction` of
--                    src/payments/payment-approval.repository.ts
--
-- State is passed explicitly: an operation takes the tables (`SettlementDb`, `PaymentDb`) and returns
-- the new ones, or an error, after which the transaction is rolled back. A name of a definition is that of
-- the source in snake case; a loop is structural recursion on its list, and a long method is cut
-- into the functions `_guards`, `_effects` or `_updates`, and `_response`, in the order of the
-- source. Fuel stands in two loops: that of `digits`, which prints a number, where the
-- number itself is enough, and that of `composeSteps`, where the number of nodes and keys is.
--
-- Amounts are exact integers in units of 10^-8, as the BigInt values of the source; there is no
-- machine width to overflow. An identifier, a currency, a date or a digest is a number, since it is
-- only compared. Versions are numbers: `Number` is exact below 2 ^ 53. The rows are those of one
-- organization.
--
-- Parameters: the digest of a command (`commandDigest`) and the decisions of
-- `resolveSettlementAuthority`, `canOperatePayment` and `hasSeparationOverride`; no theorem assumes
-- anything about them. Of the triggers in migrations the one on the effects of payments is modelled,
-- as a check at the end of the transaction. The comparisons by `localeCompare` are a parameter of
-- `composeSteps`, and the text that a column numeric(38, 8) returns is one of the creation of
-- collection items; one theorem assumes of it that an amount comes back with eight digits after the
-- point. Of the constraints of the tables those on the money of collection items and on their sources
-- are modelled. The unique keys of movement facts, audit events, outbox events, effects and idempotency
-- records are not: where one of them refuses a row, the source rolls the transaction back and the model
-- goes on, so the theorems speak of commands that return. A business number is the number in its
-- text. Transactions run one after another, so the locks (FOR UPDATE, advisory locks) are not
-- modelled. `randomUUID` is a counter of the state, or an argument; the rows of a table stand in the order of their identifiers.
--
-- Not modelled: queries and cursors, labels for display, HTTP wiring and validation decorators, and
-- the other services (payment requests, `submit` of the approval and what `act` does around its
-- decision, outcomes of bank instructions, closing of cashboxes, receipts, transfers, cheques,
-- banking, reports).
pub mod Prelude
pub mod Money
pub mod Store
pub mod Settlement
pub mod Payment
pub mod Approval
