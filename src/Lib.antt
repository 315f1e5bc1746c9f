-- ===== src/Lib.antt =====
-- The domain logic of the commerce platform, modelled and proved.
--
-- The program is a monorepo. packages/core/src holds the domain modules, packages/db/src/schema the
-- tables, and the apps (apps/console, apps/storefront, apps/worker) call the domain modules from
-- their routes and jobs. A cart is priced, a promotion is evaluated against it and spread over its
-- lines, the tax engine taxes what is left of each line, the payment split says what is paid in
-- advance, a checkout holds stock and turns the hold into sales when it is paid, the order then
-- climbs its status ladder, and a carrier is chosen whose events report the shipment's progress.
--
-- Which file models what (paths from the repository's root):
--   Tax          packages/core/src/tax/index.ts: computeLineTaxes, divHalfUp, docTypeFor and
--                allocateProportionally. Lines, Totality, Rounding and Allocation hold the proofs.
--   Promotions   packages/core/src/promotions/index.ts: evaluatePromotion and applyDiscountToLines.
--                Rules states the conditions as such, Eligible when a promotion applies; Greedy,
--                Outcome and Spread hold the proofs. Redemption has claimRedemption of
--                packages/core/src/promotions/server.ts, proved in Counting and Slots.
--   Invoices     packages/core/src/invoices/server.ts: allocateInvoiceNumber and createInvoice.
--                Series and Numbering hold the proofs.
--   Checkout     packages/core/src/checkout/server.ts, over all the tables of a tenant: Confirm has
--                confirmOrderCore and confirmCodOrder's transaction, Webhook the gateway's events,
--                Closing cancelPendingOrder, confirmCodOrder, expireCheckout and cancelOrder, Start
--                what startGatewayPayment writes. Growth and Moves say what a step leaves as it was,
--                Safety what it means that the captured money is accounted for; Confirming,
--                Capturing, Money, Oversold, Events, Closings, Cancelling and Starting go through
--                the operations, History takes them over time, and Delivered and Redelivery have an
--                event that comes twice. Pricing and Billing have the amounts and the lines that
--                createOrderTx works out, with computeShippingFeePaise of
--                packages/core/src/serviceability/index.ts; Sharing, LineTaxes, Priced
--                and Assured hold the proofs.
--   Apportion    the largest-remainder rule of Tax and Promotions: numbered entries, and a paisa
--                more at an index. Bump, Quota and Total prove it for any ranking by remainder.
--   Payments     packages/core/src/payments/index.ts: computeAdvanceSplit, with its proofs in Split.
--                Records has the rows of packages/core/src/payments/server.ts: insertPayment, the
--                marks of a payment, createRefundIntent and the marks of a refund.
--   Inventory    packages/core/src/inventory/server.ts: Ledger has the tables and applyMovement,
--                Adjustment has recordMovement, Holds has holdStock and releaseStock, Sales has
--                consumeStockWithin, consumeStock and restockWithin. Invariant, Sums, Fit,
--                Settlement and Placement prove that each operation keeps the tables consistent,
--                Selling and Guarantee that a hold can be sold. History takes the calls over time,
--                Replay and Recall a request that is sent twice.
--   Orders       packages/core/src/orders/index.ts and server.ts: the transition table,
--                transitionOrder and manualTransition. Edges has their moves as relations, Effects and
--                Staff what they promise, with Handover; Table, Door, Ladder and Trail hold the proofs.
--   Logistics    packages/core/src/logistics: Status (status.ts and the vocabulary of types.ts),
--                Selection (selection.ts) and Weight (weight.ts). Choice states the rules of a
--                selection and what a strategy prefers, Winner that selectCarrier keeps to them;
--                Regression, Ranking and Preference hold the proofs.
--   Identity     packages/core/src/identity: RateLimit (rate-limit.ts, proved in Window) and
--                Permissions (permissions.ts, proved in Verdict and Grants).
--   Base         what the others share: lists, the stable sort, results that may be errors, numbers
--                as JavaScript has them, and text.
--
-- How code becomes definitions. A function that may throw returns a Result, whose error is the code of
-- the AppError; several messages of one code are one error. A function that writes takes the tables of
-- one tenant and returns them: it stands for one transaction run to its end, and what throws writes
-- nothing. Row locks and isolation keep concurrent transactions apart, so that a history is a sequence
-- of calls. Postgres' now() and the clock are arguments. Identifiers are numbers, since they are only
-- compared, and a table that is searched is the list of its rows, newest first. A database's check
-- constraint or unique index is an error of the operation that would violate it, and a Redis sorted set is the list of its scores.
--
-- Numbers. Amounts are integer paise. Where the source validates a number (the tax engine and the
-- payment split), the argument is a JavaScript number that may be no integer, and the validation is
-- modelled; elsewhere amounts come from columns with non-negative checks and are naturals. BigInt
-- arithmetic is exact, and so is the arithmetic of safe integers; the bound 2 ^ 53 - 1 is written out
-- where the source tests it, for an invoice of the tax amounts and the total. Floating point numbers are not modelled: a value that the source computes
-- in floating point comes in as an argument.
--
-- Loops are structural recursion over the lists they go through, or over the count they bring to
-- zero: no function runs on fuel, and so every call returns.
--
-- What is not modelled: the read queries and what is only displayed; the queues, the cache purges and
-- the other effects after a commit, which fail softly; the unique-key races between two transactions
-- that are open at once; calendar dates; the carrier, payment gateway and message adapters; and the
-- remaining domain modules (cart, catalog, customers but for markFirstOrder, media, the rules of
-- a pin code, tenancy, audit, crypto), the database's policies and the apps. Of checkout, what
-- createOrderTx reads and stores and what stands before it (the form's validation, the fingerprint,
-- the replay's refusals) are not modelled;
-- of payments, the accounts and the log of raw events; of promotions, what the console edits; of
-- invoices, the copied blocks, the text of a number and the amount in words.
pub mod Base
pub mod Apportion
pub mod Tax
pub mod Payments
pub mod Orders
pub mod Inventory
pub mod Promotions
pub mod Invoices
pub mod Checkout
pub mod Logistics
pub mod Identity
