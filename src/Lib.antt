-- ===== src/Lib.antt =====
-- CumulusVPN: the payments bridge, which turns purchases into payments on the Flux chain, and the
-- client library's decisions about routes, transports and hops.
--
-- How the parts work together. A rail (Stripe, Apple, Google, a voucher) delivers a payment event,
-- which the payments queue keeps once. The broadcaster takes the first pending row, sizes its amount
-- by the price schedule, selects treasury outputs that no transaction of its own holds, builds the
-- transaction, commits the row and the held outpoints, and only then sends the bytes. The confirmer
-- looks the sent transactions up, and confirms a row, sends its bytes again, or resets it once its
-- transaction has expired. Gateways read the payments off the chain and grant days. On the client,
-- a policy of excluded networks becomes a list of routes, a gateway's offer becomes one transport, and
-- the fleet becomes an entry and an exit.
--
-- Which file models what (paths from the root of the repository):
--   Common            shared names, lists and texts, the stable sort, decimal numerals
--   Payments          bridge/src/db/payments.ts, PaymentsRepo; Payments/Queue is `queueStats`
--   Price             bridge/src/price.ts; Price/Parse is `PriceSchedule.parse`; Price/Payout is `zatsForDays` of bridge/src/grants.ts and the
--                     gateway's rule for days, `grant` of gateway/internal/entitle/entitle.go
--   Codes             bridge/src/codes.ts
--   Grants            bridge/src/grants.ts, `recordGrant`
--   Treasury          bridge/src/flux/utxo.ts, `selectUtxos`; bridge/src/flux/tx.ts, `buildPaymentTx`
--   Worker            bridge/src/worker/broadcaster.ts and bridge/src/worker/confirmer.ts
--   Vouchers          bridge/src/db/vouchers.ts, VouchersRepo; Vouchers/Code is the voucher codes,
--                     Vouchers/Batch is `createBatch`
--   Breaker           bridge/src/breaker.ts and bridge/src/worker/alerts.ts
--   Transfers         bridge/src/transfers.ts
--   Subscriptions     bridge/src/db/subscriptions.ts, SubscriptionsRepo
--   Dns               clients/core-ts/src/dns.ts
--   Split             clients/core-ts/src/split.ts: Split/Interval and Split/Blocks are the interval and
--                     CIDR arithmetic, Split/Address the texts of addresses, Split/Rules, Split/Domain
--                     and Split/Loading the rules and their gate, Split/Compile `compileSplitPolicy`;
--                     Split/Allowed is `allowedIpsFor` of clients/core-ts/src/wgconfig.ts
--   Rails             bridge/src/rails/google.ts: Rails/Play is what Play says, Rails/GoogleMoves the
--                     grants, Rails/Google the handlers, Rails/Notices the notifications
--   Transport         clients/core-ts/src/transport.ts
--   Hops              clients/core-ts/src/multihop.ts, `selectHops`
-- A name of the source is kept in snake_case: `markBroadcast` is `mark_broadcast`.
--
-- State. A table of the database is the list of its rows, in the order of insertion; a statement is a
-- function on tables, and a transaction is one function, which leaves the tables as they were where it
-- throws. The clock is an argument. Times, heights, amounts (zats) and identifiers are natural numbers;
-- amounts stay far below 2 ^ 53, where a double counts exactly. The two workers and the deliveries
-- interleave in `Worker.System.Step`: the broadcaster holds its row across its chain reads, the
-- confirmer walks the rows that it read when its tick began. A handler of the Google rail is cut where it
-- awaits, and `Rails.Google.System.Step` interleaves the parts.
--
-- Bounds and fuel. The cover of an interval by blocks runs on fuel, one unit for each address left, and
-- each block takes at least one address, so it never runs out: the theorem on the routed addresses says
-- so. Punycode runs on the number of code points, of which each round writes at least one, and on the
-- number to be written, which every digit makes smaller. Addresses have 32 or 128 bits.
--
-- Parameters, because their code is elsewhere: base58, SHA-256, the transaction builder of
-- @runonflux/utxo-lib, what the chain and the Play API answer, and the Unicode tables behind
-- `toUpperCase`, `toLowerCase` and `normalize`.
--
-- Not modelled: the HTTP server, the rails of Apple and Stripe, database set-up, timers, log lines, the
-- applications, and the gateway but for its rule for days. Of the Google rail, the requests to Google; of
-- the voucher store, the statistics; of the price schedule, its printing; of multi-hop routes, the
-- configuration texts.
pub mod Common
pub mod Payments
pub mod Price
pub mod Codes
pub mod Grants
pub mod Treasury
pub mod Worker
pub mod Vouchers
pub mod Split
pub mod Breaker
pub mod Transfers
pub mod Subscriptions
pub mod Transport
pub mod Hops
pub mod Dns
pub mod Rails
