-- ===== src/Lib.antt =====
-- The core of the SwapTrade backend, a trading platform in TypeScript.
--
-- Program and files. The matching engine (src/trading/matching-engine/core and types) is modelled
-- under Matching: a price level (Level), an order book of two sides (Book), one match and the loops
-- of limit and market orders (Trade), and the handlers of the engine with its state (Engine). The
-- engine holds a book for each asset; a book holds levels; a level holds orders. Names are those of
-- the source in this library's spelling: executeLimitOrder is execute_limit_order.
--
-- Governance (src/governance) stands under Governance: the tables and requests (Types), the service's
-- calls, and the reports on votes (Integrity).
--
-- Message ordering (src/queue/message-ordering.service.ts) stands under Ordering: partitions of
-- messages with sequence numbers.
--
-- Fault tolerance (src/queue/queue-fault-tolerance.service.ts) stands under Tolerance: circuit breakers
-- and retry counts (Tolerance.antt), failover targets and the execution over them (Failover).
--
-- Custody (src/trading/multisig-wallet.service.ts, its entities and requests) stands under Multisig:
-- the tables (Types), wallets and escrows (Multisig.antt), approvals and execution (Approval). The
-- record Outside holds what the service calls and cannot read: ethers, a chain's contract, the
-- environment.
--
-- The clock of auctions (src/bidding/auction/auction-timer.service.ts), the replay of their events
-- (src/bidding/replay) and the presence in their rooms (src/bidding/presence) stand under Bidding.
--
-- The rate limit (src/ratelimit/ratelimit.service.ts and ratelimit.config.ts) stands under RateLimit.
--
-- Swaps (src/swap) stand under Swap: the tables and the pools (Swap.antt), quotes and routes
-- (Pricing), the settlement of one swap with its retries (Settlement), batches (Batch), sagas of
-- several legs (Saga) and the handlers of the queue (Jobs). A JavaScript number is an instance of
-- Number, of which no law is assumed, so that floating point is among the instances. The cache of
-- quotes and the clock are arguments. app.module.ts opens one SQLite connection, on which a
-- statement outside of a transaction that is open joins it. The pessimistic locks that the settlement
-- asks for are taken as granted: they belong to the object mapper and the driver, and where those
-- refuse the lock, as for SQLite, each attempt throws at its first read. The swaps of a best-effort
-- batch, which the source starts together, are settled one after another.
--
-- The options exchange (src/options) stands under Options: the tables (Options.antt), greeks, margins
-- and profits (Valuation), orders and their matching (Orders), contracts and their expiry
-- (Contracts). Prices are instances of Number here, too; quantities are natural numbers of
-- hundred-millionths, the scale of their columns, where the source adds JavaScript numbers. The order of the rows of a table is that of their
-- creation.
--
-- Conventions. Ids, assets and user names are numbers, since the program only compares them. Stakes,
-- powers of votes, tallies and quorums are instances of Number. Amounts and prices of Matching and
-- Multisig are natural numbers of the smallest unit, where the source has JavaScript numbers; fees are
-- in thousandths. A text of which only emptiness and equality are read is a number, with 0 for the
-- empty one. The clock is an argument. A JavaScript Map is an association list. An exception is a
-- constructor of a result type. An order of a book that is changed through a reference is written back
-- where it rests.
--
-- Fuel. The loops of the engine run on two rounds more than the index has orders: each round that
-- goes on takes an order out of the index. The binary search runs on as many rounds as there are
-- prices. The search for a route runs on seven rounds: a round takes one path from the queue, and a
-- path enters it for each asset of the graph at most. A settlement has the four attempts of the
-- source, an execution with failover the attempts of its configuration.
--
-- Not modelled: logging, the worker threads, the controllers, the decorators that validate requests,
-- and the parts of the repository that no module here names. Bids (src/bidding/bidding.service.ts) are
-- looked up by the id of their auction, which their table has no column for.
pub mod Common
pub mod Matching
pub mod Governance
pub mod Ordering
pub mod Multisig
pub mod Bidding
pub mod RateLimit
pub mod Swap
pub mod Options
pub mod Tolerance
