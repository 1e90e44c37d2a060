-- ===== src/Lib.antt =====
-- Verification of platform-core: the credit ledger and the jobs on it, crypto payments, the metering of
-- usage, organisations, the fleet's nodes, placement and rollouts, and the gateway's guards on requests.
--
-- The program is a set of services on a PostgreSQL database. The ledger (src/credits/ledger.ts) keeps
-- double-entry books of each tenant's credits. Grants and sweeps (src/credits/signup-grant.ts,
-- src/credits/credit-expiry-cron.ts) and crypto payments (src/billing/crypto) call it. Metering
-- (src/metering) carries usage events through a log into a table, and src/tenancy keeps organisations and
-- their members. The fleet (src/fleet) keeps the nodes on which the tenants' bots run, chooses a node for a
-- bot and updates the bots in waves. The gateway (src/gateway, src/api/middleware) counts requests and holds
-- back those above a limit.
--
-- Base holds what the parts share: Boolean tests and conditionals on the native numbers, lists, the
-- integers, tables by a unique key (Base.Dict) and loops.
--
-- Credits.Types: the tables and types of ledger.ts and src/db/schema/ledger.ts. Credits.Credit: the
--   amounts of src/credits/credit.ts, whole raw units.
-- Credits.Ledger: DrizzleLedger. Tx is a transaction, a state that an exception rolls back. Accounts
--   has seedSystemAccounts, ensureTenantAccountLocked, resolveAccountLocked, hasReferenceId and the
--   insert of an entry. Post has post, its phases one by one; Methods has credit, debit and
--   debitCapped; Queries has balance, lifetimeSpend and trialBalance. Lines to Writes follow a write
--   through the tables, Recorded, Posting and Effects what a posted entry is and moves, and Posting,
--   Capped, Reachable, References and Total hold the results; Journal follows a reference id through later
--   calls. Wallets is the ledger without its tables, a balance for each tenant and the reference ids that
--   were used, and Refinement compares the two.
-- Credits.Jobs: Signup is grantSignupCredits, Expiry is expiredCredits and runCreditExpiryCron. They
--   use the ledger through its methods and its results.
-- Credits.TopUp: src/credits/auto-topup-usage.ts and the operations on the usage half of a row of
--   src/credits/auto-topup-settings-repository.ts. A run is in two halves, begin_topup up to the flag
--   and finish_topup from the charge on, and Runs lets any runs come between them.
-- Fleet.NodeStatus: src/fleet/node-state-machine.ts. Fleet.Nodes: DrizzleNodeRepository. transition is
--   in two halves, the read before the transaction (read_transition) and the transaction that compares
--   and swaps (commit_transition), and Steps lets any other calls come between them.
-- Fleet.Placement: src/fleet/placement.ts.
-- Fleet.Rollout: src/fleet/rollout-strategy.ts and src/fleet/rollout-orchestrator.ts. The container
--   updater and the snapshot manager are a record of functions on a world, which answer what they like.
--   The loop over waves runs on fuel, the number of bots times one more than the strategy's number of
--   tries: a wave updates a bot at least, and a bot is left only while its strategy retries it.
-- Gateway.RateLimit: src/api/middleware/rate-limit.ts, its repository
--   src/api/drizzle-rate-limit-repository.ts and src/gateway/capability-rate-limit.ts.
-- Gateway.CircuitBreaker: src/gateway/circuit-breaker.ts and its repository
--   src/gateway/drizzle-circuit-breaker-repository.ts. circuit_breaker handles a request with no other in
--   between, which Window and Limit take for requests one after another; advance is one statement of the
--   database, which Race lets two requests take in turns.
-- Gateway.CreditGate: src/gateway/credit-gate.ts, on the ledger. The charge, computed in floating point,
--   is an argument, and a callback that is called is an event. debit_credits takes what other
--   transactions do between its debit and its reading of the balance as a function on the books.
--
-- Metering: Types are the events of src/metering/types.ts, Wal the file of src/metering/wal.ts, Dlq that of
--   src/metering/dlq.ts, Repository the table of src/metering/meter-event-repository.ts, and Emitter
--   src/metering/emitter.ts, whose methods are cut at their waits. Runs lets calls, timers, answers of the
--   database, failures and restarts follow one another in any order; a process ends between two of these
--   steps and not inside a write to the log. Wal also has the line that a crash cuts and remove_cut, a
--   removal with a crash inside its rewrite. Members, Failing, Batches and Spent are lemmas, and WalLaws,
--   Safe, Flush and Retries hold the results.
--
-- Tenancy: Slug is slugify and validateSlug on code units, Types and Repository are the tables of
--   src/tenancy/drizzle-org-repository.ts and src/tenancy/org-member-repository.ts, and Service is
--   src/tenancy/org-service.ts, one call at a time. Owned says what an organisation and its members have to
--   do with each other, Writes, Invites, OrgWrites and OrgChanges are lemmas on the writes, Guards,
--   Ownership and TokenSpent on the methods, and OrgRuns, InviteOnce and Slug.Laws hold the results.
--
-- Billing: Tokens is the arithmetic of src/billing/crypto/evm/config.ts on whole numbers, Charges the table of
--   src/billing/crypto/charge-store.ts, whose addresses are numbers of lower-cased texts. Settle is the
--   settlers of src/billing/crypto/evm and src/billing/crypto/btc, and Webhook is
--   src/billing/crypto/key-server-webhook.ts; both are cut in two between what they read and the credit, so
--   that others may run in between, and their callback only returns or throws. The tolerance of 0.98 is
--   compared exactly. ShopRuns lets settlements, calls on the charges and changes of the books come in any
--   order, Keyed is lemmas on the table, and the other modules hold the results.
--
-- Ids, hosts and other strings that are only stored or compared are numbers. An account code is
-- `Code.system n`, four digits, or `Code.tenant t` for `2000:<tenant>`, and tenants are numbered in the
-- order of their strings. A reference id has a constructor for each prefix that a caller builds. Random
-- ids and the clock's time are arguments, and one request or call reads the clock once. The ledger
-- locks the rows that it reads, which serialises its transactions, so one runs at a time. A difference
-- of times that is compared with a duration is written as a sum, since the numbers are natural.
--
-- Not modelled: floating-point dollars, the range of PostgreSQL integers, descriptions and other free
-- text, logging and metrics, pauses and time-outs, and the ledger's report queries. The rest of the
-- repository is clients of outside services, request parsing, SQL repositories and I/O.
pub mod Base
pub mod Credits
pub mod Fleet
pub mod Gateway
pub mod Metering
pub mod Tenancy
pub mod Billing
