-- ===== src/Lib.antt =====
-- A model of the services of the Ulmara backend: internal transfers, transfers that the client signs,
-- the PIN lockout, verification codes, the naira ramp, the transaction worker, payment requests,
-- wallets, contacts, account ids, sessions and their tokens, the naira providers with their webhooks,
-- the token registries, the mail services, and what clients and the error tracker see of an error.
--
-- The parts and their files.
--
-- Common (Tests, Tables, Strings): Boolean tests on numbers, database tables as lists of rows with the
-- operations of the Prisma client that the services call, texts as lists of code points.
-- World (Rows, Monad, Services): the state that all services share. `Db` has one field for each table of
-- prisma/schema.prisma that they use, the verification codes in Redis, the job queues and the clock. An
-- operation is a function from a state to a result and a state; a thrown error keeps what was written
-- before it. `Env` has what the services call and the model leaves open: bcrypt, the HMAC, ethers and
-- the queue, the network clients of src/chains, src/services/ramp/providers and src/services/email, and
-- settings. Its field `others` says what other requests commit while an operation waits, so that a race
-- is a choice of `others`.
-- Money: src/utils/money.ts, assertValidNgnAmount of src/services/ramp/providers/types.ts, and
-- normalizeAmount of src/services/transaction/transaction.service.ts.
-- Lockout: src/services/auth/pinLockout.service.ts. Its compare-and-swap loop runs on fuel `rounds`, the
-- number of rounds that other requests may win; in the last round nobody else runs.
-- Otp: src/services/auth/verificationCodeStore.ts, the two Lua scripts included.
-- Transfer (Send, Broadcast): src/services/transaction/transaction.service.ts, and verifyAddressExists
-- of src/blockchain/triverify.ts. A send asks Lockout for the PIN; a broadcast queues a job for Worker.
-- External (Verify, Prepare, Submit): src/services/transaction/externalTransfer.service.ts. It shares the
-- PIN check, the ledger and the queue with Transfer.
-- Worker: src/jobs/transaction.worker.ts, which consumes the jobs of Transfer and External.
-- Ramp (Start, Webhook, Reconcile): src/services/ramp/ramp.service.ts and src/jobs/ramp.worker.ts.
-- Ramp/Lifecycle has an abstract ledger, a status for each reference, and what its steps are.
-- Provider (Bitnob, YellowCard, Select): src/services/ramp/providers. `RampProvider` is the interface of
-- the source and a record here; each adapter fills it. An operation keeps the log of its requests, and
-- what `fetch` answers may depend on that log. Json holds the JSON values that the adapters read.
-- Provider/Reconciled puts an adapter's `getStatus` behind the reconciliation of Ramp.
-- Delivery: `webhook` of src/controllers/ramp.controller.ts, from the raw body through a provider to
-- handleWebhook of Ramp.
-- Email (Ses, Select): src/services/email, whose adapters make requests as those of Provider do.
-- Payment: src/services/payment/payment.service.ts.
-- Wallet: registerWallets of src/services/wallet/wallet.service.ts.
-- Contact: src/services/contact.service.ts.
-- Account: src/services/account/account.service.ts, whose loop makes at most five attempts, as the
-- source's does.
-- Auth (Pin, Sessions, Access): sign-up, login, verification of an email or a phone, the PIN operations
-- and the sessions of src/services/auth/auth.service.ts, and requireAuth of
-- src/middleware/auth.middleware.ts.
-- SessionToken: src/config/jwt.ts. Response: handleError of src/utils/apiResponse.ts and errorHandler of
-- src/middleware/error.middleware.ts. Tokens (Seeds, Spl): src/chains/tokens/registry.ts and
-- src/chains/solana/tokens.ts. Scrub (Clean, Credential, Fuel): scrubSentryEvent of src/config/sentry.ts
-- on JSON values and instances of Error; its replacement of credentials runs on fuel, one more than the
-- number of characters, and each round uses up at least one.
-- Solana: src/chains/solana/spl.ts, where a `bigint` is an integer of this model and a buffer a list of
-- bytes. Socket: src/websocket/socket.handler.ts, which asks SessionToken's check and the session rows,
-- as Auth's requireAuth does.
-- Sample: a concrete state and environment, on which each component's Tests run.
--
-- Functions keep the source's names in this language's spelling: `assertPinAuthorized` is
-- `assert_pin_authorized`. Ids, tokens, hashes of transactions and idempotency keys are numbers, since
-- the services only compare them; times are milliseconds; a stored amount is the text that the decimal
-- column prints. An interactive database transaction is one step, but for the wait that a race needs.
-- Where an operation has no wait between two of its calls, no other request is taken to run there; the
-- PIN check, a broadcast, a send and the verification codes have a wait before each call that a race
-- needs.
--
-- Text is treated as ASCII where its case or its spaces matter. A table that the source reads as
-- `TABLE[key]` is read by its own keys, so a key such as "constructor", which every object of the
-- language answers, is a missing key here.
--
-- Not modelled: account deletion, which is left for later; the chain adapters,
-- which are network clients; the texts of mails; the other controllers, the routes, the rate limits and the
-- documentation of the routes, which are glue and settings; log lines and events to clients; and
-- columns that no modelled operation reads.
pub mod Common
pub mod World
pub mod Money
pub mod Lockout
pub mod Otp
pub mod Transfer
pub mod External
pub mod Ramp
pub mod Worker
pub mod Payment
pub mod Wallet
pub mod Contact
pub mod Account
pub mod Auth
pub mod Sample
pub mod Json
pub mod Response
pub mod SessionToken
pub mod Tokens
pub mod Scrub
pub mod Socket
pub mod Solana
pub mod Provider
pub mod Delivery
pub mod Email
