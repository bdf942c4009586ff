-- ===== src/Lib.antt =====
-- Genesis Reserve: verification of the treasury backend (apps/api) and of the card service of the web
-- application (apps/web).
--
-- The backend keeps a double-entry ledger in PostgreSQL, screens transfers, quotes and pays out
-- remittances, reserves funds in a vault contract, and takes events of the payout provider. Each
-- part below is a module with the data and operations of one source file; its children hold more
-- operations or what is proved of them.
--
-- - Base: numbers (the native ℕ, and bigint as ℤ on it), lists, SQL's LIKE, JSON values.
-- - Effect (apps/api/src/config/db.ts): a method takes a `World`, the tables and a list that says
--   which statements fail, and gives an `Outcome`, a value or a thrown error with the world left
--   behind. `query` is one statement, `with_transaction` is withTransaction, and `around` is
--   withTransaction about statements that go past its client. Atomic, Always, Leads and Succeeds carry
--   a property through these.
-- - Database (apps/api/db/migrations): the rows. A unique key, a check and a foreign key are a
--   refusal of the statement that would break them.
-- - Ledger (apps/api/src/ledger/ledger.service.ts): Posting is postEntry with the hash chain and
--   _updateBalanceSnapshot, Accounts is getAccountLedger, History is getEntries and exportISO20022,
--   Reconcile is reconcile, Orders holds the account and order helpers. Books states what the ledger
--   promises and Books.Kept shows it.
-- - Compliance (apps/api/src/treasury/compliance.service.ts): the gates; Screens has screenDeposit,
--   screenTransfer and submitTravelRule, Status has getAccountStatus.
-- - Webhooks.ZeroHash (apps/api/src/webhooks/zerohash.webhook.ts): the statements; Handler has the
--   signature check and zeroHashWebhookHandler. Terminal and Delivery follow an order through any
--   deliveries, Answers says what one delivery comes to.
-- - Webhooks.Onfido and Webhooks.Chainalysis (apps/api/src/webhooks/onfido.webhook.ts and
--   chainalysis.webhook.ts): the receivers of identity checks and of alerts, on the state of
--   Webhooks.Users; Verified and Suspended say what a delivery comes to, and the two Gate modules what
--   Compliance then decides; Webhooks.Returning says that both answer.
-- - Remittance (apps/api/src/treasury/remittance.service.ts): corridors and getFXQuote; Payout has
--   executePayout; Fees bounds the fees.
-- - Treasury (apps/api/src/treasury/treasury.service.ts): the map of idempotency keys; Reserve has
--   reserveFunds and buildQuote, Idempotency and Sound what holds of them, Accounts has
--   activateAccount and updateTreasuryMode, Orders has createOrder and Orders.Unstored a case in
--   which it never returns.
-- - Reconciliation (apps/api/src/reconciliation/reconciliation.service.ts): reconcile and
--   expireStuckReservations; Judged and Returning say what a run reports and that it returns, Expiry
--   what the expiry does.
-- - Web (apps/web/src/app/api/gr): RequestControls is _lib/request-controls.ts, the limiter of requests
--   and the cache; Limits and Cache follow them through any calls. Js has the values of JSON texts and
--   what JavaScript does with them. Cards is _lib/card-service.ts on its store in memory: Issuing and
--   Controls hold cardholders, cards, authorizations and disputes, Linking the linked debit cards,
--   Funding and Payouts the money from and to these, Signature and Processor the webhook. Requests has
--   withIdempotency and the operations, Routes the requests. Events and Moves say which events are taken
--   and what they do; Routes.Final and Routes.Replay follow cards and answers through any requests.
-- - Tests: the theorems at concrete inputs.
--
-- How they meet: Treasury calls Compliance, Ledger and Remittance on one state of tables; Remittance
-- and the webhook write the orders and publish to one list of events. The web application is another
-- process; its card service calls the Stripe and Circle adapters, and while it waits for these, for the
-- body of a request or for the end of a handler, other requests run on the same store: a request of
-- Web.Cards.Routes holds the requests that are served in each of its waits.
--
-- No definition runs on fuel: loops are over lists. The statements of one method run in the order of
-- the source; those of a Promise.all run one after another. Times, drawn texts, new row ids, answers
-- of the vault, of the compliance registry, of the Zero Hash adapter and of the rate source are inputs. SHA-256, HMAC, keccak256,
-- upper and lower case, floating-point arithmetic and reads of numbers from texts are parameters, and
-- nothing is assumed of them. So are the answers of Stripe and Circle, and what makeId draws, of which a
-- theorem says where it must not draw an id that is in use.
--
-- The columns of the ledger refuse what they cannot hold: numbers of more than 36 digits, currencies of
-- more than four characters. The order that the server gives to rows of one time is a parameter. A COMMIT
-- that fails counts as a rollback, so a connection that is lost after the server has committed is not
-- followed; nor is createOrder with the id of a quote under which the answer of a reservation is stored,
-- which is taken to throw at once, nor the windows of the limiter while a request waits.
--
-- Not modelled: columns that no operation reads, logs, getRevenueReport, finalizeOrder of the
-- treasury, the contract event bridge, the yield engine, sign-in, the
-- server's routes, the card service's listings, its rate headers and its paths with
-- a database (card-db.ts), the adapters, and the pages of the web application.
pub mod Base
pub mod Effect
pub mod Database
pub mod Ledger
pub mod Compliance
pub mod Remittance
pub mod Treasury
pub mod Reconciliation
pub mod Web
pub mod Webhooks
pub mod Tests
