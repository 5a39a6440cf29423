-- ===== src/Lib.antt =====
-- The server of syrotp: verification of phone numbers by an SMS that the user sends.
--
-- An app starts a verification of a phone number. The user is told a number (a receiver's) and a
-- text (`VERIFY <code>`), and sends it; a gateway hands the inbound SMS to the server, which matches
-- it with the pending verification. A phone can be verified for an app only after a binding
-- ceremony with that app, which is a message of the same kind (`BIND <nonce>`). A verification that
-- ends, by a match, an expiry or a cancellation, emits an event, which goes to the endpoints that
-- the app has registered by a worker with leases and retries.
--
-- The files, and the code that they are about, under apps/server/src where no package is named:
--   Errors        lib/errors.ts, with the unique violations of the database, as values
--   Schema        db/schema.ts: a record for each table, and the database `Db`
--   Runtime       config.ts (the settings in use), lib/ids.ts, and what no file implements
--   Phone         lib/phone.ts: normalizePhone, maskPhone
--   Webhook       services/webhooks.ts: the endpoints, buildVerificationEventData,
--                 emitVerificationEventInTx, nextRetryDelaySeconds; Webhook/Secrets: the secret of
--                 an endpoint, how it is wrapped, and signDeliveryBody
--   Extract       extractCode of services/matching.ts, extractBindNonce of phoneBindings.ts
--   Verification  services/verifications.ts: lazyExpireAndEmit, getVerification,
--                 cancelVerification; Verification/Start: startVerification with pickReceiver and
--                 runWithCodeCollisionRetry; Verification/Hosted: the reads of the hosted page
--   Binding       services/phoneBindings.ts: startBinding, revokeBinding, consumeBindNonce
--   Matching      services/matching.ts: processInbound
--   Worker        services/webhookWorker.ts: claimBatch, deliver, applyOutcome, one tick
--   Crypto        lib/crypto.ts over node:crypto; Redis: the commands that the services send
--   Gateway       services/hmac.ts: verifyGatewayHmac, with the nonces held in Redis
--   RateLimit     services/rateLimit.ts: rateCheck
--   ApiKeys       services/apiKeys.ts, plugins/auth.ts: lookupApiKey, requireKey
--   Passkeys      services/webauthn.ts: challenges, registration, login
--   Address       lib/ssrfGuard.ts: the blocked ranges; Address/Guard: assertWebhookUrlSafe,
--                 buildSafeAgent, validateUrl and isUrlAllowedForDelivery
--   Routes        routes/inbound.ts, routes/verifications.ts, routes/phoneBindings.ts (Bindings) and
--                 routes/webhooks.ts (Endpoints): the guards before the services; Routes/Answers:
--                 plugins/errorHandler.ts; Tenants, Steps and Isolated: what calls leave of an app
--   Admin         admin/receivers.ts: addReceiver, disableReceiver, enableReceiver; Admin/Listed:
--                 listReceivers
--   Aead          lib/aead.ts: wrap and unwrap
--   Abuse         services/abuseSignals.ts: the aggregates and their merge in computeSignals
--   Controller    packages/web-component/src/controller.ts: VerificationController
--   Sdk           packages/sdk-js/src/index.ts: the client, waitForVerification
--   Cli           packages/cli/src/argv.ts: parseTopLevel, parseFlags
--   History       the transactions on verifications, bindings, messages and events as steps of one
--                 database
--   Prelude, Tables  lists as tables and the lemmas that the parts share
--   Tests         concrete data and examples
--
-- How the code is modelled:
--   * A function keeps its source's name in snake case. A table is a list of rows in the order of
--     their insertion; an operation takes the database and returns it with its answer. A query
--     without an order takes the first row that fits.
--   * A transaction is one step, since Postgres makes it atomic; the advisory lock and
--     FOR UPDATE SKIP LOCKED then have nothing to do. The unique indexes on verifications, inbound
--     rows and bindings are tests of the insert or the update; the keys of the events, deliveries
--     and endpoints are taken to be fresh. Foreign keys appear where they cascade.
--   * A text is the list of its UTF-16 code units. A time is a number of milliseconds, and where
--     the source prints it by `toISOString` the number stays. One reading of the clock serves the
--     whole of an operation, but for those that take a second one as an argument; Redis
--     reads the same clock.
--   * The results of ulid(), generateCode, generateNonce, randomBytes and of the clock are
--     arguments. JSON.stringify, toUpperCase, toLowerCase, Number, the digests and the UTF-8 encoding
--     of node:crypto and Buffer, libphonenumber-js, @simplewebauthn/server, the URL parser, isIP, the
--     resolver and fetch are parameters, and so is unwrap. Of toUpperCase and of UTF-8 it is assumed
--     that they treat ASCII as documented. `Webhook` and `Worker` take the checks of a URL and the
--     signature as arguments; `Address/Guard` defines these checks.
--   * The replies of Redis come, but where `rateCheck` is told that they do not. A body is what its
--     schema reads, and the lengths and patterns of the schema are checked in the model.
--   * The requests of a page, its timers and the calls of its functions are events; a function that the
--     page gives neither throws nor calls the controller. A time that a client prints or parses is a
--     number here too. The rounds of `waitForVerification` are given by a function, and its fuel is two
--     more than the intervals in the timeout; the times of its calls are returned with its answer.
--     `Aead` has the cipher and base64 as parameters.
--   * The expiry that a read starts in the background is taken to succeed, after the read.
--   * `retry_from` counts the rounds of the collision loop down from the source's bound. `decimal`
--     has as fuel one more than the number, which is more than it has digits.
--   * A step of the worker in `History` may replace the deliveries by any others, and one of the
--     operators the receivers.
--
-- Not modelled: the routes of passkeys, health and metrics, the plugin for raw bodies, the first
-- set-up of an app and the probe of a receiver (admin/bootstrap.ts, admin/probe.ts), the admin and
-- hosted pages,
-- the metrics, gauges and the audit log (nothing reads them back), the rates and scores of the abuse
-- signals, which are floating point numbers, the parsing of the environment, the migrations, the
-- commands of the command line, the rendering of the packages for pages, the load test, and the
-- gateways and SDKs in other languages.
pub mod Prelude
pub mod Tables
pub mod Errors
pub mod Schema
pub mod Runtime
pub mod Phone
pub mod Webhook
pub mod Extract
pub mod Crypto
pub mod Redis
pub mod Aead
pub mod RateLimit
pub mod Gateway
pub mod Address
pub mod ApiKeys
pub mod Passkeys
pub mod Controller
pub mod Sdk
pub mod Cli
pub mod Abuse
pub mod Admin
pub mod Verification
pub mod Binding
pub mod Matching
pub mod Worker
pub mod Routes
pub mod History
mod Tests
