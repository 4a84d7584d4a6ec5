-- ===== src/Lib.antt =====
-- CloudMesh: an LLM gateway with an API service, a job queue and the packages they share. This
-- library models the parts that decide: when a provider is called, how often, how many requests a
-- key may make, who may make them, which model answers, what it costs and what an organization may
-- spend, and what becomes of a job, of an event and of a delivery.
--
-- The circuit breaker (packages/circuit-breaker/src/circuitBreaker.ts) stands between the gateway
-- and each provider. Its state is a Redis hash that two Lua scripts read and write atomically.
-- CircuitBreaker.antt has that hash as the record `Circuit`, ATTEMPT_SCRIPT as `attempt`,
-- REPORT_SCRIPT as `report`, the overrides, and withCircuitBreaker over a store, where the call is
-- a function on the store, so that it may stand for whatever other callers do meanwhile.
-- CircuitBreaker/Invariant and Probe run sequences of scripts in every order, Trip counts failures,
-- and Call is about the wrapper.
--
-- Retries (packages/circuit-breaker/src/retry.ts) are Retry.antt: the loop of withRetry is
-- recursion on the attempts left, which is `maxAttempts` at the start, and the jitter is a number
-- of parts out of `unit`, so that delays are exact. The world that the call and the sleep change
-- is any type.
--
-- Resilience.antt is apps/gateway/src/lib/resilience.ts, which puts the two together for each call
-- of a provider, and Resilience/Settled is about its answer and its sample.
--
-- The rate limiter (packages/rate-limiter/src) is RateLimiter.antt and below it FixedWindow,
-- SlidingLog, SlidingCounter and TokenBucket, one for each file: a script is a function from what
-- Redis holds to what it will hold and the answer. Lua's fractions are written out over a common
-- denominator: the token bucket counts thousandths of a token times the denominator of the refill
-- rate. RateLimiter/Gate is the gateway's apps/gateway/src/middleware/requireRateLimit.ts, which
-- takes a key's plan to a token bucket and a refusal to a Retry-After header.
-- RateLimiter/Rejected adds the event of a refusal (lib/platformEvents.ts), whose slot in Redis
-- expires; Announced and Told say how often an organization is told.
--
-- Jobs (packages/jobs/src) are Jobs.antt: the table, the outbox, the queue and the published
-- progress are one `World`. Jobs/Queue has createJob and replayJob, Jobs/Worker the processor and
-- the `failed` listener of queue.ts, and a series of attempts is a list of the registries that
-- the attempts find, in order. Jobs/Rows has what one attempt does to its row; Jobs/Tenancy,
-- Jobs/Lifecycle and Jobs/Replay have the theorems.
-- Jobs/Handlers is apps/gateway/src/modules/jobs/handlers.ts, the two types of jobs that the gateway
-- has, and Jobs/Bills and Jobs/Billed what the attempts at a bulk chat job are billed.
--
-- Billing (packages/billing/src/budgetStatus.ts, apps/gateway/src/lib/billing.ts and billingLock.ts)
-- is Billing.antt: the budget status, the check before a provider call, the warning, and the Redis
-- lock that the check runs under, whose loop is recursion on the retries left. Amounts are whole
-- micro-dollars. Billing/Pricing has the prices (apps/gateway/src/lib/pricing.ts), Billing/Lock one
-- caller's use of the lock and what callers do together, and Billing/Budget follows an
-- organization's checks and bills. Billing/Usage has the usage record with its outbox event, and
-- Billing/Once its redeliveries. Billing/Stripe is apps/api/src/modules/billing/service.ts, where
-- Stripe's events change the invoices, and Billing/Invoices says how often. When a month begins is
-- not modelled.
--
-- Webhooks (packages/webhooks/src) are Webhooks.antt: deliver.ts from the endpoint's reply on, the
-- worker of queue.ts, and the row of a delivery, with the reply and the guard's verdict as
-- arguments. The guard is ssrf.ts: Webhooks/Ssrf has its rules for IPv4 addresses, where `&` with a
-- mask of upper bits clears the lower ones, Webhooks/Address the rest of it, from the text of a URL
-- on, and Webhooks/Ranges and Webhooks/Guard its theorems. Webhooks/Dispatch is the fan-out of an
-- event to an organization's endpoints (service.ts), whose calls may each fail, Webhooks/Endpoints
-- what else service.ts does with endpoints, and Webhooks/Targets, Ended, FanOut, Removal and Delivery
-- the theorems. Signatures are not modelled.
--
-- Events (packages/events/src) are Events.antt, the schemas and parseEvent, and Events/Bus, what is
-- published and what the pump of `subscribe` does with one message. Events/Subscribers and Notify are
-- the handlers of apps/gateway/src/modules/events/subscribers.ts, each a function on what it changes,
-- with the failure of the database, of Redis or of a mail as an argument. Numbers in JSON are
-- millionths, so that a cost in dollars is exact. Events/Audit is about one message to the audit
-- subscriber, AuditOnce about any deliveries, Analytics about the counters; Carried and Delivery put the
-- outbox, the bus and the audit log together, with JetStream's acknowledgements and its deduplication
-- as documented in Events/JetStream. Tenant.antt is withTenant (packages/db/src/tenant.ts), and
-- Json.antt the values of JSON.
--
-- Streams: Stream.antt is apps/gateway/src/lib/sse.ts, the readers of a provider's body, on lists of
-- code points; the `while` loop over the buffer takes the buffer's length as fuel, since every round
-- takes a newline away, and Stream/Chunks shows that this is enough. Stream/Events has the frames
-- that the chat route writes. The SDK (packages/sdk/src) is Sdk.antt, its request loop, and
-- Sdk/Reader, its reader of a stream. What `TextDecoder` and `JSON` do is an argument, the latter
-- with its laws as the record `Json` of Sdk/RoundTrip, where the gateway's stream meets the client.
--
-- The provider adapters (apps/gateway/src/providers) are Providers.antt and below it OpenAi,
-- Anthropic, Gemini and Ollama, one for each file, with the conversation's system prompt in Prompts
-- and lib/modelsCache.ts in Providers.antt. What `fetch` answers is an argument, and so is what
-- `JSON.parse` makes of a payload: the fields that the adapter's interface declares. Agreement,
-- Unbilled and Conversation have the theorems, which put an adapter's stream together with the
-- assembly of the chat route and the prices.
--
-- Routing is Routing.antt, the registry of apps/gateway/src/providers/registry.ts and index.ts, and
-- Routing/Select, which has apps/gateway/src/lib/routingScoring.ts, routing.ts and resolveModel.ts.
-- It peeks at the circuits of CircuitBreaker.antt. A score is an exact fraction where the source has
-- a float, and a random number is a number of parts. Routing/Ranked is about the sort, Routing/Split
-- and Shares about the A/B split, Scores about a score's terms, Resolved, Considered, Variants and
-- Decision about the answer. Flags.antt is apps/gateway/src/lib/featureFlags.ts, the flags with the
-- preset and the split, read from JSON values.
--
-- The chat route (apps/gateway/src/modules/chat/routes.ts) is Chat.antt and puts these together. Its
-- `ChatWorld` holds the stored results, the usage tables, the budget and what serves a request.
-- Chat/Dedup is lib/requestDedup.ts and Chat/Cache lib/semanticCache.ts; Chat/Answer is the part
-- without a stream, Chat/Streaming the part with one, and Chat/Route the handler, which calls
-- Billing and Routing. The call of a provider with its retries, hashes, embeddings, pgvector's
-- search and what others do meanwhile are fields of `Services` and `Gateway`. Chat/Hits is about the
-- answers of the cache, Chat/Contract and Chat/Replay are about every reply, Chat/CacheTenancy about whose rows the cache reads. Expiry in
-- Redis, failing writes, logs, metrics and reply headers are left out.
--
-- Authentication is Auth.antt, the resolution of an API key (packages/auth/src) with the creation
-- and revocation of keys (apps/api/src/modules/apiKeys/service.ts), and Auth/Sessions, the sessions
-- of apps/api/src/modules/auth/service.ts. Hashes, signatures and passwords are arguments. Auth/Keys
-- and Auth/Rotation run the operations one after another, each as one step; Auth/Tests has a run in
-- which a resolution and a revocation overlap.
--
-- Outbox.antt is the poller of packages/outbox/src/outbox.ts, one poll as recursion on the rows with
-- the batch size as what is left to take; Outbox/Given says what the publisher gets, and Outbox/Poll
-- counts what is pending. The publisher is an argument, which Events/Carried fills.
--
-- Redis and the database are not code of the repository. Where the model reads or writes by key
-- they are the interface `KeyValue` of Common/KeyValue.antt, with the laws that a write is seen
-- under its key and nowhere else; `memory` meets them. Row-level security and the `orgId` of each
-- query are the function `visible`. A script or a transaction is one step, as Redis and the
-- database document it. Clock readings are arguments and need not grow unless a theorem says so.
--
-- Not modelled: the network, the HTTP framework, the dashboard and the Python SDK, logs, metrics
-- and traces, failing connections, JSON texts (a payload is one text), and listJobs. The
-- mock provider, embeddings and mail have no module here.
pub mod Auth
pub mod Billing
pub mod Chat
pub mod CircuitBreaker
pub mod Common
pub mod Events
pub mod Flags
pub mod Jobs
pub mod Json
pub mod Outbox
pub mod Providers
pub mod RateLimiter
pub mod Resilience
pub mod Retry
pub mod Routing
pub mod Sdk
pub mod Stream
pub mod Tenant
pub mod Webhooks
