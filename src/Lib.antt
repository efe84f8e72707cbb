-- ===== src/Lib.antt =====
-- Models of the parts of OriJS that carry its own logic, and theorems about them.
--
-- - JsMap: the JavaScript `Map` and `Set`, on which all the state below is kept.
-- - Workflow (packages/workflows/src/in-process-workflow-provider.ts): the execution of a workflow's
--   step groups with rollbacks (`run_groups` is the loop of `executeDefinitionWorkflowInternal`,
--   `run_sequential` and `run_parallel` are the two kinds of group, `run_rollbacks` is
--   `runRollbacks`). Workflow/Pool is `executeWithConcurrencyLimit` as a step relation;
--   Workflow/Flow is the state of one flow with its timer and promise; Workflow/Provider is the
--   class with its flows, in a store because handles and timers share a flow's state. A group's
--   steps run through the pool, a flow's end comes from `run_groups`, and the provider holds flows.
-- - Container (packages/core/src/container.ts): registration, `resolve`, and in Container/Async the
--   synchronous phase of `resolveAsync`. The constructors of services are a parameter.
-- - Validator (packages/core/src/dependency-validator.ts): `validate`, and `detect_cycles` for the
--   depth-first search. It reads the registrations of a Container.
-- - Duration (packages/cache/src/duration.ts).
-- - Cache/Singleflight (packages/cache/src/singleflight.ts) and Cache/Store
--   (packages/cache/src/in-memory-cache-provider.ts).
-- - Cache/Service (packages/cache/src/cache.ts) over Cache/Store, with Cache/Keys for the cache keys of
--   packages/cache/src/key-generator.ts: `look_up` and `conclude` are the two halves of the body of
--   `getOrSet`. The hash is an argument.
-- - Idempotency (packages/events/src/event-idempotency.ts).
-- - Completion (packages/bullmq/src/events/completion-tracker.ts), without the queue events.
-- - Websocket (packages/websocket/src/in-proc-provider.ts and validation.ts).
-- - RedisWebsocket (packages/websocket-redis/src/redis-websocket-provider.ts): the same indices with
--   the subscriptions at Redis. `subscribe_with_retry` sends a request; its answer is
--   `on_subscribed` or `on_subscribe_failed`, and `on_unsubscribed` is the end of
--   `unsubscribeTracked`. RedisWebsocket/Steps has the steps, with the channels to which Redis has
--   subscribed the connection, and with `resubscribeAll` after a reconnection.
-- - SocketClient (packages/websocket-client/src/client.ts): State has the fields, Backoff the class
--   of that name, Calls the methods, and Events the handlers of the socket, the timers, the network
--   and the page; `handle_all` is a run.
-- - Requests (packages/core/src/controllers): Context is the state of one request (`json`, `text` and
--   `guards` of request-context.ts), Validation and Pipeline are request-pipeline.ts (`fast_path` and
--   `full_path` are the two handlers that `createHandler` makes), Params the checks of parameters, and
--   Response the responses of response.ts. Guards, interceptors, handlers and validators are functions
--   on the context.
-- - Logging (packages/logging/src/log-buffer.ts): the buffer between loggers and transports. A
--   transport is what it logs itself while it is given an object; `Json` is the platform's serialiser,
--   with what it leaves of an object and where it throws.
-- - Events (packages/events/src): Subscription is event-subscription.ts, Delivery the registry, the
--   delivery and the state of the in-process provider, and Provider its operations in
--   in-process-orchestrator.ts. `fire` and `finish` are the ends of timers and handlers.
-- - Bullmq (packages/bullmq/src/workflows/bullmq-workflow-provider.ts): what the executing instance
--   keeps of its flows. `existing_handle`, `prepare`, `register_pending_result`, `discard` and
--   `mark_running` are parts of `executeDefinition`, which awaits between them; the operations whose
--   names start with `on` are the handlers of the queue's events and of timers, cut where they await.
--   Bullmq/FlowBuilder is packages/bullmq/src/workflows/flow-builder.ts.
--
-- Time is an argument: each operation that reads the clock is given the time. A promise that has
-- not settled is part of the state, and its end is a step of its own, so that interleavings are
-- sequences of steps. Exceptions and rejections are values.
--
-- Bounds: `resolve` and `resolveAsync` recurse on fuel, two more than the number of registered
-- services: each level adds a registered service to those being resolved, and none is there twice.
-- `detect_cycles` has the same fuel for the same reason, and `decimal` as much as the number.
-- Everything else recurses on lists, or on the index of a loop. Numbers are natural, and a difference of two
-- times that would be negative is 0, which no comparison with a time to live tells apart.
--
-- Not modelled: loggers, propagation metadata and the texts of errors; the wait in `resolveAsync`
-- and what follows it; meta keys and cascade invalidation of the cache service, and its
-- use of the singleflight; the timeout of `toPromise`; the query string, trace identifiers and
-- event streams of requests; loggers beyond their buffer; the steps and workers of the BullMQ
-- provider; the payloads of messages between processes, and the registration of handlers; Redis,
-- BullMQ and Bun, which the other packages call; and the packages that no module is named after.
pub mod Common
pub mod JsMap
pub mod Logging
pub mod Workflow
pub mod Container
pub mod Bullmq
pub mod Cache
pub mod Websocket
pub mod SocketClient
pub mod RedisWebsocket
pub mod Events
pub mod Idempotency
pub mod Completion
pub mod Duration
pub mod Validator
pub mod Requests
