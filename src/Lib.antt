-- ===== src/Lib.antt =====
-- Verification of grelmicro: the in-process adapters, and the logic over them that decides.
--
-- grelmicro gives services locks, leader election, schedules, circuit breakers, rate limiters,
-- retries, caches, idempotency, health checks and an outbox. Most are a front end over an adapter
-- that keeps the state: in this process, or in a database. The models are of the in-process
-- adapters, which fix what the front ends and the tests rely on, and of the front ends whose
-- decisions are their own.
--
-- The parts, and the code each file is about:
-- - Coordination.Lock, .Schedule, .Leader: MemoryLockAdapter, MemoryScheduleAdapter and
--   MemoryLeaderElectionAdapter of grelmicro/coordination/memory.py. The state of each is the dicts
--   of the class; acquire, release, owned, claim and acquire_or_renew are the methods of these names.
-- - Coordination.Election: LeaderElection of grelmicro/coordination/leaderelection.py over
--   Coordination.Leader. Election.System has any number of workers; a call of the backend and the
--   arrival of its answer are two events, between which others may come.
-- - Task.Expression, Task.Calendar: the cron expressions of grelmicro/task/_cron.py, from the text of
--   a field to the search for the next and the previous time.
-- - Task.Cron: CronTask of the same file, over Coordination.Schedule. What a worker reads and what it
--   claims are two events, so that other workers come in between.
-- - Outbox: MemoryOutboxAdapter of grelmicro/outbox/memory.py, one definition for each method.
--   Outbox.Registry: the handlers of grelmicro/outbox/_registry.py. Outbox.Relay: the dispatch of
--   grelmicro/outbox/_relay.py over both; Relay.Pool and Relay.Slots are its claims and free slots.
-- - Idempotency: the blocks of grelmicro/idempotency/_idempotency.py over a cache backend; a request
--   enters and leaves in two steps, so that duplicates come in between.
-- - Circuit: the consecutive-count strategy of grelmicro/resilience/circuitbreaker/memory.py.
--   Circuit.Observe is the abstract view, one circuit for each name without expiry or culling;
--   Circuit.Front is CircuitBreaker of grelmicro/resilience/circuitbreaker/__init__.py, which calls
--   the strategy and keeps a copy of its last snapshot.
-- - Retry: the loops of grelmicro/resilience/retry.py, as a function and as a block of attempts.
--   Backoff: the strategies of grelmicro/resilience/backoffs/.
-- - RateLimiter.TokenBucket, .SlidingWindow: MemoryTokenBucket, _MemoryTokenBucket and _MemoryGCRA
--   of grelmicro/resilience/ratelimiter/memory.py.
-- - Cache.Memory: MemoryCacheAdapter of grelmicro/cache/memory.py; Cache.Sets are Python's sets.
-- - Cache.Ttl: TTLCache of grelmicro/cache/ttl.py, over the interface Cache.Backend, which stands for
--   the protocol of grelmicro/cache/_protocol.py and is filled by Cache.Memory.
-- - Shield.Budget, .Estimator: _RetryBudget and _TimeoutEstimator of grelmicro/resilience/shield/.
-- - Bulkhead: Bulkhead of grelmicro/resilience/bulkhead.py.
-- - Health: HealthChecks of grelmicro/health/_checks.py; Health.Flight is the single flight of a
--   check, for rounds that ask for it at once.
-- - ClientIp: the client address behind trusted proxies, of grelmicro/clientip.py.
-- - Dict is Python's dict with its insertion order; Text has the operations on texts that the parsers
--   use; Clock holds the units of time; Prelude has the shared names, the Boolean tests and the
--   lemmas on lists.
--
-- State is passed: an operation takes the state and returns it with its result. A method that holds
-- a lock, or that has no await in it, is one step. Each reading of the clock is an argument of the
-- operation, and theorems over time say in their hypotheses in which order the readings come. A
-- duration or an instant is a whole number of a unit that each file names; the units are as small
-- as the configured values need, so that the rounding of Python's floats is what is left out.
-- A random number is an argument of the call that draws it. The clocks of the workers of an election
-- and of its backend are taken to run alike.
--
-- What is not of this repository is an argument: the parser of IP addresses, the decoding of payloads
-- and the handlers of the outbox, the matcher and the strategy of a retry, what a health check does.
--
-- Loops over a list recur on the list. The loop of the Fibonacci strategy recurs on the number of
-- its rounds, which is the difference of the attempts it goes between, and that of a retry on the
-- attempts left. The two searches of the cron expressions recur on fuel; the theorems on them say
-- that the number of minutes up to the limit of the source is enough.
--
-- Not modelled: the adapters of databases and clusters, whose operations are SQL and Lua that run
-- elsewhere; serialization; logs, metrics and traces; the application and its configuration; the
-- loops that sleep, and waiting on asyncio's primitives. The front ends of the locks, the recompute
-- of cached values and the adaptive gate are not modelled either.
pub mod Prelude
pub mod Dict
pub mod Clock
pub mod Text
pub mod Circuit
pub mod Coordination
pub mod Outbox
pub mod RateLimiter
pub mod Bulkhead
pub mod Cache
pub mod Task
pub mod Backoff
pub mod Shield
pub mod Retry
pub mod Health
pub mod Idempotency
pub mod ClientIp
