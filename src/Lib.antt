-- ===== src/Lib.antt =====
-- A verification of the checkout orchestrator: a hybrid of two-phase commit and sagas over NATS and Redis,
-- with the services that it coordinates.
--
-- Parts and files (paths from the repository's root):
--   Base                    numbers, Boolean tests, lists, signed integers (Base.Int), code points (Base.Text),
--                           Python's dict and Redis' hashes and sets as association lists (Base.Dict), `split`,
--                           `rsplit`, `strip` and `join` (Base.Split), `str` and `int` of numbers (Base.Decimal),
--                           and loops that try something a number of times (Base.Retry)
--   Config                  common/config.py: the environment and the Redis connections; Config.Waiting is
--                           `wait_for_redis`, Config.Failover `subscribe_failover_invalidation`
--   Results                 common/result.py: `wait_for_result`
--   Batches                 the loop of the three `batch_init_users`, in chunks
--   Orchestrator.Value      the values in contexts, payloads and log data
--   Orchestrator.Definition orchestrator/definition.py
--   Orchestrator.Transport  orchestrator/transport.py, and the environment of a run: the services behind
--                           `send_and_wait`, the clocks, `sleep`, and whether the dead letter stream is up
--   Orchestrator.Wal        orchestrator/wal.py: `log`, `log_terminal`, `get_incomplete_sagas`
--   Orchestrator.System     common/dlq.py (`write_to_dlq`), and the state that a run threads: the log, the
--                           dead letters, the breakers and the world, with a trace for the proofs
--   Orchestrator.Breaker    orchestrator/executor.py, CircuitBreaker
--   Orchestrator.Executor   orchestrator/executor.py, _BaseExecutor
--   Orchestrator.TwoPhase   orchestrator/executor.py, TwoPCExecutor
--   Orchestrator.Saga       orchestrator/executor.py, SagaExecutor
--   Orchestrator.Metrics    orchestrator/metrics.py; Metrics.Exposition is `prometheus_lines` and the `metrics`
--                           endpoints of the services
--   Orchestrator.Core       orchestrator/core.py: `execute`, `_select_protocol`
--   Orchestrator.Recovery   orchestrator/recovery.py; Recovery.Worker is its background task
--   Orchestrator.Leader     orchestrator/leader.py
--   Nats                    common/nats_transport.py: `send_and_wait` of NatsOrchestratorTransport;
--                           Nats.Connection is NatsTransport and _JsMsgAdapter
--   Faults                  common/fault_injection.py; Faults.Settings the environment and `get_faults`
--   Stock                   stock/app.py and lua/stock_*.lua: the scripts; Stock.Commands is the handler of
--                           commands, Stock.Expiry a prepare whose locks' time to live is not
--                           positive, Stock.Items the endpoints for items
--   Payment                 payment/app.py and lua/payment_*.lua: the scripts; Payment.Commands is the handler of
--                           commands, Payment.Expiry as for the stock, Payment.Users the endpoints
--                           for users
--   Order                   order/app.py and lua/order_*.lua: the checkout transaction, its payloads and its
--                           context; Order.Store is the database, Order.Checkout the endpoint `checkout`,
--                           Order.Endpoints the other endpoints, Order.Monitoring `health` and `dlq_status`,
--                           Order.Leadership `_leadership_loop`, and Order.Service the steps of checkouts that interleave
--   Shop                    the orchestrator and both services behind `send_and_wait`, where nothing is lost;
--                           Shop.Contract is what a checkout promises, by either protocol
--   Repeat                  what the scripts of both services share when they are run a second time
--   Tests                   runs at concrete inputs, and each theorem applied at one
--
-- The parts interact as in the code: Core chooses a protocol by the breakers and the metrics and runs
-- TwoPhase or Saga; both send through Executor, which teaches the breakers, logs to Wal before it acts and
-- gives up to the dead letter queue; Recovery reads Wal and finishes what a crashed leader began.
--
-- A checkout is split at its awaits: `begin` claims the order and plans what comes next, and what is left
-- is done at a later state of the database. Order.Service is the relation of the steps between, where each
-- step is one request's, or an item that is added, or time that passes.
--
-- The services answer those commands: a Lua script is one function of the whole state of a service, since
-- Redis runs it alone, and an error that Redis raises is `none`, beside what was written before it.
--
-- State is passed explicitly, as a record `Sys W` over any type of worlds `W`; an environment `Env W` says
-- what the services answer, how time passes and whether the dead letter stream works. It is any
-- environment, except in Shop, where it is that of the modelled services. Exceptions are values (`Response.raised`,
-- `Attempt.error`, or `none` for the one that a missing dict raises in the recovery). Times are whole
-- milliseconds, in Order whole seconds. `asyncio.gather` runs its sends in the order of the list, all of
-- them before any answer is looked at. A trace of effects (states logged, commands sent with their
-- answers, steps given up) is kept beside the state, newest first; no operation reads it, and the
-- protocols are automata over it.
--
-- Bounds: the retry loops are structural in the number of attempts that are left, 15 in the executor
-- (MAX_VERIFIED_RETRIES) and 30 in the recovery (MAX_RECOVERY_RETRIES), and 1 or 6 in `send_and_wait`,
-- which are the code's own bounds, so no fuel is added; the loops of Base.Retry are in the number of
-- attempts. The loop of the batches is on fuel, and as many rounds as there are keys are enough. Loops
-- without end (`_pubsub_listener`, `_reconciler`, `_leadership_loop`, the heartbeat) are functions of the
-- sequence of what they get to see. The rates of the metrics are compared by
-- products of whole numbers; the test of a percentile, which is on floats, is a parameter.
--
-- Not modelled: logging and tracing; the text of the Prometheus lines, which are values; the trimming of
-- the audit stream and of the dead letters at their bounds; the expiry of keys of the services (that of a
-- claim is modelled); HTTP routing, the `lifespan` functions; common/db.py, which no service uses; the
-- future of a reply inbox; a Redis error while a saga's state is logged; the bounds of Redis's 64-bit
-- integers, in whose place numbers are unbounded. Redis, Sentinel, the NATS server and random choices are
-- parameters; JSON values are data. The deployment files, the script docs/benchmark_chart.py and the TLA+
-- models are left aside. A crash is a log that ends in a state that is not terminal, which Recovery starts
-- from, or a checkout that is dropped (`crash` of Order.Service).
pub mod Base
pub mod Orchestrator
pub mod Tests
pub mod Faults
pub mod Stock
pub mod Nats
pub mod Order
pub mod Payment
pub mod Repeat
pub mod Config
pub mod Results
pub mod Batches
pub mod Shop
