-- ===== src/Lib.antt =====
-- A model of OneGl's core: which account may run, how a batch of prompts is drawn, queued and
-- settled, which locks and which proxy exit a run gets, and how risky the present operation is.
--
-- The parts and their files. A batch's prompts are drawn and handed to accounts (Sampling, from
-- src/sampling/random.js and src/sampling/sample.js) and the batch is enqueued (Batch/Row, from
-- src/queue/batches.js and src/queue/batch-control.js). For each job the worker asks for a verdict
-- on the account: Account/Classify is `classifyAccountState`, Account/State the row that it reads,
-- Account/Clock the account's day, all from src/accounts/safety.js, with the adapters of
-- src/providers/index.js in Providers. A job whose account cannot run is delayed or skipped
-- (Batch/Plan, from src/queue/job-plan.js and `handleJob` of src/worker.js). Otherwise it takes a
-- lease (Account/Lease, from src/accounts/distributed-lock.js) and an exit (Proxy/Pool and
-- Proxy/Resolve, from src/proxy-pool.js), and the run begins; what it comes to goes back into the
-- account's row (Account/Ops, from src/accounts/safety.js and `markLoginConnected` of
-- src/api/remote-auth.js), by the retry policy of Account/Retry, and into the batch (Batch/Outcome,
-- from src/queue/batch-status.js). Account/Life and Batch/Row/Life put these updates into histories
-- of events, where a check and what follows it, or a read and its write, are steps of their own. Risk is the operator's view of src/operation-risk.js.
--
-- Around a run stand the parts of src/worker.js in Worker: Job is `handleJob` as a whole, the trace
-- of its effects and its end; Slots is `createSemaphore`, Gate is `waitForSubmitSlot`, Identity the
-- names of accounts and sessions (with src/queue/connection.js), Capacity `ensureBrowserCapacity`,
-- and Sessions the life of the browser sessions (`getSession`, `closeSession`, the reaper) as
-- interleaved steps; Window is `prepareWindow`, with its helpers of src/accounts/safety.js, over the
-- prompts of a slot. Rotation gives a browser its identity (src/fingerprint-rotation.js and the launch of
-- src/browser.js). Monitoring
-- makes executions of plans (src/monitoring/plans.js): LocalTime the texts of times, Schedule the
-- next run, Plans the table of plans. Webhook tells of what happened (src/webhook-worker.js),
-- through the requests of Security (src/security/outbound-url.js): Ipv4, Ipv6 and Address the
-- addresses, Target the target of a request, Request the request. Api is the collections' pages
-- (src/api/saas-pagination.js), the keys of repeated requests (src/api/idempotency.js) and the limit
-- on requests (src/api/observability.js). Alerts is the table of alerts (src/system/alerts.js) and a
-- tick of its worker (src/alert-worker.js). Analysis/Slice cuts texts (src/analysis/text-slice.js).
--
-- Prelude holds the tests, lists and the sort that the others share, and Tests has runs on concrete
-- inputs.
--
-- The correspondence. A function of the source is the function of the same name in snake case, here
-- `beginAccountRun` is `begin_account_run`; a row is a record with its columns, and an update takes
-- the row to the row; a column that may be null is an `Option`, and so is a result that may be
-- missing. A guard with an early return is a gate, and the gates stand in the order of the source.
-- Texts that are only shown are left out or stand as a constructor. Times are milliseconds since the
-- epoch, and the clock is an argument. Maps are association lists in the order of insertion.
--
-- Parameters. What the repository only calls is a parameter: the advisory locks of PostgreSQL (a
-- record with the laws of its documentation) and the hash of their keys, the time zone's calendar,
-- the HMAC behind the seeded generator, `localeCompare`, the hash of an assignment key, and what an
-- extraction of exits gives; further the URL parser, `net.isIP`, the name service and the network of
-- an outbound request, JSON and base64url of a cursor, the decimal text of a slot, what a webhook's
-- endpoint answers, whether an alert is delivered, and the counters of Redis (a record with the laws
-- of `INCR`, in which a reply may have no count or fail). What the calls of `handleJob` come to, exceptions included, is observed beforehand.
-- Texts that are walked are lists of codes. What the queue and the table of runs hold is observed as
-- counts.
--
-- Numbers and fuel. Numbers are naturals: the source clamps the counters of a batch to them, and the
-- others are counts and times. The quotients of the quotas and of the generator, floats in the
-- source, are exact here. The loop of `allocate_quotas` runs on fuel, as much as the quotas it has
-- to give; each round that is not the last gives one, so the fuel is enough. The search for an
-- instant of the wall clock makes the three iterations of the source. The client of a collection's
-- pages runs on fuel, one more than the rows; each page that is not the last has a row, so the fuel
-- is enough. The rounds of `ensure_browser_capacity` are the list of what they find, and a list that
-- comes to no end gives `pending`; in Worker/Sessions the rounds are events of their own, so that
-- any number of callers may wait. All other loops recurse on their list or on a counter.
--
-- Not modelled: the browser drivers, the other analysis of answers, the other routes of the HTTP
-- interface, reports and pages, the other workers, the thresholds of the alerts, and all SQL beside
-- the updates above; of the worker neither its heartbeat nor the handler of failed jobs; of a
-- webhook's request not its signature; of the proxy pool not its parsing nor the spacing of
-- extractions; and of concurrency only what the single theorems name: a round of the webhook worker,
-- the making of executions, and the launch of a browser with its plan, are single steps.
pub mod Analysis
pub mod Alerts
pub mod Prelude
pub mod Providers
pub mod Account
pub mod Batch
pub mod Sampling
pub mod Proxy
pub mod Risk
pub mod Worker
pub mod Security
pub mod Api
pub mod Webhook
pub mod Monitoring
pub mod Rotation
mod Tests
