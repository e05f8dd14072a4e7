-- ===== src/Lib.antt =====
-- Spark Control Plane: the core of the backend (backend/app) that starts, watches and serves vLLM
-- instances on a small cluster.
--
-- How the parts interact: start and stop jobs register an instance as theirs (InstState) and move
-- its row; the status observer (Reconcile) alone confirms or fails it, from the probes of the
-- telemetry. A promotion (Promotion) hands an endpoint from one instance to another by a stop and
-- a start job, and the handlers of endpoints (Endpoints) keep every alias with one owner. The
-- guard (Guard) lets a request to the API pass only with a session of Auth that Sessions has not
-- revoked; Oidc signs users in at an identity provider. The scheduler (Scheduler) issues start and
-- stop jobs on the edges of weekly windows. Alerts watch the telemetry's facts. The portal checks
-- a session's token (Auth) against the revocations (Sessions). The gateway (Gateway) names the
-- client by its key (Apikeys), routes the request to a running instance, asks the limiter
-- (Ratelimit) and counts the request (Gwstats). The planner (Plan) derives the settings of a new
-- instance from the nodes and from what running instances have claimed. Long work runs as jobs
-- (Jobs), whose rows and subscribers outlive it. Ports and Binding say which port an instance
-- binds and with what TLS material.
--
-- Files:
-- - Prelude, Prelude/Tests, Prelude/Lists: the names shared by all, Boolean tests, `==` by
--   instances, lists.
-- - Dict, Dict/Laws: Python's `dict` as its entries in insertion order, with `get`, `set`, `pop`,
--   `setdefault`, and what a `get` returns after each.
-- - Text: texts as lists of code points, with `split`, `partition`, `strip`, `isdigit` and `int`,
--   for ASCII.
-- - Models: backend/app/models.py, the statuses and the columns of an instance and an endpoint
--   that are used.
-- - Reconcile: backend/app/services/reconcile.py, `decide` with its sustain timers
--   (Reconcile/Tick: `Reconciler.tick` and `_apply`). Edges, Sustain, Progress and Tick/Safety
--   hold the theorems.
-- - InstState: backend/app/services/inst_state.py, the registry of jobs that own a row.
-- - Ratelimit: backend/app/services/ratelimit.py, the class `Limiter`. Concurrency, Views, Rate
--   and Bound hold the theorems.
-- - Scheduler: backend/app/services/scheduler.py, the windows (Scheduler/Tick: `decide`,
--   `_retry_action` and `tick`). Windows, Desired and Tick/Retries hold the theorems.
-- - Alerts: backend/app/services/alerts.py, `AlertManager.evaluate` and `active`. Machines holds
--   the theorems.
-- - Sessions: backend/app/services/sessions.py, the revocation of sessions, with `_write` and
--   `load`; what the rows say of a session is in Sessions/Views, restarts and crashes are in
--   Sessions/Restart, and Sessions/Answers holds the theorems.
-- - Auth: backend/app/services/auth.py and the handlers login (Auth/Logins) and logout of
--   backend/app/routers/auth.py. Tokens, Revocation and Throttle hold the theorems.
-- - Apikeys: backend/app/services/apikeys.py and the handlers of keys of
--   backend/app/routers/gateway.py. Wire and Lookup hold the theorems.
-- - Gateway: backend/app/routers/gateway.py, the authorisation, the limits and the routing of a
--   request. Access and Routing hold the theorems, Names a lemma of Routing.
-- - Gwstats: backend/app/services/gwstats.py, `Stats` and `flush`. Conservation holds the theorem.
-- - Jobs: backend/app/services/jobs.py, the rows of jobs, the retried writes, the sweep of orphans
--   and the queues of the subscribers. Orphans and Queues hold the theorems.
-- - Plan: backend/app/services/plan.py, the facts and the memory; Plan/Choice the topology,
--   Plan/Whole the settings and `plan_instance`, Plan/Committed `committed_gib_by_node`. Fit,
--   Placement and Promises hold the theorems.
-- - Ports, Binding: backend/app/services/ports.py and binding.py.
-- - Portal: the tables, the commands and the exceptions of the jobs of instances and endpoints.
--   Portal/Samples holds a small portal for the tests.
-- - Instances: backend/app/services/instances.py, how units are launched and stopped;
--   Instances/Lifecycle the jobs start, stop, delete and rotate. Frames and Endings hold the rules
--   for what an action keeps and how it ends, Rows those for a row; Start, Outcome, Halt and
--   Removal hold the theorems.
-- - Endpoints: backend/app/services/endpoints.py, aliases and certificates; Endpoints/Requests the
--   handlers of backend/app/routers/endpoints.py. Cover, Names and Invariant hold the theorems,
--   and Owners, Tables and Handlers their lemmas.
-- - Promotion: backend/app/services/endpoints.py, `promote` and `previous_holder`. Rows and Swap
--   hold lemmas, Ended and History the theorems.
-- - Oidc: backend/app/services/oidc.py with the handlers `oidc_login` and `oidc_callback` of
--   backend/app/routers/auth.py: Oidc/Origin the origins of URLs, Oidc/Provider and Oidc/Caches
--   the requests to the provider and their caches, Oidc/Callback the sign-in. Safe, Pinned,
--   Fetches, Keys, Gates, Admission, Runs, History and Ceiling hold the theorems.
-- - Parsers: backend/app/services/parsers.py. Names holds the theorem.
-- - Guard: backend/app/middleware.py. Passage holds the theorems, Paths what they say of open
--   paths and of the token.
-- - Power: backend/app/services/power.py. Packet and Wake hold the theorems.
-- - Text/Laws: the test of two texts; Auth/Samples a cipher and a session for the tests.
-- - The files named Tests hold runs of the code and the theorems at concrete inputs.
--
-- State is explicit: each operation takes the object's record and returns the new one with its
-- result. A raised exception is a value (`Outcome.limit_error`, `none` of `minutes`), and the
-- state that it leaves is returned too. A dictionary that a function reads by key is the
-- association list in Dict.
--
-- Numbers: times and durations are whole microseconds (the code's are floats of seconds), counts
-- and ids natural numbers. `now - since >= d` is written `since + d <= now`, so that a clock that
-- steps back is treated as in the code. A test of a time for truth (`x or now`) treats 0 as false,
-- as Python does.
--
-- Fuel: only the search for a free port counts on fuel, one more than the number of taken ports,
-- and it is proved to end with a port. The retries of a write in Jobs are as many as the code's.
-- All other loops follow a list.
--
-- Not modelled: the asyncio loops and their cancellation, logging, SQL itself (a query is an
-- argument or a pass over a list of rows), SSH, HTTP, the user interface. Cryptography is a
-- parameter: `Crypto` of Auth, the digest of Apikeys, and PyJWT in `World` of Oidc/Provider. In a
-- pass of the observer other tasks may commit between a read and a write; these writes are an
-- argument.
pub mod Prelude
pub mod Dict
pub mod Power
pub mod Promotion
pub mod Ratelimit
pub mod Instances
pub mod Jobs
pub mod Models
pub mod Endpoints
pub mod Gateway
pub mod Gwstats
pub mod Guard
pub mod InstState
pub mod Reconcile
pub mod Text
pub mod Scheduler
pub mod Sessions
pub mod Alerts
pub mod Apikeys
pub mod Auth
pub mod Binding
pub mod Oidc
pub mod Parsers
pub mod Plan
pub mod Portal
pub mod Ports
