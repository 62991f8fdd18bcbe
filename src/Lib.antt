-- ===== src/Lib.antt =====
-- SentinelBrief: a verification library for the triage of honeypot sessions.
--
-- The program. A shipper on the honeypot (honeypot/shipper) assembles Cowrie events into session
-- payloads, spools them on disk and posts them, signed, to the api. The api (api) deduplicates an
-- alert by its fingerprint, commits it and queues a job. The worker (worker) takes the job, runs
-- the LLM pipeline on the alert under a row lock and commits one verdict with its tool calls, or
-- retries, or marks the alert failed. An admin request reopens an alert. All of them share the
-- tables and the services of core.
--
-- The files. Prelude passes on the libraries' names and holds the list lemmas; Action is the
-- state and exception monad that every coroutine is written in, Action.Meets and Action.Ends its
-- rules for partial and for total correctness.
--   Core: Errors (core/errors.py), Verdict and Alert (core/schemas), Llm (core/llm.py), Database
--     (core/models: a table is the list of its rows), Session (the SQLAlchemy session: committed
--     tables, what the transaction sees, the world), Services (core/services/alerts.py), Reads and
--     Stats (core/services/alerts_read.py with core/schemas/alerts_read.py), History
--     (core/services/alert_history.py with worker/tools/alert_history.py), Queue (core/queue.py),
--     Cache (core/cache.py).
--   Pipeline: `TriagePipeline.run` of worker/triage.py, each closure a function of Pipeline.Run;
--     Budget is worker/budget.py with core/budget.py. Below Run stand the bound on calls, the
--     billing, the shape of the outcome and the exhausted budget.
--   Worker: Retry, Routing, Prompts, Outcome, Summarize and Store are the files of these names,
--     Tools is worker/tools/registry.py with worker/tools/session_commands.py, Tools.Recorder is
--     worker/tools/recorder.py, Client is worker/llm_client.py with `parse_structured` of
--     core/llm.py;
--     Attempt is `triage_attempt` and `triage_alert` of worker/triage.py, Job is worker/jobs.py.
--   Api: Deps (api/deps.py with core/signing.py), Ingest and Retriage (api/routes/alerts.py and
--     api/routes/admin.py).
--   Shipper: Assemble, Spool (spool.py and post.py), Deliver (`Backoff` and `drain` of main.py),
--     Main (`run_once` and the loop of main.py) and Tail (tail.py): Split is what `bytes.split`
--     does, Drain one call of `_drain_open_file` on a file's bytes.
--   Evals: Cases (evals/golden/__init__.py and the cases of evals/scoring.py), Tables, Percentile
--     and Scoring (evals/scoring.py), Sample (evals/sample.py with evals/candidates.py).
--   System: requests, job tries and outside events as a step relation on the session; Kept is the
--     induction step that Reached and Deduplicated share, and Appended is about the verdicts.
--   Tests holds a small deployment and the theorems at it.
--
-- Conventions. What lies outside the sources is a parameter: the LLM client, the tools, Redis, the
-- database's answers (each flush, locking read and commit may raise), the clock, json, HMAC and
-- SHA-256. A commit that raises is taken to have stored nothing, and a rollback does not raise. A
-- concurrent transaction is not interleaved inside an attempt, since the attempt holds the row lock
-- until its commit or rollback. Integers are natural numbers; a cost is counted in millionths of a
-- dollar, a confidence in ten thousandths, a delay in a fixed fraction of a second. The tool loop
-- recurses on the turns that are left; the shrinking loop of the shipper takes the number of events
-- as fuel, which is enough since every round drops one. The reading loop of the tailer takes one
-- more than the bytes that are left, since every round reads one or is the last; the rounds that
-- fill a sample take the members that are left, since every round takes one. A float power raises
-- from the exponent 1024 on, as Python's does. A rate is a numerator and a denominator. A query is
-- read by the documented meaning of its SQL, and the order of the rows that a query does not order
-- is that of the table. A line of the log is short if it is within the bound of four chunks; a
-- tailer follows a file if what it gave back and what its buffer holds are the short lines of the
-- bytes that it has read.
--
-- Not modelled: the HTTP and SSE framing with the routes that only frame a read, the generated JSON
-- schema, the lookups of the tools that ask a provider or a database file, the configuration and
-- the command lines, the evaluation's runs, reports and labels, and the scripts, which are input
-- and output; PROJECT.json lists them with reasons.
pub mod Action
pub mod Api
pub mod Core
pub mod Evals
pub mod Pipeline
pub mod Prelude
pub mod Shipper
pub mod System
pub mod Tests
pub mod Worker
