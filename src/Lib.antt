-- ===== src/Lib.antt =====
-- A model of Pashupatastra's maintenance planning: the optimizer that schedules maintenance blocks
-- (backend/app/optimizer/solver.py), the lifecycle of the jobs that it schedules
-- (backend/app/jobs/lifecycle.py, models.py, events.py and repository.py), the evidence of field work
-- and the executions that a job's history implies (backend/app/jobs/execution.py), what a job owes
-- and by when (backend/app/jobs/obligations.py and sla_policy.py), the disruptions that an
-- optimization recovers from (backend/app/simulation), and the records that they exchange
-- (contracts/schemas.py).
--
-- How the parts interact. A job carries a block candidate. An optimization request gathers
-- candidates, possession windows and the blocks that are already committed; `solve` posts a CP-SAT
-- model for it and reads a result off the solver's assignment. A plan of the lifecycle turns the
-- result, or a person's decision, into mutations and events; the repository's `mutate_jobs`
-- validates every mutation against the row that was read, checks the tokens of the mutations
-- against the events, and writes both or neither. The start and the outcome of field work are such
-- plans: their events carry evidence, times and a digest of the committed block, from which
-- `build_execution_records` rebuilds the executions of the job. The obligation of a job is derived
-- from its row, its history and these records, under a policy. A disruption changes a request, which
-- is then solved again.
--
-- Which file models which part.
-- - Contracts: the records of contracts/schemas.py.
-- - Result, Python, Prelude: exceptions as values, what is used of Python's built-ins, and shared
--   lists, dicts, integers and tests.
-- - Optimizer.Solver, Groups and Model: the variables and constraints that `solve` posts, in the
--   order of the source; Solve: its result. Cp: the kinds of constraint of OR-Tools that it uses and
--   what they mean. Unique, Feasible, Schedule, Separation, Clearance, Possession, Commitment,
--   Accounting and Refusal hold proofs.
-- - Jobs.State: rows, mutations, tokens and events; Events: what the constructor of an event refuses;
--   Guards and Validation: the checks of one write and of a plan's tokens; Store: `mutate_jobs`,
--   `update_status`, `update_schedule` and `record_refusal` over a table of rows and a log. Accepted,
--   Rows, Tokens, Gates, Protection, Steps, Effects, Absent, History, Reachable and Commitments hold
--   proofs.
-- - Jobs.Plans.Blocks, Optimization, Outcome and Human: the plans; Written says what one decision
--   leaves in the store; Runs, Accepts, Decisions, Release, Window, Kept and Settled hold proofs.
-- - Jobs.Plans.Failure: failed optimizations, direct assignments and rejected transitions; Aftermath
--   and Assignment hold proofs. Jobs.Plans.Field, Field.Start and Field.Outcome: the digest of a
--   block and the plans of field work; the modules beside these two hold proofs.
-- - Data.HorizonAnchor: backend/app/data/horizon_anchor.py. Jobs.Execution.Ids, Time, Evidence and
--   Records: execution.py; Platform: the laws of the parameters; Minutes, Normal, Sets, Reading and
--   Coherent hold proofs, and so does Jobs.Values.
-- - Jobs.SlaPolicy: sla_policy.py; Ladder holds proofs. Jobs.Obligations, Clock and Derive:
--   obligations.py; Rising, Named, Allowance and Late hold proofs.
-- - Simulation: disruptions.py and simulator.py; Request and Recovery hold proofs.
-- - Examples: one corridor, one job and their timetables, at which the theorems are applied.
--
-- What is assumed. CP-SAT is a parameter: any function from models to outcomes that reports a
-- solution only if it satisfies every posted constraint (`IsSound`). Floats are a parameter type
-- with the operations that the code uses. The order in which Python walks a set is a parameter. The
-- parsing and printing of dates, SHA-256, the floats of coordinates and the random part of ids are
-- one parameter (`Platform`, with the laws `IsPlatform`), the multiples of durations another
-- (`Durations`, with the laws `IsDurations`). The theorems about schedules assume that the
-- candidates' ids are distinct, which `solve` does too.
-- SQLite's transactions are taken as atomic: a write that raises leaves the table and the log as
-- they were, and the writes of several connections are a sequence of steps.
--
-- Bounds. Minutes are unbounded integers, as in Python. All loops are over lists, by structural
-- recursion, so there is no fuel.
--
-- What is not modelled: messages of exceptions and the prose of obligations, the ids of events (but
-- for obligations, which find events by them) and with them the uniqueness that the log requires of
-- minted ids, the blank-id checks in the constructors of the two tokens, the columns of a job that no
-- transition touches, conversions to dicts for the HTTP layer, the creation of jobs, and the packages
-- around these (notifications, identity, audit, data adapters, the risk scorer and the HTTP layer).
-- Where a pattern of the source says `\d`, the digits of ASCII are meant: Python's pattern also
-- accepts the decimal digits of other scripts, which the code never writes.
pub mod Prelude
pub mod Result
pub mod Contracts
pub mod Python
pub mod Data
pub mod Optimizer
pub mod Jobs
pub mod Simulation
pub mod Examples
