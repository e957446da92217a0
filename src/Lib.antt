-- ===== src/Lib.antt =====
-- The Cloud Billing Console: a model of its core services, and what is proved of them.
--
-- The program is a Django application over PostgreSQL. Its web requests only enqueue work; workers
-- lease jobs, call AWS and store what it answers; reports, allocations and budgets are computed
-- from the stored facts. The modules follow the program's own files.
--
-- Prelude: names of the libraries, Boolean tests, lists, tables as lists of rows (Rows), what a
-- search in a list finds (Search), sets of texts (Texts), amounts of money (Int).
-- Json: JSON values, for JSON columns and requests.
-- Jobs: billing/jobs.py, the durable job queue on the table Job of billing/models.py. Types has the
-- rows and settings, Enqueue and Lease the functions of those names, Outcome heartbeat, complete,
-- fail, backoff and recover_expired, Runner run_job and run_once. Consistency, Selection,
-- EnqueueKeeps, LeaseKeeps, OutcomeKeeps, History and Progress have the lemmas of each operation;
-- System is the queue with any number of web requests and workers as a step relation, and
-- Work has the work left in a table and the handlers that pay for what they enqueue, Requested what a
-- request adds to it; Soundness, Safety, Fencing, Claims, Coalescing, Reports, Running and Termination
-- have the theorems.
--
-- Access: billing/access.py. Tables has the objects, the paths to their owners and the record Access,
-- Membership for_user, Restriction what the scoped manager leaves to a request, Validation
-- validate_object and the guards of update, delete, bulk_create and bulk_update. Confined and
-- Revocation have what a request sees, Accepted and Guards what it may write.
-- Scope: billing/scope.py; Ownership has customer_accounts on the table AccountAssignment, Resolution
-- resolve, which checks the selection of a report, and Contained what it guarantees; Windows has
-- ownership_windows, Intervals and Windowed the theorem on it; Units has report_units and Owned what
-- its queries are restricted to.
-- Allocation: billing/allocation.py. Rules has the table AllocationRule and validate_rule, Claims
-- claimed_accounts and rule_scope_accounts and what spend a rule takes up, Windows rule_months, and
-- Project the allocation itself: allocate_accounts_rule, allocate_query_rule and allocate_project
-- on the table ProjectCost. Disjoint and Validated have the theorems on validate_rule, Coverage and
-- Windowed those on the days of the rows, Others that on the rows of other rules, Conserved that on
-- the sums.
-- Cache: billing/query_cache.py. Paging has fetch_pages with its bound of 1,000 pages, Merging, Chains and
-- Complete the theorems on it, Scoping scoped_parameters and what it restricts,
-- Guards the checks that get_query makes before it records a request, Confined and Metadata what
-- they guarantee.
-- Budgets: billing/budgets.py. Amounts has the table BudgetAmount with amount_for,
-- set_recurring_amount and set_override, Schedule and Overrides what these do to the limits of the
-- months; Tables has the other tables and data_status, Evaluate the verdict of evaluate_budget,
-- Alerts what it writes, Forecasts aws_forecast and Summary portfolio_summary. Verdicts,
-- Deduplicated and Expected have theorems on the verdicts, the alerts and the forecasts, Units the
-- units that a forecast takes in.
-- Release: deploy/github-release/agent.py, the activation of a release on an instance. Files has the
-- files below a folder, World the state of an instance, the journal and actions that may fail,
-- Rollback rollback and health, Activate activate. Outcomes, Recoverable, Restored, Reversal,
-- Installed and Prepared have the lemmas of their steps, Activation the theorem.
--
-- Connection: the rows of an AWS connection and of its approvals (Tables), and billing/iam.py
-- (Approval): validate_role_arn, approval_ready, assert_role_allowed.
-- Scheduler: billing/scheduler.py. Slots has the slots, collection_readiness and the pending jobs,
-- Schedule _schedule_source and schedule_due, which call Jobs.Enqueue, Requests the requests of
-- people, Handlers load_source and the handlers. Once, Settled, Idempotent, Later and Met have the
-- lemmas on what a tick leaves, Ticks the theorem on the ticks of one slot.
-- Activation: billing/activation.py. Snapshots and Requests have request_activation and _revalidate,
-- Allowlist the broker and merge_allowlist with the theorem on the file, Process _approve and _start,
-- Completion _progress and process_activation; Calls and Proven have the theorem on its result.
--
-- Conventions. A function that reads and writes tables takes the tables and returns them. The reads
-- of an operation that another transaction may overtake are arguments of their own (`Reads`, a list
-- of busy sources, the rows that a loop's query gave), so that a theorem holds for reads that are
-- out of date. Times are microseconds since the epoch, UUIDs and primary keys are numbers. A random
-- draw is the value of a function argument. A loop with no bound of its own takes fuel; `run_once`
-- needs one unit more than the work left in the table, its open attempts at the prices of their kinds. Days are numbers as date.toordinal
-- counts them, and the month after a month is a function argument; amounts are exact, in units of
-- 10^-10. What get_query gives for an allocation, and how it ends for a forecast, are arguments, functions of the request;
-- the pages of AWS are a function of the number of the call and the request, and the meaning of its
-- filters is a function with two documented laws as hypotheses. In Access an object is of any type,
-- with Django's attribute access, the tables, the relations of an object and scope_fingerprint as
-- arguments; the access of the context variable is an argument too. In Release an oracle says of each
-- action whether it fails, whether it has taken effect all the same and what a copy that is cut off
-- leaves, and whether the failure is one that the loop of health checks catches; the parts and the suffix of a path are arguments. In Scope the parsing of a parameter is an
-- argument, and the rows are those that the request may read. In Connection, Scheduler and Activation
-- a call ends in a `Try`; the regular expressions for ARNs, Python's renderings of keys and times, the
-- drawn jitter, the broker's answer and the bodies of collection are arguments. approved_capabilities
-- and the columns of an approval hold lists of texts. The scheduler and the activation service hold
-- the row of the connection, so their reads of the queue are current, and a call has one reading of
-- the clock.
--
-- Not modelled: HTTP views, forms and templates, which call these services; calls of AWS, Django
-- and the operating system, which are arguments; logging; the SQL and shell of the deployment.
pub mod Prelude
pub mod Json
pub mod Access
pub mod Activation
pub mod Allocation
pub mod Budgets
pub mod Cache
pub mod Connection
pub mod Jobs
pub mod Release
pub mod Scheduler
pub mod Scope
