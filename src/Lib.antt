-- ===== src/Lib.antt =====
-- A verification library for the CRM starter: its query language and data providers, its
-- access policies and its job queue.
--
-- The parts and how they interact. A screen asks a provider for rows with a ListQuery
-- (app/core/query.py): a filter of the user, a scope of the caller, a search, sort keys and a page. The
-- scope comes from the policy of the screen (app/resources/policy.py, app/resources/rbac.py), which
-- also says whether an operation is allowed.
-- app/providers/local.py runs such a query in Python. A provider says which stages it does by itself
-- (app/providers/base.py); the in-memory one (app/providers/memory.py) can do them all with the local
-- code, and the shim (app/providers/shim.py) adds what a backend lacks, within a budget of rows. The job
-- queue (app/jobs/base.py, app/jobs/queue.py) keeps its jobs as rows of a provider, and relies on its
-- conditional write.
--
-- Which file models what:
--   Core/Value      values of columns, rows, Record; Python's == and < on them (app/core/results.py)
--   Core/Query      app/core/query.py: Condition, Group, Not, and_, or_, Sort, ListQuery, Page
--   Core/Aggregates app/core/query.py: Agg, Measure, AggSpec
--   Core/Results    app/core/errors.py and the write results of app/core/results.py; a call that may raise
--                   returns a Result
--   Core/Placement  app/core/placement.py: parse_ref, placement, Placement
--   Providers/Local     app/providers/local.py: match_condition, match, apply_filter, apply_search,
--                       _SortKey, apply_sort, paginate, run_query; in Local/Aggregate, run_aggregate
--   Providers/Base      app/providers/base.py: Capabilities, and the interface Honours that the shim expects
--                       of a backend
--   Providers/Memory    app/providers/memory.py: list, get, aggregate, create, update, update_if,
--                       delete
--   Providers/Shim      app/providers/shim.py: list, _stream, _inner_query, _guard, _finish_pushed_page,
--                       aggregate, create, update, update_if, delete
--   Providers/Union     app/providers/union.py: _split, _route, _stamp, _unprefix, list, get, aggregate, _combine
--   Providers/Sequence  app/providers/sequence.py: create, over a provider's writes
--   Providers/Stamp     app/providers/stamp.py: value_of, create
--   Providers/Composite app/providers/composite.py: CompositeProvider, ReadOnly
--   Providers/Audit     app/providers/audit.py: diff, AuditSink.write, create, update, update_if, delete
--   Jobs                app/jobs/base.py: Job, from_row, as_row, backoff
--   Jobs/Queue          app/jobs/queue.py: enqueue, claim, _take, release_stale, run, _reschedule, _finish,
--                       run_once, retry
--   Resources/Policy    app/resources/policy.py: Policy and its subclasses, as an allows and a scope
--   Resources/Rbac      app/resources/rbac.py: Grant, GrantTable.for_identity, DbPolicy.allows, DbPolicy.scope
--   Web/RateLimit       app/web/ratelimit.py: check, retry_after, reset, _evict
--   Web/Filters         app/web/filters.py: parse_filters, parse_sort, resolve_alias, filter_key, canonical_params,
--                       has_panel_params; Sort.parse and str of app/core/query.py
--   Cache               app/cache/base.py: MemoryCache, BaseCache.get_or_set
--   Auth/Lockout        app/auth/passwords.py: LockoutPolicy
--   Auth/Passwords      app/auth/passwords.py: check_password, _is_repetitive, _name_parts
--   Auth/Accounts       the values and results of app/auth/local.py; clock.parse of app/core/clock.py
--   Auth/Login          app/auth/local.py: login, find_user, _record_failure, _record_success, to_identity
--   Auth/Manage         app/auth/local.py: change_password, set_password, issue_reset_token,
--                       redeem_reset_token; app/auth/passwords.py: ResetTokens, with reset links on
--   Storage/Names       app/storage/base.py: safe_filename
--   Storage/Upload      app/storage/base.py: UploadPolicy.check, save, over app/storage/memory.py
--   Tests               runs of the models at concrete inputs
-- The modules below these hold the proofs, named for what they are about; Prelude holds the shared
-- lists, options, orders, association lists and integers.
--
-- Apart from these, the rate limiter (app/web/ratelimit.py) keeps a token bucket for each key, and the
-- cache (app/cache/base.py) a dict of values with expiry times; their clock is a parameter of each call.
-- A sign-in (app/auth/local.py) reads a row of a user store, checks a password by its hash and counts
-- wrong guesses in the row, where a lockout (app/auth/passwords.py) is kept too.
--
-- State is passed explicitly: a write takes the provider's state, or the table of jobs, and returns a
-- result beside the new state. The in-memory provider's lock makes a write one step. The table of jobs is
-- a list of typed rows, and an interleaving of workers is a sequence of reads and writes, where a worker
-- may go through rows that it read earlier. The jobs that run_once gathers end in any order in the
-- source, and each writes its own row; the model takes them in order.
--
-- Fuel: the streaming loop of the shim has max_scan_rows + 1 rounds, since every round but the last
-- scans a full chunk. All other recursion is structural.
--
-- Parameters, for code that is not in the repository: the Runtime, with Unicode case folding and blanks
-- and str of numbers, dates and lists; the reading of an integer from a text; a backend of the shim; the
-- outcome of a job's handler, and whether the provider records it; the clock and the calendar; how a field reads a value; the quotients of an average; the extension of a file's name and its normal form in ASCII; the user store of a sign-in, its hasher and the signer of its
-- reset links.
--
-- Not modelled: floats (the tokens of the rate limiter are whole numbers of parts), decimals and time zones among the values; messages and log lines; the SQL, REST
-- and AMQP providers, files on disk and on S3, mail and most of the web layer, which are input and output over libraries;
-- the declarations of resources, and sign-in by OIDC, tokens or headers.
mod Prelude
pub mod Core
pub mod Providers
pub mod Jobs
pub mod Resources
pub mod Web
pub mod Cache
mod Tests
pub mod Auth
pub mod Storage
