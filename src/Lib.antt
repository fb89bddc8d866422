-- ===== src/Lib.antt =====
-- A verification library for the RemoteConnect backend: a model of the parts of the Python code that
-- decide who may do what and which background task runs, and the theorems that make them correct.
--
-- The program. A FastAPI application (apps/app) serves users; their requests pass middlewares for
-- rate limiting and for authorization by role, and reach services that change tables in one
-- transaction each. A scheduler enqueues background tasks through Celery, with Redis for slots, locks
-- and the times of the last enqueues; hooks on the tasks keep a table of task runs, and a watchdog
-- closes the runs that no worker knows of.
--
-- The files, and the code that each models:
-- - Base: what all share. Base.Text has texts as lists of code points with `str`, Base.Dict the dict in
--   its order of insertion, Base.Action functions that change a state and may raise; what was written
--   before a raise stays.
-- - Redis: apps/app/utils/redis.py. The server is not code of the repository: its commands are the
--   record `Redis`, with the laws of their documentation, and Redis.Memory is a server that meets
--   them. `redis_set_nx`, the compare-and-delete script and the others keep their names.
-- - Services: `call` of apps/app/core/services.py outside impersonation, a transaction that commits or
--   rolls back.
-- - Concurrency: apps/app/utils/task_concurrency.py, and the metadata store of
--   apps/app/utils/decorators/task_metadata.py. Concurrency.Keys has the names of the keys,
--   Concurrency.Resources the slots, the locks and their bindings to task ids
--   (`reserve_task_slot`, `_bind_task_id_to_resource`, `_release_task_resource_by_id`),
--   Concurrency.Scheduler the step `_try_enqueue` with `_acquire_lock_and_slot_or_skip`, in its child
--   Due `run_if_due_interval`, and `after_return` of apps/app/utils/decorators/task_decorator.py. The reply of Celery, the random
--   tokens and the time are arguments.
-- - Tasks: Tasks.Runs has the table of apps/app/modules/task/repositories/task_run_repository.py,
--   Tasks.Tracking the service of apps/app/modules/task/services/task_tracking_service.py and the
--   hooks `before_start`, `on_success` and `on_failure` of the task decorator, as steps on the table,
--   with a database that may not answer; Tasks.Watchdog has `detect_abandoned_task_runs` of
--   apps/app/modules/task/analysis/task_watchdog_analysis.py over the table and Redis, and shares the
--   releases with Concurrency.
-- - Roles: Roles.Groups has infra/groups.py and apps/app/modules/role/service/group_hierarchy.py,
--   Roles.Permissions the loop of `_apply_permission_dependencies`, Roles.Rows
--   `_resolve_role_group_rows`, Roles.Tables the entities and repositories of roles and of their
--   assignments with the constraints of the schema, and Roles.Service the services of
--   apps/app/modules/role/service/role_service.py and
--   apps/app/modules/user/service/user_role_service.py that change them.
-- - Authorization: apps/app/core/auth/middleware/role_authorization_middleware.py with
--   `resolve_group_id` of apps/app/core/auth/route_binding.py, over the tables of Roles.
-- - Users: the rows of apps/app/modules/user/entities/user_entity.py as authentication and
--   impersonation read them.
-- - Sessions: the table of apps/app/modules/user/repositories/user_sessions_resposity.py with the
--   rotation of tokens; Sessions.Logins has `record_login` and `logout`, Sessions.Devices and
--   Sessions.Agents how the client of a login is told from the headers of its request.
-- - Authentication: `authenticate` of apps/app/modules/auth/service/auth_service.py over users,
--   sessions and the impersonation lock, and Authentication.Middleware the middleware of
--   apps/app/core/auth/middleware/jwt_middleware.py that calls it, hands the request on and then
--   renews a token that ends soon. Authentication.Routes has the routes of
--   apps/app/modules/impersonation/controller/impersonation_controller.py with `reissue_admin_token`,
--   and Authentication.Logout the `logout` of the auth service, over Impersonation and Sessions together. Decoding and encoding a JWT are arguments, and so is what the
--   handler does.
-- - Impersonation: Impersonation.Lock has the lock of
--   apps/app/modules/impersonation/service/impersonation_lock.py over Redis, Impersonation.Holder the
--   session that the worker holds (impersonation_session_holder.py beside it), Impersonation.World what
--   the service keeps: the lock, that session, the audit and the messages; Impersonation.Service the
--   start, the end and the cleanup of impersonation_service.py, Impersonation.Requests the requests of
--   an admin after the start with their handlers of exceptions, and Impersonation.Events all of them in
--   sequence. Whether the session's lock is got in time and whether the database takes a change are
--   arguments.
-- - Monitor: the tokens of apps/app/modules/monitor/services/monitor_session_service.py over Redis,
--   and the blocking of addresses in monitor_access_guard.py beside it.
-- - RateLimiting: RateLimiting.Window has the sliding window of apps/app/core/rate_limiting/limiter.py,
--   RateLimiting.Middleware the middlewares in the folder middleware beside it that use it, for a path
--   with a cooldown and for a user with the block of user_blocking.py. Whether Redis answers each of
--   their calls is an argument.
-- The modules named Tests and Samples have concrete inputs.
--
-- State is passed explicitly: a table is the list of its rows, and an operation returns its result with
-- the tables after it. A loop whose end is not plain has fuel. The climb from a group to its ancestors
-- has two steps more than there are groups, which is enough where the ids of the groups differ, since a
-- parent stands before its child in the flattened list. The loop over a role's permissions has two
-- rounds, which is enough for all permissions, since the first round closes them. The search for
-- brands in a header has as much fuel as the header has characters, of which each step takes one.
-- Recursion is structural elsewhere. Numbers do not wrap in the source, and neither do they here.
-- Regular expressions are the functions that search for them; the lower case and the white space are
-- those of ASCII. Times of sessions and of impersonations are whole seconds.
--
-- Not modelled: the cron schedule of the scheduler, the changes of users, the decorators of routes, the
-- reports on logins, the monitor's access keys, feature requests, devices and the migrations, which are
-- planned; what only calls a library, such as mail, storage, caching and logging; time stamps of rows
-- and other columns that the modelled services do not read; the lists with paging; the messages to web
-- sockets, but for those of an impersonation. Two operations on Redis or on a table run one after the
-- other: a script or a statement is atomic, and interleavings of the statements of two requests are not
-- considered. A write of the impersonation's audit and the first block of an address are taken to
-- succeed.
pub mod Base
pub mod Redis
pub mod Services
pub mod Concurrency
pub mod Roles
pub mod Tasks
pub mod RateLimiting
pub mod Authorization
pub mod Impersonation
pub mod Monitor
pub mod Users
pub mod Sessions
pub mod Authentication
