-- ===== src/Lib.antt =====
-- Weather agent: a Telegram bot that tells its users about the weather. A user has notification rules,
-- each with an expression over a forecast and, if wanted, a schedule. A worker evaluates the rules in
-- cycles and sends a message where an expression is true. This library models the rules and
-- their expressions, the schedules, the notifications, the worker, the conversation with its tools and
-- its memory, and the warnings and observations, as pure functions on a database, and proves what
-- makes them correct. Paths are from the root of the repository, under src/weather_agent/.
--
-- Parts, and the files that model them:
--  * Prelude: tests on numbers and texts, `str.strip` and its relatives, `Result` for exceptions, and
--    what select, update and delete statements do to rows.
--  * Database: the tables of infrastructure/db/base.py as lists of rows. Schema has the records, Detail
--    the dictionary of an evaluation, Constraints the unique constraints and the partial index
--    uq_notification_events_rule_payload_active.
--  * Time, Schedule: domain/time.py and domain/rules/schedule.py. `is_rule_due` is is_rule_due,
--    `last_cron_slot` is last_cron_slot; Schedule/Due says without the code when a rule is due.
--  * ShortId: domain/rules/short_id_generator.py, and the loop _generate_unique_short_id, which the rule
--    service and the event service share.
--  * Rules: domain/rules/models.py (Model), notification_context.py (Context) and service.py (Rows,
--    Service). A method of NotificationRuleService is a function of the same name.
--  * Notifications: domain/notifications/deduplication.py (Dedupe) and events.py (Events). A method of
--    NotificationEventService is a function of the same name; `first_reason` is the body of
--    should_suppress, `take_over` the branch of create_event_once for a claim that is found.
--  * Worker: infrastructure/worker/rule_evaluator.py. Claim has _claim_due_rules and _is_rule_due,
--    Finish the end of an evaluation, Evaluate _evaluate_single_rule and _build_evaluation_data, Deliver
--    _deliver_notification, Cycle _evaluate_due_rules, evaluate_rules and a pass of run_loop. The
--    queries of infrastructure/repositories/forecast_repository.py that it uses are in Evaluate.
--  * Auth: domain/auth.py (Service) and infrastructure/repositories/auth_repository.py (Repository): the
--    allowlist, the table of users and invite codes.
--  * Polish, Locations: domain/polish_utils.py and domain/locations.py. A method of LocationService is a
--    function of the same name; Locations/Names has what its checks of names and aliases are for.
--  * Retention: infrastructure/jobs/retention.py, the jobs that delete old rows.
--  * Memory: adapters/telegram/context.py (Context) and infrastructure/memory/thread_memory.py (Thread).
--    Rows and Opened have what their methods share; Turns, Pending, Bounds and Frames what they promise.
--    Prelude/Decimal has `str` and `int` of the ids in the keys.
--  * Toolbox: llm/tools/rules_tools.py. Propose has _resolve_location, _execute_propose and
--    delete_notification, Plan schedule_notification, Confirm _execute_confirm and _execute_cancel.
--  * Conversation: application/agent_invocation.py (Agent) and application/conversation_service.py
--    (Service), with the classes of application/conversation_models.py.
--  * Expressions: domain/rule_expression/. Ranges, Metrics and Evaluator have evaluator.py, Registry
--    registry.py, Validation validation.py and Scanner the regular expressions of both; Numbers is
--    the arithmetic they need. Weekend, Extremes and Names have what they promise.
--  * Providers: adapters/imgw/, the request with its retries (Request), the warnings of a response
--    (Warnings) and the observations near a place (Stations, Synop); the repositories of both (Archive,
--    Observations); domain/snapshot_comparison.py (Comparison). Retries, Saved, Nearby and Changes
--    have what they promise.
--  * Geocoding: infrastructure/locationiq_candidates.py, the choice among the answers of the geocoding
--    service: Candidates reads them, Score has the scores and the choice, Best what it promises.
--  * Examples: the theorems at concrete inputs.
--
-- State. A request of a user goes from the conversation to the memory, to the tools if it confirms
-- or cancels, and else to the agent, which calls tools too; a tool stores a proposal in the memory,
-- and a confirmation takes it to the rule service. The services are actions on the database: they
-- return a result or raise, with the database as it is then. The worker has the session's database,
-- what is committed, and the messages that were sent, which a rollback does not take back. The
-- worker calls the rule service for the rules that are enabled and to disable a rule, and the event
-- service for the claim of a notification. What other sessions commit while a call runs is a
-- function that is an argument of the call.
--
-- Bounds. A moment is a number of microseconds, in ℕ; what is subtracted from a moment stops at 0,
-- which no moment of a running system comes near. The search for a short id has 10 rounds, as in the
-- source, and gives up with an error; its recursion is on that number. The lease of a claim is 10
-- minutes. A request to IMGW is made three times at most, and the recursion is on the attempts that
-- are left. No other loop needs a bound: they go through lists.
--
-- Parameters. Not in the repository, and so arguments: random.choices, sha256, json.dumps and
-- isoformat, croniter and datetime.fromisoformat, the zone of Warsaw, pydantic's conversion of a
-- context and of a pending confirmation, the JSON of an invite, Unicode's tables, the geocoder, the
-- language models, CEL, the HTTP client, strptime, the arithmetic of floating-point numbers, the
-- advisory lock and the sender. Of the repository, the fetcher of forecasts, the content generator
-- and the formatters of a message are arguments of the functions that use their results, and the
-- worker takes the evaluator of expressions as one.
--
-- A zone reads an instant as a wall clock, or not at all at the ends of the calendar, where the source
-- gets an OverflowError; `ensure_utc` is total. Two datetimes of the zone of Warsaw compare by their
-- readings, as Python compares them.
--
-- Tables. A new row stands before the others; where a query of the source has no order, the order of
-- its rows in the model is the newest first. The foreign keys are checked where users, locations,
-- rules, runs and snapshots are deleted, and where an event is inserted, whose rule and run have to
-- exist; the other inserts do not check the rows that they name. Of
-- official_warnings the database has the column that names locations; its rows are a table apart. An
-- update writes the columns that the source assigns, and the takeover of a claim, whose row others may
-- have changed since it was read, those whose value differs from what was read.
--
-- Not modelled: logs, metrics and traces; the adapters of Open-Meteo and of Telegram and the
-- requests of the geocoder; prompts, the descriptions of the tools and the weather tools; settings
-- and start-up. Outside Expressions and Providers, metrics are values that are compared and
-- printed, not computed with.
pub mod Prelude
pub mod Database
pub mod Time
pub mod Schedule
pub mod ShortId
pub mod Rules
pub mod Notifications
pub mod Auth
pub mod Polish
pub mod Locations
pub mod Retention
pub mod Memory
pub mod Toolbox
pub mod Conversation
pub mod Expressions
pub mod Providers
pub mod Geocoding
mod Examples
pub mod Worker
