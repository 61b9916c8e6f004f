-- ===== src/Lib.antt =====
-- Narsika, a self-hosted workspace for Cisco and MikroTik networks (Flask, SQLite, Ansible).
--
-- A signed-in user asks for an operation on a device: a backup, a discovery, a playbook, a change of
-- VLANs or of the firewall. Requests enter a queue in the database; a dispatcher hands them to a
-- pool of threads, which check them again and run them over SSH. A change of the firewall is first
-- compiled into a plan, which the user reviews and confirms; its receipt is consumed when the run is
-- queued, and the run compares the device with the plan before and after it sends commands.
--
-- Files and sources:
--
-- - Base: names that all modules share, Python's `==` as an interface (Base/Equality), `str` and JSON
--   values (Base/Text, Base/Json), and errors as values (Base/Errors: `APIError` and `fail` of
--   app/security.py).
-- - Models: the rows of app/models.py that the operations read and write, with `set_password` and
--   `check_password` (Passwords). Rows has the lemmas on tables.
-- - Security: app/security.py. Cipher has `encrypt` and `decrypt`, Inputs has `integer` and
--   `payload`, Scope has `address` and `network`, Access has `text`, `password_policy` and
--   `require`, and `audit` is in the module itself.
-- - Jobs: app/services/jobs.py. Target is `target_identity`, Queue is `enqueue` and the restart,
--   Dispatch is `JobManager.dispatch_pending`, Execute is `JobManager.execute`, and Lifecycle puts
--   them together as the steps of one process, with `cancel_run` of app/api.py.
-- - Ipv4: the part of Python's `ipaddress` that the firewall uses.
-- - Firewall: app/services/firewall.py and app/firewall_api.py. Words and Change are the data of a
--   change, Normalize is `normalize` with `cidr`. Risk, Commands, Plan and Compile are
--   `compile_plan` in the order in which it works, with `unique_commands`; Snapshot is what it
--   reads and writes. Verify is `verify` with `canonical_ios`, Execute is `execute`, Review is the
--   row of a receipt, and Apply is `apply_review`, which calls `enqueue` of Jobs. What Execute
--   returns is what `JobManager.execute` takes for the result of an operation.
-- - Scheduling: app/services/scheduling.py. Rule is `next_time` with `wall_time` and `upcoming`,
--   Definition is `validate_definition` and `preflight`, Dispatch is `dispatch`, which calls
--   `enqueue` of Jobs, and Tick is `tick` with `quarantine`. Define is `definition`, over
--   `prepare_run` of Api; Requests is app/schedules_api.py, where a save can be sent again (Retry).
-- - Network: app/services/network.py. Lock is `device_lock` as the steps of the threads that use it,
--   and Exclusion compares them with the sessions that a client sees.
-- - Automation: app/services/automation.py. Operation is `validate_operation` and
--   `configuration_play`, Untrusted is what Ansible may not render, Artifacts is
--   `collect_artifacts`.
-- - Telemetry: app/services/telemetry.py. Samples is `coalesced_sample`, Rates is `calculate_rates`
--   with the counters of `interfaces`.
-- - Api: app/api.py. Records is `get` and `reference`; Users, Devices, Credentials, Candidates and
--   Runs are its requests, on the tables of Models; Candidates has `verify_candidate` in Verify;
--   Inventory is a history of the device requests.
--   Runs calls `enqueue` of Jobs and `validate_operation` of Automation.
-- - Web: `guards` of app/__init__.py, and the sign-in and the change of a password of app/routes.py.
--   Accounts is a history of the requests that change accounts.
--
-- Conventions. A function that may raise returns a Result; what it changes, it returns. A statement
-- that holds a lock or a transaction is one step. Where the code waits for other code (SSH, the
-- pool, Ansible, a refreshed row), its answer is an argument, so a theorem holds whatever it
-- answers (Firewall.Execute.World is the record of the answers that one firewall run gets). What
-- other requests do between two transactions of one request is an argument too (`meanwhile` of
-- Api.Candidates.Verify). SHA-256, Fernet, the clock and new UUIDs are arguments too; that a token
-- opens to what was sealed is a hypothesis where it is needed. Times are texts as in the database,
-- or numbers of seconds (of microseconds or milliseconds where a file says so) where they are
-- compared. Password hashes, `str.lower` and the property `is_authenticated` of Flask-Login are
-- parameters. A request that fails leaves the tables as they were, where its function returns no
-- tables with the error.
--
-- Bounds and fuel. The limits of the code are constants of the model: 32 queued runs, 100,000
-- characters of output, 20 changes in a review, 370 days for the next time of a task, 8 sessions, 256
-- samples, 50 and 10 attempts to sign in, 1,000 artifacts. Numbers are unbounded as in Python. Only
-- the digits of `str(n)` are computed on fuel, n + 1 of them, which is more than n has digits. All
-- other recursion is on lists and texts.
--
-- Not modelled: threads, processes, files and sockets; HTTP routing, pages and read-only lists; the
-- parsers of device output and `read_state`; the fields of a plan that only the user interface
-- reads; `rule_data`, which reads dates and time zones, and the preview of a task; settings;
-- playbook uploads, backups, the scan of a network and migration; the installer, the playbooks and
-- the front end.
pub mod Base
pub mod Ipv4
pub mod Models
pub mod Security
pub mod Firewall
pub mod Jobs
pub mod Scheduling
pub mod Network
pub mod Automation
pub mod Telemetry
pub mod Api
pub mod Web
