-- ===== src/Lib.antt =====
-- Money Movement: a closed money ecosystem of wallets over a double-entry ledger, in FastAPI and
-- SQLAlchemy on PostgreSQL. A call of a service runs in one database transaction; the ledger
-- service posts money between locked wallets; the transfer service makes a posting idempotent and
-- authorised; a money request is settled by the transfer path; registration funds a wallet from the
-- system mint; a login is a family of refresh tokens.
--
-- How the files follow the program:
-- - Common: Boolean tests, integers, lists, texts, sorting, the text of a UUID, decimal digits, white
--   space and Base64 as Python's library has them.
-- - Models: the rows and enums of app/models and app/constants.py. Errors: app/core/errors.py, with
--   the exceptions of the database.
-- - Db: the tables and constraints of migrations/versions (Tables, Checks), service calls as actions
--   on a connection with commit, rollback, savepoint and the end of a request (Actions), the
--   statements that the services send (Statements), and proof rules for calls (Rules, Gives,
--   Inversion).
-- - Env: the settings, clock, random draws and other transactions that a call meets, and `audit` of
--   app/services/auth_service.py. Security: app/core/security.py.
-- - Ledger: app/services/ledger_service.py (`lock_wallets`, `post_double_entry`, the four queries of
--   the reconciliation) and `reconcile` of app/routers/admin.py.
-- - Transfer: app/services/transfer_service.py (`resolve_recipient`, `execute_transfer`,
--   `send_money`).
-- - Requests: app/services/request_service.py (`create_request`, `list_requests`,
--   `count_pending_incoming`, `approve`, `decline`, `cancel`).
-- - Auth: app/services/auth_service.py (`register`, `authenticate`). Sessions: the rest of it
--   (`issue_tokens`, `rotate_tokens`, `logout`) and `get_current_principal` of app/core/deps.py.
-- - Statement: app/services/statement_service.py: the pages by position (Statement), the text of a
--   cursor (Cursor), the rows (Rows), the lookup by reference (Lookup). `follow` and `follow_cursors`
--   are clients that ask for one page after the other.
-- - Schemas: the request bodies of app/schemas: amounts, free text, phones, PINs and passwords.
-- - Api: the handlers of app/main.py, the bearer check of app/core/deps.py and app/core/security.py, and
--   the endpoints of app/routers (Transfers, MoneyRequests, Accounts). `endpoint` is the course of a
--   request through FastAPI and slowapi: caller, body, limit, work. Endpoints whose Python name a
--   service has too are called `post_…` and `get_…`. Limits: `user_or_ip` of app/core/limiter.py.
-- - System: the migrated database and any sequence of requests to the endpoints that write (Rules,
--   Additive, Growing: proof rules for such runs; Running, Decided, Appending), and the tests at
--   start-up (Startup: `assert_bootable` of app/config.py, `lifespan` of app/main.py).
-- - Seed: the check and the demo users of seed.py.
-- - Tests: sample tables, tests and examples.
--
-- How the model reads the code:
-- - A UUID is a number, which orders as PostgreSQL orders it. A time is a number of seconds. Money is
--   a whole number of hundredths. A text is a list of code points.
-- - An action takes a connection, which has the committed tables and those that its transaction sees,
--   and gives a value or an exception with the connection after it. What was written before an
--   exception is still in the transaction; a savepoint, a rollback or the end of the request takes it
--   away.
-- - Other transactions commit while a call waits for a row lock, or between a check and an insert.
--   `wait` applies their commits, a function of the environment, to both the committed tables and
--   those that the transaction sees (READ COMMITTED). The wait of `lock_wallets` stands before its
--   caller's savepoint; that of an UPDATE of `users` stands before the statement, whose values were read
--   before it. A theorem that needs the others to behave says so in a hypothesis.
-- - A new or changed row is checked against the constraints when it is written. Deferred
--   serialisation failures, deadlock detection and lost connections are not modelled.
-- - bcrypt, SHA-256, the parsing of UUIDs and the signing and decoding of tokens are
--   parameters. Time that a dummy verification spends is not modelled.
--
-- Fuel: `follow` and `follow_cursors` ask for a given number of pages, and as many as the statement has
-- entries are enough; the digits of a number are read off with one step more than the number, which is
-- more than it has digits. Every other definition is by structural recursion.
--
-- Not modelled: the counts of the rate limiter (app/core/limiter.py calls slowapi; its verdict on a
-- request is an argument), the validation of the caller's address (`client_ip`), the set-up and static files of
-- app/main.py, the texts of error messages, the append-only triggers and downgrades of the migrations,
-- the static page, Alembic's environment, the reset of seed.py, and the tests. Base64 is defined
-- as Python's library has it; ISO dates, `int` and the decoding of UTF-8 are parameters of the cursor,
-- with what it relies on as named laws.
pub mod Common
pub mod Models
pub mod Errors
pub mod Db
pub mod Env
pub mod Security
pub mod Ledger
pub mod Transfer
pub mod Requests
pub mod Auth
pub mod Sessions
pub mod Statement
pub mod Schemas
pub mod Api
pub mod System
pub mod Seed
pub mod Tests
