-- ===== src/Lib.antt =====
-- The API template: a Litestar service with an identity context (registration, e-mail
-- confirmation by one-time codes, password reset, tokens), a filtering language for list routes
-- with its compiler to SQL conditions, uploaded objects, and a telemetry pipeline.
--
-- * Kernel models shared_kernel: Kernel/Errors the status codes and details of
--   src/app/shared_kernel/errors, Kernel/Result the Result of
--   src/app/shared_kernel/ports/result.py; Kernel/Outcomes puts calls together that may raise,
--   Kernel/Texts and Kernel/Dicts are what the code asks of Python's str and dict.
-- * Sql is the interface to PostgreSQL and SQLAlchemy, which are not code of this repository:
--   the statements that the repositories send, with the documented effect of each on the rows
--   of a table as a law. Sql/Memory is a table that meets the laws, Sql/Laws what follows from
--   them.
-- * Identity/Data holds the rows of src/app/data_access/orm/identity/models, the events and
--   constants of src/app/domain/identity; Identity/Session the session and the unit of work of
--   src/app/data_access/orm/unit_of_work.py.
-- * Identity/OtpRepository models
--   src/app/data_access/orm/identity/repositories/otp_orm_repository.py, one function for each
--   method. Identity/Confirmation models
--   src/app/application/identity/services/user_confirmation_service.py: `issue` and `confirm`.
-- * Identity/Passwords models src/app/infra/services/password_service.py over an interface to
--   bcrypt; Identity/Tokens the payloads of src/app/shared_kernel/constants/enums.py and the
--   interface to PyJWT; Identity/Auth the provider of src/app/infra/providers/jwt_provider.py,
--   src/app/application/identity/services/auth_service.py, and the handlers of login and
--   refresh.
-- * Identity/Users models src/app/domain/identity/aggregates/user_aggregate.py,
--   Identity/UserRepository
--   src/app/data_access/orm/identity/repositories/user_orm_repository.py without the pictures
--   of the recovery; of it, Identity/UserList has get_list with the filters of
--   src/app/data_access/orm/identity/filter_compilers.py and the handler of the query, and
--   Identity/UserDetail get_detailed with its two handlers.
-- * Identity/Registration models src/app/application/identity/services/registration_service.py,
--   the validator and the handlers of src/app/application/identity/handlers/auth_handlers.py;
--   Identity/Reset src/app/application/identity/handlers/forgot_password_handlers.py;
--   Identity/Account the commands of
--   src/app/application/identity/handlers/user_account_handlers.py. A handler is cut at its
--   early returns into functions by clauses, each of which says in its comment where it stands.
-- * Identity/Access models who a request is served as:
--   src/app/api/http/middlewares/deps_middleware.py, src/app/api/deps/context_deps.py, and the
--   keys of src/app/application/identity/services/api_key_services.py with
--   src/app/data_access/orm/identity/repositories/api_key_orm_repository.py.
-- * Identity/Tests, Identity/AccountTests, Identity/AccessTests and Identity/ListTests hold a
--   concrete environment and the concrete requests at which the theorems are applied; each
--   other part has tests of its own.
-- * Http models how a request that raises is answered: Http/Errors the exceptions of
--   src/app/shared_kernel/errors/app_exception.py with their content, Http/Handler
--   src/app/api/http/middlewares/exception_middleware.py with the alerts that it emits.
-- * Filtering models src/app/modules/filtering: Filtering/Values the values with Python's
--   comparisons, Filtering/Specs and Filtering/Factories types.py, Filtering/Validator
--   validator.py with one function for each method, Filtering/Parser parser.py, Filtering/Meta
--   meta.py over the schemas of pydantic. Filtering/Compiler models
--   src/app/data_access/orm/adapters/filter_compilers.py over an interface to SQLAlchemy's
--   columns; the meaning of a condition on a row is Filtering/Compiler/Rows. A value goes from
--   the pipeline of its field to the validator, from there by the parser into a container, and
--   by the compiler into a condition; Filtering/Query puts these together. What a field asks of
--   a row is said apart from the code in Filtering/Wants. Filtering/Litestar models
--   litestar_integration.py: how a query model is bound to a request, the schemas and
--   parameters that document it, and their place in the OpenAPI document.
-- * Blob models the uploads: Blob/Validators src/app/application/blob/validators, Blob/Storage
--   src/app/infra/adapters/local_blob_storage.py over the disk and Pillow, Blob/Handlers
--   src/app/application/blob/handlers with the queries of src/app/data_access/orm/blob. Which
--   writes, unlinks, inserts and commits go through is the environment's to say; a write or an
--   unlink that fails leaves the files as they were.
-- * Orm/Queries, with the pages of a statement in Orm/Queries/Pages, and Orm/Batches model
--   src/app/data_access/orm/base/base_orm_repository.py, Orm/Ordering
--   src/app/shared_kernel/params/ordering.py and query_mixins.py.
-- * EventBus models src/app/infra/event_sourcing/event_bus.py over any handlers and
--   middlewares; Identity/Session has publish as the identity services use it, with the events
--   that the bus is given.
-- * Telemetry/Writer models src/app/modules/telemetry/writers/base.py as steps of a task and
--   its callers, Telemetry/Composer the filters and the composer of src/app/modules/telemetry,
--   Telemetry/Runner how the daemon builds a composer from its configuration, Telemetry/Bucket
--   the rate limit of src/app/modules/telemetry/rate_limit.py and Telemetry/Telegram the writer
--   that waits for it, Telemetry/Masking src/app/modules/telemetry/logging/masking.py over its
--   two regular expressions, Telemetry/Reader src/app/modules/telemetry/reader/filesystem.py
--   over what a scan of the directory finds.
--
-- A request is an action on a World: the tables as its transaction sees them and as they were
-- last committed, the changes that the session holds back (it is made with autoflush=False),
-- the events given to the bus, and counters for the clock readings, codes and UUIDs that it has
-- used up, whose values the environment gives. An action returns or raises; a Result is a
-- value.
--
-- Times are numbers: epochs in seconds, database times in microseconds. Python's integers are
-- unbounded, so no width is cut off. The task of a telemetry writer runs a given number of
-- rounds; one more than there are events is enough to end it after a close. The batch loops run
-- a given number of rounds; one more than there are objects is enough. A wait for a token runs
-- on the clock readings it is given. The search for a model in a type goes a given number of
-- levels down; one more than the type is deep is enough. Nothing else runs on fuel. A bucket
-- counts whole ticks and whole parts of a token, so the rounding of Python's floats is not
-- modelled; a sleep is over at the first tick that is not before its end. The numbers of
-- filters are whole, so a fraction is not among them; moments are instants, so a time without a
-- zone is not either.
--
-- Not modelled: the lists of blobs, the middlewares of the event bus, the mediator, the text of
-- the Telegram messages, the Postgres writer of the telemetry. Nor the dependency-injection
-- wiring, the HTTP routers, the configuration, the migrations, the mail transport, Redis and
-- the static checks of src/app/shared_kernel/utils/static_analys, which have no logic of their
-- own or only call libraries.
pub mod Base
pub mod Blob
pub mod EventBus
pub mod Filtering
pub mod Http
pub mod Identity
pub mod Kernel
pub mod Orm
pub mod Sql
pub mod Telemetry
