-- ===== src/Lib.antt =====
-- multi-tenant-subscription-management: the logic of its services, and what keeps tenants apart.
--
-- The program is a set of NestJS services over PostgreSQL and Kafka, one folder of backend/apps each,
-- with libraries in backend/libs. A request carries a tenant context; a service opens a transaction
-- whose connection is scoped to the context's organisation, PostgreSQL hides the rows of the others
-- by the policy tenant_isolation, and events are published after the commit. user-service counts
-- seats in the subscription row that subscription-service owns, resource-service counts bytes in its
-- own plan_limit_cache, and each learns of the other's changes by events.
--
-- Files, and the code that they are about:
--   Base, Base/*          numbers, tests, and lists of rows: SELECT, COUNT, SUM and UPDATE
--   Common                backend/libs/common: roles, tenant context, errors, events
--   Database, Database/*  backend/libs/database, TenantContextStore and EventPublisher. Actions has
--                         promises as state passing with thrown errors, Queries the queries under
--                         the policy, Scoping the four ways to open a transaction, Isolation what
--                         the policy guarantees, Preservation how that passes on to composed work
--   Pagination/*          the listPage of every repository: Pages has ORDER BY, LIMIT and the cursor;
--                         Order, Following, Items and Precision what follows of any list
--   UserService/*         backend/apps/user-service: Tables (entities and migrations), Repositories,
--                         Users (users.service.ts), Lists (the queries that only read), UsersRead
--                         (users-read.service.ts), Sweep (the hourly job), Provisioning (the first
--                         admin). SeatCount/*, Keys, Isolation/*, LastAdmin, Outcomes, SweepEffect,
--                         Reading and History have the theorems
--   ResourceService/*     backend/apps/resource-service: Tables, Repositories, Resources
--                         (resources.service.ts), Lists, PlanLimits (the consumer of plan changes);
--                         StorageCount/*, Privacy and Listing have the theorems
--   SubscriptionService/* backend/apps/subscription-service: Tables, Repositories, Subscriptions
--                         (subscriptions.service.ts), StorageReconciliation (the consumer),
--                         Usage (usage.service.ts and the alarm consumer); PlanChange and Reconciliation have the theorems
--   AuthService/*         backend/apps/auth-service: Tables, Repositories, Tokens
--                         (token-issuer.service.ts), Auth (auth.service.ts), Interleaving (refreshes at
--                         the same time); Login, Rotation and Interleaving/* have the theorems
--   TenantService/*       backend/apps/tenant-service: Tables, Repositories, Slugs, Onboarding
--                         (onboarding.service.ts), Organizations; Slug and Resumption have the
--                         theorems
--   AuditService/*        backend/apps/audit-service: Tables (with a policy of their own),
--                         Repositories, Consumers, Audit (audit.service.ts); Record, Scope and
--                         Replay have the theorems
--   Kafka, Kafka/*        backend/libs/kafka: Consumer (base-consumer.ts, for any handler),
--                         PostgresStore (postgres-consumed-event.store.ts of the services), Publisher
--                         (event-publisher.ts); Delivery, Attempts, Store, Refusal and Publishing have the theorems
--   TenantContext/*       backend/libs/tenant-context: Hex (what is used of node's Buffer), Signer
--                         (internal-context.signer.ts), Middleware (the middleware and the guard), HttpClient;
--                         HexDecoding, Signature and Admission have the theorems
--   Redis/*               backend/libs/redis: Client (the commands, and the keys), Throttling, Denylist (and
--                         the idempotency keys), Laws (what Redis documents); Hits has the theorem
--   ApiGateway/*          backend/apps/api-gateway and backend/libs/auth: Jwt (strategy, guards and
--                         interceptor), ThrottleRoutes, Proxy, Sessions (auth.controller.ts); Identity
--                         and Logout have the theorems
--   Authorization/*       backend/libs/authorization: Ability (casl-ability.factory.ts and the guard);
--                         Decisions has the theorem
--   Frontend/*            frontend/src: CursorPaging (useCursorPagination.ts), ApiClient (services/api.ts
--                         and tokenStore.ts), HashSeed; Visits, SingleRefresh and HashPick have the
--                         theorems
-- A module Tests beside them runs the definitions at small inputs.
--
-- How state and operations correspond. A database is a record of lists of rows, in the order in
-- which they were inserted. A connection adds the setting app.current_org. `transaction` and its
-- siblings run work on a copy of the tables and keep it if the work returns. The world of a
-- service adds the list of events handed to the publisher, whose failures the code only logs. The
-- body of a transaction is named after its method with `_work`. Ids, addresses, names and hashes
-- are numbers, since the code only compares them; times count the smallest unit that the code
-- reads, which is the microsecond in the lists that are ordered by a column of the database, and
-- the millisecond elsewhere. New ids, random tokens and the time are arguments. A cursor is the
-- pair that its text stands for, and no malformed text. SHA-256, HMAC, Redis, CASL, argon2,
-- axios, the signing of tokens, and other services as their clients see them are parameters.
-- Texts for people are left out of errors. Loops are over lists, and the retries
-- of a message over their number. Only who pages through a list has fuel, the number of requests;
-- one more than there are rows is enough.
--
-- Not modelled: that transactions of several connections interleave (a row lock is a read here;
-- of auth-service, the pieces of a refresh do interleave, and of user-service two revocations),
-- the broker, the gateway's other routes, and most of the frontend, which shows what the services
-- answer.
pub mod Base
pub mod Common
pub mod Database
pub mod Pagination
pub mod UserService
pub mod ResourceService
pub mod SubscriptionService
pub mod AuthService
pub mod TenantService
pub mod Kafka
pub mod ApiGateway
pub mod AuditService
pub mod Authorization
pub mod Frontend
pub mod Redis
pub mod TenantContext
