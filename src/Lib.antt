-- ===== src/Lib.antt =====
-- The entity developer dashboard service: the credits (src/credits), that is plans of API credits
-- and of an allowance on the chain, which the service grants and activates, and which the lifecycle
-- events of credit-middleware use up; the onboarding of customers (src/customer-onboarding); the
-- members of a team (src/people); and what these use of the access matrix (src/config), of the
-- applications (src/app-auth) and of src/utils.
--
-- The parts and how they interact. A request grants a plan (grantCredit) or activates one
-- (activateCredit) in src/credits/services/credits.service.ts; both may replace the grants of a
-- wallet on the chain and queue commands for the middleware
-- (src/credits/services/credit-command.service.ts). The middleware answers with lifecycle jobs,
-- which src/credits/services/credit-event-store.service.ts validates and processes: a commit is
-- written to an outbox and charged to its plan in one transaction
-- (src/credits/repositories/credit.repository.ts), alerts are sent
-- (src/credits/services/credit-notification.service.ts), and the event is written to the ledger
-- under a lease. The results of transactions on the chain come from RabbitMQ and are turned into
-- commands (src/credits/services/ssi-transaction-result.consumer.ts).
--
-- The lifecycle jobs of a critical balance are taken in their order for each application
-- (src/credits/services/credit-lifecycle-consumer.service.ts). An onboarding
-- (src/customer-onboarding/services/customer-onboarding.service.ts) is a plan of steps, each of which
-- calls another part: it creates applications, grants their credits, registers a DID and sets up
-- widgets and pages. A run takes the steps that remain until one fails, and writes its log to the
-- record. A member of a team is invited, accepts, and switches to the account of the admin with the
-- permissions of a role (src/people/services/people.service.ts).
--
-- Which file models what:
--   Prelude, Exec     shared names; asynchronous methods that change the state and may throw
--   Json              untyped values and the tests that the code makes of them
--   Double, Calendar  Math.floor of products and quotients of doubles; dates in UTC
--   Collection        what the code relies on of a Mongo collection, and one in memory
--   World             the state, the services that are called, and the fate of each call
--   Credits.Schema    src/credits/schemas: CreditPlan, OutboxEntry (CreditCommitOutbox) and others
--   Credits.Event     the jobs and events of the lifecycle queue
--   Credits.Wallet    src/credits/credit-wallet.ts: sdk_plan_id, dashboard_plan_id and others
--   Credits.Meters, Credits.Robust
--                     the meters of a plan, and the predicates that most actions keep
--   Credits.Repository
--                     the repositories: create_plan, Commit (applyPlanCreditCommit), Activation
--                     (activateSsiCreditPlan), Lease (the ledger write of a commit)
--   Credits.Thresholds
--                     credit-notification.service.ts: its thresholds and notes
--   Credits.Notification, Credits.Command, Credits.SsiResults
--                     the services of these names, a function for each method
--   Credits.Service   credits.service.ts: Grant (grantCredit), Activate (activateCredit),
--                     Allowance (grantSSIAllowance), and the helpers
--   Credits.EventStore
--                     Validation, Measurement and Processing of an event; append is the entry
--   Credits.Lifecycle credit-lifecycle-consumer.service.ts: the calls of
--                     processCriticalBalanceInOrder as moves (arrive, move), and their Order
--   Credits.Life      everything that can arrive, one after the other
--   Credits.Tests     concrete services and documents
--   Access            src/config/access-matrix.ts; Policy: getAccessListForModule and
--                     evaluateAccessPolicy of src/utils/utils.ts
--   Url               sanitizeUrl and urlSanitizer of src/utils
--   AppAuth           getRandomSubdomain of src/app-auth/services/app-auth.service.ts
--   Onboarding.Schema, Onboarding.Desk
--                     the documents; the state of the onboarding and the services that it calls
--   Onboarding.Plan   which steps remain, and mergeLogs; Trace, Merge, Resume and Status: logs as
--                     traces of a plan
--   Onboarding.Calls, Onboarding.Locals, Onboarding.Steps
--                     makeExternalRequest, storeDataInRedis, getAccessToken; the variables of a
--                     run; a function for each case of the switch (Ssi, Kyc)
--   Onboarding.Process
--                     processCustomerOnboarding: run_steps is its loop; Run, Sound, Preserved,
--                     Finished and Runs: what a run leaves
--   Onboarding.Request
--                     the other methods of the service
--   People            src/people: Invitation (createInvitation, acceptInvite, update, attachRole)
--                     and Session (switchTenantAccount, updateSession)
--
-- The state is the record World: the three collections, the jobs, mails and transactions that were
-- sent, and counters. Mongo, BullMQ, the chain, the mail queue, the clock and the random identifiers
-- are parameters (Services). Each call of them has a fate: it is done, it is refused and nothing has
-- happened, or it is done and its reply is lost; session.withTransaction commits, aborts or loses
-- its reply in the same way. Which document a filter takes, and where a new one is put, is left open.
--
-- The onboarding has the record Desk as its state and Office for its services. Its three
-- collections have fates like those of the credits; the other services (createAnApp, grantCredit,
-- the web pages, Redis, JWT, HTTP, the mail queue) are actions on a state of their own, which may do
-- anything to that state, return or throw. The state of People is the record Team, with the sessions
-- in Redis and their index as lists. A step of an onboarding that fails keeps what it has changed
-- outside and nothing of the variables, of which the code reads none after a failure.
--
-- Bounds and fuel. Stored numbers are non-negative integers; a floating product is rounded as IEEE
-- 754 does it, with fuel 64 and 106 for the scaling of 53-bit mantissas, which covers all products
-- and quotients of safe integers; the search for a year has fuel 600, and each step of it makes up
-- for the estimate over more than 480 years, which covers every time that a date can hold.
-- The leases last 30000 milliseconds. getRandomSubdomain calls itself without a bound; its fuel is
-- one for each identifier that is drawn. The loop over the steps is a recursion on their list.
--
-- What is simplified. A message is kept without the values that are put into it, and a log line not
-- at all. The calls of a Promise.all are made in sequence. Dates are from 1970 on. A date
-- that an event gives is an Invalid Date above 8.64e15 milliseconds, and Mongoose refuses to write it;
-- the expiry that an activation counts from now is taken to stay below that. A message to the
-- chain keeps its period as a quotient of years, not the seconds. The text of a number is taken for
-- the number. The threshold lists are whole numbers. The texts of CreditType are those that the
-- repository's tests spell out. An undefined value in an update of a document is not written. The
-- time that Redis keeps a key is left out. The parsed answer of another host is kept as far as it is
-- read.
--
-- Not modelled: the retries of BullMQ, the timer of the expiry scan, the controllers and DTO checks, queries that only read, the
-- removal of a member and the list of the sessions of a tenant, the creation of an application and
-- the grants of its permissions, and the other subsystems (web pages, social login, wallets, mail
-- templates).
pub mod Prelude
pub mod Exec
pub mod Json
pub mod Double
pub mod Calendar
pub mod Collection
pub mod World
pub mod Credits
pub mod Access
pub mod Url
pub mod AppAuth
pub mod Onboarding
pub mod People
