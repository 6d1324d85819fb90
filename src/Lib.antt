-- ===== src/Lib.antt =====
-- ReconBanker: a server that scrapes bank movements and matches them with the pending orders of
-- shops. This library models the parts that decide, as functions on explicit tables, and proves what
-- makes them correct.
--
-- Paths are from the repository's root.
--
-- Conciliation/ is src/contexts/conciliation. Candidate, Fuzzy and Engine are domain/ConciliationEngine.ts
-- with its rules and its fuzzy heuristic (evaluate). Request is the aggregate
-- domain/ConciliationRequest.ts; Request.call is one call of one of its methods. Tables holds the
-- tables and one function for each statement of the repositories in infrastructure/, with the unique
-- constraints of the migrations as errors. Run, Incoming, Poll and Expire are the execute methods of
-- RunConciliationUseCase.ts, ProcessIncomingTransactionUseCase.ts with OnTransactionIngestedUseCase.ts,
-- PollPendingOrdersUseCase.ts and ExpireStaleRequestsUseCase.ts; a unit of work that throws gives back
-- the tables it began with (unit_of_work, shared/persistence/PgUnitOfWork.ts). Moves says what a use
-- case may do to the matches, and System runs the use cases one after another.
--
-- Banking/ is src/contexts/banking: Session is infrastructure/SessionManager.ts for one account, cut
-- into steps at each await, so that every interleaving is a list of events; Trail is
-- application/TrailBuffer.ts; Ingest is application/IngestTransactionsUseCase.ts
-- and Notify application/NotifyBankMovementUseCase.ts over
-- src/shared/infrastructure/webhooks/LoggingWebhookSender.ts. Failure is the vocabulary of a failed run
-- (domain/scrapeFailure.ts, scrapeStage.ts, monitorStopOutcome.ts), Recorder is
-- application/ScrapeRunRecorder.ts with the statements it makes, Recorder/Launcher is
-- RecordedSessionLauncher.ts, Otp is infrastructure/OtpAssistanceCoordinator.ts with its repository, and
-- Alerts is infrastructure/RealtimeScrapeFailureNotifier.ts with its repository. Scrape is
-- application/RunBankScrapeUseCase.ts, which puts Ingest, Recorder and Alerts together. Monitor is
-- src/contexts/script-engine/infrastructure/runMonitor.ts, which runs a session of Banking.
--
-- Scripts is src/contexts/script-engine: domain/BankScript.ts, the statements of
-- infrastructure/BankScriptRepository.ts and the use cases that promote, deprecate and publish.
--
-- Users is the second factor of src/contexts/user: application/verifyTwoFactorCode.ts and the use cases
-- around it.
--
-- Users/ApiKeys is the keys of the /v1 API: infrastructure/apiKeyCrypto.ts and ApiKeyRepository.ts, with
-- Use and Guard for application/CreateApiKeyUseCase.ts and ManageApiKeysUseCase.ts.
--
-- SafeUrl is src/shared/net/assertSafeUrl.ts.
--
-- Accounts is application/UpsertAccountConfigUseCase.ts of src/contexts/account; Store is the table
-- behind it (infrastructure/AccountConfigRepository.ts) and Cipher the format of its secrets
-- (src/shared/infrastructure/crypto/CredentialsCipher.ts); Reader is what conciliation reads of that
-- table (src/contexts/conciliation/infrastructure/adapters/AccountConfigReaderAdapter.ts).
--
-- Events are the domain events; Common has the tests, lists, results and numbers that all parts use.
--
-- Amounts are whole hundredths with the JavaScript special values (Num). Times are milliseconds.
-- The loops follow their lists, so no fuel is needed, but for the two loops of runMonitor: their
-- fuel counts rounds, and Banking/Monitor/Ends says how much is enough. What is read from outside
-- is a parameter: the clock, the ids of crypto.randomUUID, the rows that another transaction holds
-- (SKIP LOCKED), the candidates as a query saw them, toLowerCase with NFD, toUpperCase, the TOTP
-- library, the password hasher, the check of a URL where an account is configured, the URL parser,
-- isIP and the DNS lookup where it is made, the digest of a key, base64 and AES-256-GCM, what the
-- event bus throws, which statements of a recorder and which calls of the expiry and the poll
-- throw, whether a webhook that is sent arrives, whether login, shouldStop and onTransactions of a
-- session settle, how a script run ends, what a script's hooks and a code's stream answer, and the
-- length of JSON.stringify.
--
-- A division of the fuzzy score is kept as a fraction; the program compares doubles, which are in the
-- same order for the sizes that names have.
--
-- Not modelled: the HTTP routes, the composition root, the queues, the realtime gateway, the
-- browser runners, the sending of webhooks and the client, which are wiring, transport or display;
-- the read models, the bank's credentials and the enrolment of a second factor.
mod Common
pub mod Events
pub mod Conciliation
pub mod Banking
pub mod Scripts
pub mod Users
pub mod Accounts
pub mod SafeUrl
