-- ===== src/Banking/Scrape.antt =====
-- contexts/banking/application/RunBankScrapeUseCase.ts: one scrape of an account. What the readers,
-- the script loader and the script do is given, and so are the text of withTimeout's error and how
-- an error is read by the catch; the notifier is wired, and the warnings of the logger are left out.
pub mod Reported
mod Tests
use reconbanker.Common.{
  ℕ, Bool, true, false, not, ◌&&◌, List, [], ◌∷◌, Option, none, some, String, ◌=s◌, ltb,
  if◌then◌else◌, Result, ok, err, Error, not_found_error,
}
use reconbanker.Conciliation.Candidate.{Text}
use reconbanker.Events.{DomainEvent}
use reconbanker.Accounts.{SessionType, one_shot, persistent, LoginMode}
use reconbanker.Banking.Trail.{Entry}
use reconbanker.Banking.Failure.{Thrown, timeout_error, message, category_text, categorize_failure}
use reconbanker.Banking.Recorder.{
  RunRow, Recorder, Call, no_options, mark_success, mark_failed, write_run, succeed, fail, calls,
}
use reconbanker.Banking.Recorder.Launcher.{created}
use reconbanker.Banking.Ingest.{ScrapedTransaction, BankTransaction, Ingested, ingest}
use reconbanker.Banking.Alerts.{State, Faults, record_failure, record_success}

-- AccountForBanking
pub record Account : Type 0 where
  pub id : String
  pub user_id : String
  pub bank : String
  pub session_type : SessionType
  pub login_mode : LoginMode

-- How runScript settles before the timeout, if it does.
pub data Settled : Type 0 where
  returned : List ScrapedTransaction → Settled
  threw : Thrown → Settled
  hung : Settled

-- A run of a script: what it records before it settles or times out, and after that.
pub record ScriptRun : Type 0 where
  pub before : List Call
  pub settled : Settled
  pub later : List Call

-- What the calls before the run return or throw.
pub record Reads : Type 0 where
  pub account : Result (Option Account)
  pub session : Option (Result (Unit {0}))
  pub latest_throws : Option Error
  pub script : Result (Option String)
  pub create_throws : Option Error

-- The statements of the try block threw, or so many transactions were saved.
pub data Attempt : Type 0 where
  saved : ℕ → Attempt
  broke : Thrown → Attempt

-- The state after the run, and what execute throws.
pub record Scraped : Type 0 where
  pub rows : List BankTransaction
  pub published : List DomainEvent
  pub recorder : Recorder
  pub alerts : State
  pub thrown : Option Thrown

-- execute throws before there is a run, leaves a persistent account to its session, or runs a script.
pub data End : Type 0 where
  refused : Error → End
  delegated : End
  ran : Scraped → End

abbrev pub later_of : BankTransaction → Option BankTransaction → BankTransaction
later_of t none = t
later_of t (some best) = if ltb t.received_at best.received_at then best else t

-- ORDER BY received_at DESC LIMIT 1; of rows with the same time the database may take any.
unfoldable pub find_latest : String → List BankTransaction → Option BankTransaction
find_latest account [] = none
find_latest account (t ∷ rows) =
    let best = find_latest account rows in
    if t.account_id =s account then some (later_of t best) else best

-- BankTransactionRepository.findLatestExternalId
unfoldable pub find_latest_external_id : String → List BankTransaction → Option String
unfolding find_latest
find_latest_external_id account rows = elim (find_latest account rows) [
  | none ↦ none
  | some t ↦ some t.external_id
]

abbrev pub attempt_of : (Error → Thrown) → Option Error → ℕ → Attempt
attempt_of as_thrown none n = saved n
attempt_of as_thrown (some e) n = broke (as_thrown e)

abbrev pub session_of : Option (Result (Unit {0})) → End
session_of none = delegated
session_of (some (ok u)) = delegated
session_of (some (err e)) = refused e

module _ (publish : DomainEvent → Option Error) (as_thrown : Error → Thrown) (time_out : Text)
    (account script : String) where
  -- `await withTimeout(scriptEngine.runScript(…))`, then `await ingest.execute(…)`.
  unfoldable pub attempt :
      Settled → List BankTransaction → List BankTransaction × List DomainEvent × Attempt
  unfolding ingest
  attempt (returned ts) rows =
      let i = ingest publish account script ts rows in
      (i.rows, i.published, attempt_of as_thrown i.failure i.saved)
  attempt (threw e) rows = (rows, [], broke e)
  attempt hung rows = (rows, [], broke (timeout_error time_out))

-- Which statements on the run throw, and with what; whether steps are recorded.
module _ (throws : ℕ → Bool) (logger_throws : Bool) (json_length : Entry → Option ℕ)
    (statement_error : Thrown) (has_steps : Bool) where
  abbrev pub error_if : Bool → Option Thrown
  error_if true = some statement_error
  error_if false = none

  -- `if (recorder) await recorder.succeed(saved) else await scrapeRunRepo.markSuccess(runId, saved)`
  unfoldable pub close_success : ℕ → Recorder → Option Thrown × Recorder
  close_success n s =
      if has_steps then (none, succeed throws logger_throws json_length (some n) none s) else (
        error_if (throws s.writes),
        write_run throws logger_throws json_length (mark_success (some n) none) s,
      )

  unfoldable pub close_failure : Thrown → Recorder → Option Thrown × Recorder
  close_failure e s =
      if has_steps then (none, fail throws logger_throws json_length e no_options s) else (
        error_if (throws s.writes),
        write_run throws logger_throws json_length
            (mark_failed (message e) (category_text (categorize_failure e)) none) s,
      )

  -- What the script records; it is given no recorder where no steps are recorded.
  unfoldable pub script_calls : List Call → Recorder → Recorder
  script_calls cs s = if has_steps then calls throws logger_throws json_length cs s else s

  module _ (threshold : ℕ) (faults : Faults) (account : String) where
    abbrev pub notify_failure :
        Thrown → Option Thrown × Recorder → State → Option Thrown × Recorder × State
    notify_failure e (some d, s) alerts = (some d, s, alerts)
    notify_failure e (none, s) alerts =
        (none, s, record_failure threshold faults account (categorize_failure e) alerts)

    -- The catch block.
    unfoldable pub catch_failure : Thrown → Recorder → State → Option Thrown × Recorder × State
    unfolding close_failure
    catch_failure e s alerts = notify_failure e (close_failure e s) alerts

    abbrev pub notify_success : Option Thrown × Recorder → State → Option Thrown × Recorder × State
    notify_success (some d, s) alerts = catch_failure d s alerts
    notify_success (none, s) alerts = (none, s, record_success threshold faults account alerts)

    -- The rest of the try block, and the catch.
    unfoldable pub conclude : Attempt → Recorder → State → Option Thrown × Recorder × State
    unfolding catch_failure close_success
    conclude (saved n) s alerts = notify_success (close_success n s) alerts
    conclude (broke e) s alerts = catch_failure e s alerts

module _ (throws : ℕ → Bool) (logger_throws : Bool) (json_length : Entry → Option ℕ)
    (statement_error : Thrown) (has_steps : Bool) (threshold : ℕ) (faults : Faults)
    (publish : DomainEvent → Option Error) (as_thrown : Error → Thrown) (time_out : Text) where
  -- From `new ScrapeRunRecorder(…)` on. What the script records after it settled comes last.
  unfoldable pub run_script : String → String → ScriptRun → List BankTransaction → State → Scraped
  unfolding attempt conclude script_calls
  run_script account script x rows alerts =
      let start =
        script_calls throws logger_throws json_length statement_error has_steps x.before
          (created false) in
      let (rows', published, tried) =
        attempt publish as_thrown time_out account script x.settled rows in
      let (thrown, recorder, alerts') =
        conclude throws logger_throws json_length statement_error has_steps threshold faults account
          tried start alerts in
      record {
        rows = rows';
        published = published;
        recorder =
            script_calls throws logger_throws json_length statement_error has_steps x.later
              recorder;
        alerts = alerts';
        thrown = thrown;
      }

  module _ (scripts : Option String → ScriptRun) (reads : Reads) (rows : List BankTransaction)
      (alerts : State) (id : String) where
    abbrev pub create_and_run : String → Option Error → End
    create_and_run script (some e) = refused e
    create_and_run script none =
        ran (run_script id script (scripts (find_latest_external_id id rows)) rows alerts)

    abbrev pub with_script : Account → Result (Option String) → End
    with_script a (err e) = refused e
    with_script a (ok none) = refused (not_found_error a.bank)
    with_script a (ok (some script)) = create_and_run script reads.create_throws

    abbrev pub after_latest : Account → Option Error → End
    after_latest a (some e) = refused e
    after_latest a none = with_script a reads.script

    abbrev pub by_session_type : Account → SessionType → End
    by_session_type a persistent = session_of reads.session
    by_session_type a one_shot = after_latest a reads.latest_throws

    abbrev pub with_account : Result (Option Account) → End
    with_account (err e) = refused e
    with_account (ok none) = refused (not_found_error id)
    with_account (ok (some a)) = by_session_type a a.session_type

    -- RunBankScrapeUseCase.execute
    unfoldable pub execute : End
    unfolding run_script find_latest_external_id
    execute = with_account reads.account
