-- ===== src/Banking/Scrape/Reported.antt =====
-- contexts/banking/application/RunBankScrapeUseCase.ts: the row of a run, and what the notifier is told.
use reconbanker.Common.{
  [], ◌∙◌, ℕ, ◌≡◌, refl, sym, ap, subst, ok, Bool, true, false, List, Option, none, some, String,
  arith, Error,
}
use reconbanker.Conciliation.Candidate.{Text}
use reconbanker.Events.{DomainEvent}
use reconbanker.Banking.Trail.{Entry}
use reconbanker.Banking.Failure.{Thrown, timeout_error, message, category_text, categorize_failure}
use reconbanker.Banking.Recorder.{
  RunRow, failed, RunStatus, Recorder, no_options, mark_success, mark_failed, write_run, succeed,
  call, calls, succeeded, broke as broke_call,
}
use reconbanker.Banking.Recorder.Closing.{calls-SameVerdict, call-closes}
use reconbanker.Banking.Recorder.Launcher.{
  new_row, created, status_of, Recording, calls-Recording, fail-status, write_run-run,
}
use reconbanker.Banking.Ingest.{BankTransaction, Ingested, ingest}
use reconbanker.Banking.Alerts.{State, Faults, failure, success, outcome}
use reconbanker.Accounts.{one_shot}
use reconbanker.Banking.Scrape.{
  Settled, returned, threw, hung, attempt_of, ScriptRun, Reads, Attempt, saved, broke, Scraped, ran,
  attempt, close_success, close_failure, script_calls, catch_failure, conclude, run_script, execute,
  Account, find_latest_external_id,
}

-- What the table of transactions and the bus get: the batch of a script that returned in time.
abbrev pub ingested :
    (DomainEvent → Option Error) → String → String → Settled → List BankTransaction → Ingested
ingested publish account script (returned ts) rows = ingest publish account script ts rows
ingested publish account script _ rows = record {
  rows = rows;
  saved = 0;
  published = [];
  failure = none;
}

abbrev pub by_failure : (Error → Thrown) → Option Error → ℕ → Attempt
by_failure as_thrown none n = saved n
by_failure as_thrown (some e) n = broke (as_thrown e)

-- The verdict that a run deserves: a success only where its script returned in time and the batch
-- went through.
abbrev pub deserved : (Error → Thrown) → Text → Settled → Option Error → ℕ → Attempt
deserved as_thrown time_out (returned ts) thrown n = by_failure as_thrown thrown n
deserved as_thrown time_out (threw e) thrown n = broke e
deserved as_thrown time_out hung thrown n = broke (timeout_error time_out)

-- The row of a run whose attempt went so.
abbrev pub IsRecorded : Attempt → Option RunRow → Type 0
IsRecorded (saved n) run =
    run ≡ some (record new_row { status = RunStatus.success; transactions_found = some n })
IsRecorded (broke e) run = status_of run ≡ some failed

-- The notifier is told of the same outcome.
abbrev pub told : ℕ → Faults → String → Attempt → State → State
told threshold faults account (saved n) alerts = outcome threshold (success faults account) alerts
told threshold faults account (broke e) alerts =
    outcome threshold (failure faults account (categorize_failure e)) alerts

-- A run that is closed with no error thrown.
record IsConcluded (a : Attempt) (alerts : State) (x : Option Thrown × Recorder × State)
    : Type 0 where
  recorded : IsRecorded a x.1.run
  heard : x.2 ≡ alerts
  resolved : x.0 ≡ none

module _ (throws : ℕ → Bool) (logger_throws : Bool) (json_length : Entry → Option ℕ)
    (works : (n : ℕ) → throws n ≡ false) (statement_error : Thrown) where
  succeed-run :
      (found : Option ℕ) (s : Recorder) (r : RunRow)
      → s.closed ≡ false
      → s.run ≡ some r
      → (succeed throws logger_throws json_length found none s).run
        ≡ some (mark_success found none r)
  unfolding succeed write_run
  succeed-run found s r o h = ground (arith, works s.writes)

  mark-run :
      (change : RunRow → RunRow) (s : Recorder) (r : RunRow)
      → s.run ≡ some r
      → (write_run throws logger_throws json_length change s).run ≡ some (change r)
  mark-run change s r h = rw (write_run-run throws logger_throws json_length works change s, h) refl

  module _ (threshold : ℕ) (faults : Faults) (account : String) where
    conclude-steps :
        (a : Attempt) (s : Recorder) (alerts : State)
        → s.closed ≡ false
        → s.run ≡ some new_row
        → IsConcluded a (told threshold faults account a alerts) (
            conclude throws logger_throws json_length statement_error true threshold faults account
              a s alerts)
    unfolding conclude close_success catch_failure close_failure outcome mark_success
    conclude-steps (saved n) s alerts o h = record {
      recorded = succeed-run (some n) s new_row o h;
      heard = refl;
      resolved = refl;
    }
    conclude-steps (broke e) s alerts o h = record {
      recorded = fail-status throws logger_throws json_length works e no_options s new_row o h;
      heard = refl;
      resolved = refl;
    }

    conclude-rows :
        (a : Attempt) (s : Recorder) (alerts : State)
        → s.run ≡ some new_row
        → IsConcluded a (told threshold faults account a alerts) (
            conclude throws logger_throws json_length statement_error false threshold faults account
              a s alerts)
    unfolding conclude close_success catch_failure close_failure outcome mark_failed mark_success
    conclude-rows (saved n) s alerts h = rw (works s.writes) (record {
      recorded = mark-run (mark_success (some n) none) s new_row h;
      heard = refl;
      resolved = refl;
    })
    conclude-rows (broke e) s alerts h =
        let mark = mark_failed (message e) (category_text (categorize_failure e)) none in
        rw (works s.writes) (record {
          recorded = ap status_of (mark-run mark s new_row h);
          heard = refl;
          resolved = refl;
        })

    conclude-closed :
        (a : Attempt) (s : Recorder) (alerts : State)
        → (conclude throws logger_throws json_length statement_error true threshold faults account a
            s alerts).1.closed
          ≡ true
    unfolding conclude close_success catch_failure close_failure call
    conclude-closed (saved n) s alerts =
        call-closes throws logger_throws json_length (succeeded (some n) none) s refl
    conclude-closed (broke e) s alerts =
        call-closes throws logger_throws json_length (broke_call e no_options) s refl

by_failure-attempt :
    (as_thrown : Error → Thrown) (o : Option Error) (n : ℕ)
    → attempt_of as_thrown o n ≡ by_failure as_thrown o n
by_failure-attempt as_thrown none n = refl
by_failure-attempt as_thrown (some e) n = refl

attempt-deserved :
    (publish : DomainEvent → Option Error) (as_thrown : Error → Thrown) (time_out : Text)
    (account script : String) (x : Settled) (rows : List BankTransaction)
    → let i = ingested publish account script x rows in
      (attempt publish as_thrown time_out account script x rows)
      ≡ (i.rows, i.published, deserved as_thrown time_out x i.failure i.saved)
unfolding attempt
attempt-deserved publish as_thrown time_out account script (returned ts) rows =
    let i = ingest publish account script ts rows in
    ap (λ a. (i.rows, i.published, a)) (by_failure-attempt as_thrown i.failure i.saved)
attempt-deserved publish as_thrown time_out account script (threw e) rows = refl
attempt-deserved publish as_thrown time_out account script hung rows = refl

-- The row and the notifier have the outcome that the run of the script deserves, the table and the
-- bus have its batch, and nothing is thrown.
pub record Reports (threshold : ℕ) (faults : Faults) (publish : DomainEvent → Option Error)
    (as_thrown : Error → Thrown) (time_out : Text) (account script : String) (x : Settled)
    (rows : List BankTransaction) (alerts : State) (w : Scraped) : Type 0 where
  pub recorded :
      let i = ingested publish account script x rows in
      IsRecorded (deserved as_thrown time_out x i.failure i.saved) w.recorder.run
  pub heard :
      let i = ingested publish account script x rows in
      w.alerts
      ≡ told threshold faults account (deserved as_thrown time_out x i.failure i.saved) alerts
  pub resolved : w.thrown ≡ none
  pub stored : w.rows ≡ (ingested publish account script x rows).rows
  pub announced : w.published ≡ (ingested publish account script x rows).published

-- The account is read as one of single scrapes, and all up to the row of the run goes through.
pub record IsReady (reads : Reads) (script : String) : Type 0 where
  pub account : Account
  pub found : reads.account ≡ ok (some account)
  pub single : account.session_type ≡ one_shot
  pub latest : reads.latest_throws ≡ none
  pub loaded : reads.script ≡ ok (some script)
  pub inserted : reads.create_throws ≡ none

module _ (throws : ℕ → Bool) (logger_throws : Bool) (json_length : Entry → Option ℕ)
    (works : (n : ℕ) → throws n ≡ false) (statement_error : Thrown) (has_steps : Bool)
    (threshold : ℕ) (faults : Faults) (publish : DomainEvent → Option Error)
    (as_thrown : Error → Thrown) (time_out : Text) where
  run_script-Reports :
      (has : Bool) (account script : String) (x : ScriptRun) (rows : List BankTransaction)
      (alerts : State)
      → Recording x.before
      → Reports threshold faults publish as_thrown time_out account script x.settled rows alerts (
          run_script throws logger_throws json_length statement_error has threshold faults publish
            as_thrown time_out account script x rows alerts)
  unfolding run_script script_calls created
  run_script-Reports true account script x rows alerts q =
      let tried = (attempt publish as_thrown time_out account script x.settled rows).2 in
      let fair = attempt-deserved publish as_thrown time_out account script x.settled rows in
      let start = calls throws logger_throws json_length x.before (created false) in
      let same =
        calls-Recording throws logger_throws json_length works x.before (created false) q in
      let end =
        conclude-steps throws logger_throws json_length works statement_error threshold faults
          account tried start alerts same.same_closed same.same_run in
      let closed =
        (conclude throws logger_throws json_length statement_error true threshold faults account
          tried start alerts).1 in
      let after = calls-SameVerdict throws logger_throws json_length x.later closed (
        conclude-closed throws logger_throws json_length works statement_error threshold faults
          account tried start alerts) in
      record {
        recorded =
            subst (λ a. IsRecorded a (calls throws logger_throws json_length x.later closed).run)
              (ap (λ t. t.2) fair) (subst (IsRecorded tried) (sym after.same_run) end.recorded);
        heard = end.heard ∙ ap (λ t. told threshold faults account t.2 alerts) fair;
        resolved = end.resolved;
        stored = ap (λ t. t.0) fair;
        announced = ap (λ t. t.1) fair;
      }
  run_script-Reports false account script x rows alerts q =
      let tried = (attempt publish as_thrown time_out account script x.settled rows).2 in
      let fair = attempt-deserved publish as_thrown time_out account script x.settled rows in
      let end =
        conclude-rows throws logger_throws json_length works statement_error threshold faults
          account tried (created false) alerts refl in
      let closed =
        (conclude throws logger_throws json_length statement_error false threshold faults account
          tried (created false) alerts).1 in
      record {
        recorded = subst (λ a. IsRecorded a closed.run) (ap (λ t. t.2) fair) end.recorded;
        heard = end.heard ∙ ap (λ t. told threshold faults account t.2 alerts) fair;
        resolved = end.resolved;
        stored = ap (λ t. t.0) fair;
        announced = ap (λ t. t.1) fair;
      }

  -- When the statements on the run work, a scrape whose reads go through ends with no error, however
  -- its script ends and whatever it still records after the timeout: the row of the run is a success
  -- with the count of saved transactions exactly when the script returned in time and its batch was
  -- ingested, else it is failed, and the notifier is told of the same outcome. The table and the bus
  -- have what ingesting the batch gives them, and nothing where the script did not return in time.
  pub execute-Reports :
      (scripts : Option String → ScriptRun) (reads : Reads) (rows : List BankTransaction)
      (alerts : State) (id script : String)
      → IsReady reads script
      → Recording (scripts (find_latest_external_id id rows)).before
      → (w : Scraped) × (execute throws logger_throws json_length statement_error has_steps
            threshold faults publish as_thrown time_out scripts reads rows alerts id
          ≡ ran w)
        × Reports threshold faults publish as_thrown time_out id script
            (scripts (find_latest_external_id id rows)).settled
            rows
            alerts
            w
  unfolding execute
  execute-Reports scripts reads rows alerts id script ready q = (
    run_script throws logger_throws json_length statement_error has_steps threshold faults publish
        as_thrown time_out id script (scripts (find_latest_external_id id rows)) rows alerts,
    rw (ready.found, ready.single, ready.latest, ready.loaded, ready.inserted) refl,
    run_script-Reports has_steps id script (scripts (find_latest_external_id id rows)) rows alerts
        q,
  )
