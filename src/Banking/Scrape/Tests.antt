-- ===== src/Banking/Scrape/Tests.antt =====
-- Witness for a scrape: the script logs in, hangs past the timeout, and records a success too late.
use reconbanker.Common.{
  ℕ, ◌≡◌, refl, Bool, false, true, [], ◌∷◌, Option, none, some, String, ok, Error,
}
use reconbanker.Events.{DomainEvent}
use reconbanker.Accounts.{one_shot, LoginMode}
use reconbanker.Banking.Trail.{Entry, units}
use reconbanker.Banking.Failure.{Thrown, error, login}
use reconbanker.Banking.Recorder.{opened, succeeded}
use reconbanker.Banking.Alerts.{Faults, State}
use reconbanker.Banking.Scrape.{Account, ScriptRun, hung, Reads, Scraped, ran, execute}
use reconbanker.Banking.Scrape.Reported.{Reports, IsReady, execute-Reports}

abbrev short : Entry → Option ℕ
short e = some 10

abbrev works : ℕ → Bool
works n = false

abbrev statement_error : Thrown
statement_error = error (units "statement")

abbrev as_thrown : Error → Thrown
as_thrown e = error (units "database")

abbrev no_faults : Faults
no_faults = record {
  record_throws = false;
  mark_throws = false;
  clear_throws = λ group. false;
  stream_throws = λ group. false;
}

abbrev no_alerts : State
no_alerts = record { rows = []; sent = [] }

abbrev publish : DomainEvent → Option Error
publish e = none

abbrev hanging : Option String → ScriptRun
hanging latest = record {
  before = opened login ∷ [];
  settled = hung;
  later = succeeded (some 3) none ∷ [];
}

abbrev account : Account
account = record {
  id = "a";
  user_id = "u";
  bank = "bank";
  session_type = one_shot;
  login_mode = LoginMode.simple;
}

abbrev reads : Reads
reads = record {
  account = ok (some account);
  session = none;
  latest_throws = none;
  script = ok (some "s");
  create_throws = none;
}

reads-IsReady : IsReady reads "s"
reads-IsReady = record {
  account = account;
  found = refl;
  single = refl;
  latest = refl;
  loaded = refl;
  inserted = refl;
}

execute-Reports_example :
    (w : Scraped) × (execute works false short statement_error true 3 no_faults publish as_thrown
        (units "bank scrape timed out")
        hanging
        reads
        []
        no_alerts
        "a"
      ≡ ran w)
    × Reports 3 no_faults publish as_thrown
        (units "bank scrape timed out")
        "a"
        "s"
        hung
        []
        no_alerts
        w
execute-Reports_example =
    execute-Reports works false short (λ n. refl) statement_error true 3 no_faults publish as_thrown
      (units "bank scrape timed out") hanging reads [] no_alerts "a" "s" reads-IsReady (refl, tt)
