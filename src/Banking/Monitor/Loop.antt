-- ===== src/Banking/Monitor/Loop.antt =====
-- contexts/script-engine/infrastructure/runMonitor.ts: its two loops and the whole function. Fuel
-- counts rounds; Ends says how much is enough. The message of an authentication that ran out of time
-- is cut before its number of milliseconds.
use reconbanker.Common.{
  ℕ, zero, suc, ◌+◌, Bool, false, List, [], ◌∷◌, ◌++◌, Option, none, some, String, ◌=s◌, ltb,
  if◌then◌else◌,
}
use reconbanker.Banking.Monitor.{
  Awaited, settled, rejected, never, Movement, Timed, answered, timed_out, threw, auth_timeout,
  Exit, running, stopped, crashed, login, auth_wait, Note, Settings, AuthRound, Round, State, Next,
  finish, again, Trace, failed, succeeded, noted, monitor_round,
}

-- How the wait for authentication ends; `waiting` while it has not.
pub data Waited : Type 0 where
  waiting authed expired : Waited
  fatal : String → Waited

-- What the answer of isAuthenticated makes of the wait: `rest` is the wait after the sleep.
unfoldable pub on_check : Timed Bool → Waited → Waited
on_check (answered b) rest = if b then authed else rest
on_check (timed_out m) rest = expired
on_check (threw m) rest = fatal m

unfoldable pub auth_loop : ℕ → ℕ → (ℕ → AuthRound) → ℕ → Waited
unfolding on_check
auth_loop zero deadline checks i = waiting
auth_loop (suc f) deadline checks i =
    let rest = auth_loop f deadline checks (suc i) in
    if ltb (checks i).now deadline then on_check (checks i).check rest else expired

abbrev pub after : List (List Movement) → List Note → Trace → Trace
after bs ns t = record {
  exit = t.exit;
  batches = bs ++ t.batches;
  notes = ns ++ t.notes;
  rounds = suc t.rounds;
}

abbrev pub ended : Exit → List (List Movement) → List Note → Trace
ended e bs ns = record { exit = e; batches = bs; notes = ns; rounds = 0 }

-- The rest of the loop runs on the state that a round leaves.
abbrev pub go_on : (State → Trace) → Next → Trace
go_on rest (finish e bs ns) = ended e bs ns
go_on rest (again s bs ns) = after bs ns (rest s)

-- What the session meets: how its login settles, the clock when the wait begins, the checks of
-- the wait, the clock and the day when the loop begins, and the rounds.
pub record Session : Type 0 where
  pub login_call : Awaited (Unit {0})
  pub wait_from : ℕ
  pub checks : ℕ → AuthRound
  pub loop_from : ℕ
  pub day : String
  pub world : ℕ → Round

module _ (o : Settings) where
  unfoldable pub monitor_loop : ℕ → Option ℕ → (ℕ → Round) → ℕ → State → Trace
  monitor_loop zero deadline world i s = ended running [] []
  monitor_loop (suc f) deadline world i s =
      go_on (λ s'. monitor_loop f deadline world (suc i) s') (monitor_round o deadline (world i) s)

  -- `maxRuntimeMs > 0 ? Date.now() + maxRuntimeMs : null`
  abbrev pub run_deadline : ℕ → Option ℕ
  run_deadline now = if ltb 0 o.max_runtime_ms then some (now + o.max_runtime_ms) else none

  -- `if (context.lastExternalId)`: an empty id counts as none.
  abbrev pub first_seen : Option String → List String
  first_seen none = []
  first_seen (some id) = if id =s "" then [] else id ∷ []

  abbrev pub start_state : String → State
  start_state day = record {
    seen = first_seen o.last_external_id;
    current_day = day;
    first_success = false;
    first_failure = false;
  }

  abbrev pub noting : List Note → Trace → Trace
  noting ns t = record t { notes = ns ++ t.notes }

  unfoldable pub after_auth : ℕ → ℕ → String → (ℕ → Round) → Waited → Trace
  unfolding monitor_loop
  after_auth fuel now day world waiting = ended running [] []
  after_auth fuel now day world authed =
      noting (noted o (succeeded auth_wait ∷ []))
        (monitor_loop fuel (run_deadline now) world 0 (start_state day))
  after_auth fuel now day world expired =
      ended (stopped auth_timeout) []
        (noted o (failed auth_wait (some "auth_timeout") "not authenticated" ∷ []))
  after_auth fuel now day world (fatal m) =
      ended (crashed m) [] (noted o (failed auth_wait none m ∷ []))

  unfoldable pub after_login : ℕ → ℕ → Session → Awaited (Unit {0}) → Trace
  after_login wait_fuel fuel x never = ended running [] []
  after_login wait_fuel fuel x (rejected m) =
      ended (crashed m) [] (noted o (failed login none m ∷ []))
  after_login wait_fuel fuel x (settled u) = noting (noted o (succeeded login ∷ [])) (
      after_auth fuel x.loop_from x.day x.world
        (auth_loop wait_fuel (x.wait_from + o.auth_timeout_ms) x.checks 0))

  -- runMonitor
  unfoldable pub run_monitor : ℕ → ℕ → Session → Trace
  unfolding after_login
  run_monitor wait_fuel fuel x = after_login wait_fuel fuel x x.login_call
