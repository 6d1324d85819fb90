-- ===== src/Banking/Monitor/Tests.antt =====
-- A session in one bank day: an authentication, then a poll each second until its maximum runtime.
use reconbanker.Common.{
  ℕ, ◌+◌, ◌*◌, ◌≤◌, ◌≡◌, ◌≢◌, refl, true, false, List, [], ◌∷◌, none, some, String, arith, ltb,
  if◌then◌else◌, length,
}
use reconbanker.Banking.Monitor.{Movement, settled, answered, running, Settings, monitor_round}
use reconbanker.Banking.Monitor.Loop.{
  Session, run_monitor, after_auth, auth_loop, on_check, monitor_loop, first_seen,
}
use reconbanker.Banking.Monitor.Dedup.{HandsOver, run_monitor-HandsOver}
use reconbanker.Banking.Monitor.Ends.{Ticks, run_monitor-ends, run_monitor-notes}

abbrev settings : Settings
settings = record {
  has_recorder = true;
  has_keep_alive = true;
  poll_interval_ms = 1000;
  max_runtime_ms = 3000;
  auth_timeout_ms = 3000;
  last_external_id = some "t0";
}

abbrev movement : String → Movement
movement id = record { external_id = id; body = "" }

-- The bank shows one more movement from the third poll on.
abbrev shown : ℕ → List Movement
shown i =
    if ltb i 2
    then movement "t0" ∷ movement "t1" ∷ []
    else movement "t0" ∷ movement "t1" ∷ movement "t2" ∷ []

abbrev session : Session
session = record {
  login_call = settled tt;
  wait_from = 0;
  checks = λ i. record { now = 1500 * i; check = answered (ltb 0 i) };
  loop_from = 1500;
  day = "26/11/2026";
  world = λ i. record {
    stop = settled false;
    now = 1500 + 1000 * i;
    day = "26/11/2026";
    check = answered true;
    polled = answered (shown i);
    keep_alive_hangs = none;
    handed = settled tt;
  };
}

run_monitor_hands_over :
    (run_monitor settings 4 9 session).batches ≡ (movement "t1" ∷ []) ∷ (movement "t2" ∷ []) ∷ []
unfolding run_monitor after_auth auth_loop on_check monitor_loop monitor_round
run_monitor_hands_over = refl

run_monitor-HandsOver_example :
    HandsOver
      (first_seen settings settings.last_external_id)
      session.world
      (run_monitor settings 4 9 session)
run_monitor-HandsOver_example = run_monitor-HandsOver settings 4 9 session (λ j. refl)

checks-Ticks : Ticks 1500 (λ j. (session.checks j).now)
checks-Ticks i = omega arith

world-Ticks : Ticks 1000 (λ j. (session.world j).now)
world-Ticks i = omega arith

run_monitor-ends_example : (run_monitor settings 3 4 session).exit ≢ running
run_monitor-ends_example =
    run_monitor-ends settings 2 3 session refl (λ i. refl) checks-Ticks world-Ticks (omega arith)
      (omega arith) (omega arith)

run_monitor-notes_example : length (run_monitor settings 3 4 session).notes ≤ 5
run_monitor-notes_example = run_monitor-notes settings 3 4 session
