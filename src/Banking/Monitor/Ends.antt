-- ===== src/Banking/Monitor/Ends.antt =====
-- contexts/script-engine/infrastructure/runMonitor.ts: that it ends, and how much it records.
use reconbanker.Common.{
  ℕ, false, zero, suc, ◌+◌, ◌*◌, ◌≤◌, ◌<◌, ◌≡◌, ◌≢◌, refl, Bool, true, [], ◌∷◌, Option, none, some,
  String, Bool-cases, inl, inr, ltb, leb, length, length-append, arith,
}
use reconbanker.Banking.Monitor.{
  Awaited, settled, rejected, never, is_settling, on_stop, Exit, stopped, max_runtime, Timed,
  answered, timed_out, threw, running, Settings, AuthRound, Round, State, Next, finish, again,
  Trace, noted, failed, succeeded, login, auth_wait, monitor_round,
}
use reconbanker.Banking.Monitor.Loop.{
  monitor_loop, go_on, auth_loop, on_check, Waited, waiting, authed, expired, fatal, Session,
  after_auth, after_login, run_monitor, run_deadline, start_state,
}
use reconbanker.Banking.Monitor.Records.{
  is_live, and-true, unrecorded, Records, length-noted, monitor_round-Records,
}

-- sleep(ms) waits at least that long, so from one check to the next the clock gains it.
abbrev pub Ticks : ℕ → (ℕ → ℕ) → Type 0
Ticks ms clock = (i : ℕ) → clock i + ms ≤ clock (suc i)

on_check-waiting : (c : Timed Bool) (rest : Waited) → on_check c rest ≡ waiting → rest ≡ waiting
unfolding on_check
on_check-waiting (answered b) rest h = ground arith
on_check-waiting (timed_out m) rest h = cc
on_check-waiting (threw m) rest h = cc

-- The wait for authentication has ended once its checks reach the deadline.
auth_loop-ends :
    (f deadline : ℕ) (checks : ℕ → AuthRound) (i : ℕ)
    → Ticks 1500 (λ j. (checks j).now)
    → deadline ≤ (checks i).now + 1500 * f
    → auth_loop (suc f) deadline checks i ≢ waiting
unfolding auth_loop
auth_loop-ends zero deadline checks i ticks h e = ground arith
auth_loop-ends (suc f) deadline checks i ticks h e =
    elim (Bool-cases (ltb (checks i).now deadline)) [
      | inl q ↦
          auth_loop-ends f deadline checks (suc i) ticks (omega (arith, ticks i))
            (on_check-waiting (checks i).check _ (rw q at e))
      | inr q ↦ let late : expired ≡ waiting = rw q at e in cc
    ]

-- A loop has ended, and recorded one step more than its transitions at most.
go_on-notes :
    (q : Bool) (s : State) (rest : State → Trace) (n : Next)
    → Records q s n
    → ((s' : State) → length (rest s').notes ≤ unrecorded s' + 1)
    → length (go_on rest n).notes ≤ unrecorded s + 1
go_on-notes q s rest (finish e bs ns) h ih = h.1
go_on-notes q s rest (again s' bs ns) h ih = omega (arith, length-append ns (rest s').notes, ih s')

loop-notes :
    (o : Settings) (f : ℕ) (deadline : Option ℕ) (world : ℕ → Round) (i : ℕ) (s : State)
    → length (monitor_loop o f deadline world i s).notes ≤ unrecorded s + 1
unfolding monitor_loop
loop-notes o zero deadline world i s = omega arith
loop-notes o (suc f) deadline world i s =
    go_on-notes (is_live (world i)) s (λ s'. monitor_loop o f deadline world (suc i) s') _
      (monitor_round-Records o deadline (world i) s)
      (λ s'. loop-notes o f deadline world (suc i) s')

go_on-ends :
    (q : Bool) (s : State) (rest : State → Trace) (n : Next)
    → Records q s n
    → q ≡ true
    → ((s' : State) → (rest s').exit ≢ running)
    → (go_on rest n).exit ≢ running
go_on-ends q s rest (finish e bs ns) h on ih = h.0 on
go_on-ends q s rest (again s' bs ns) h on ih = ih s'

stopping :
    (a : Awaited Bool) (rest : State → Trace) (e : Exit)
    → is_settling a ≡ true
    → e ≢ running
    → (go_on rest (on_stop a (finish e [] []))).exit ≢ running
stopping (settled true) rest e on h = λ q. cc
stopping (settled false) rest e on h = h
stopping (rejected m) rest e on h = λ q. cc
stopping never rest e on h = cc

-- The first round whose clock is past the deadline ends the loop.
last_round :
    (o : Settings) (d : ℕ) (r : Round) (s : State) (rest : State → Trace)
    → is_live r ≡ true
    → d ≤ r.now
    → (go_on rest (monitor_round o (some d) r s)).exit ≢ running
unfolding monitor_round
last_round o d r s rest on h =
    let late : leb d r.now ≡ true = ground arith in
    rw late (
      stopping r.stop rest (stopped max_runtime)
        (and-true (is_settling r.stop) (is_settling r.handed) on).0 (λ q. cc))

loop-ends :
    (o : Settings) (f d : ℕ) (world : ℕ → Round) (i : ℕ) (s : State)
    → ((j : ℕ) → is_live (world j) ≡ true)
    → Ticks o.poll_interval_ms (λ j. (world j).now)
    → d ≤ (world i).now + f * o.poll_interval_ms
    → (monitor_loop o (suc f) (some d) world i s).exit ≢ running
unfolding monitor_loop
loop-ends o zero d world i s live ticks h = last_round o d (world i) s _ (live i) (omega arith)
loop-ends o (suc f) d world i s live ticks h =
    go_on-ends (is_live (world i)) s (λ s'. monitor_loop o (suc f) (some d) world (suc i) s') _
      (monitor_round-Records o (some d) (world i) s) (live i)
      (λ s'. loop-ends o f d world (suc i) s' live ticks (grind (arith, ticks i)))

after_auth-ends :
    (o : Settings) (fuel now : ℕ) (day : String) (world : ℕ → Round) (w : Waited)
    → ((j : ℕ) → is_live (world j) ≡ true)
    → Ticks o.poll_interval_ms (λ j. (world j).now)
    → 0 < o.max_runtime_ms
    → now + o.max_runtime_ms ≤ (world 0).now + fuel * o.poll_interval_ms
    → w ≢ waiting
    → (after_auth o (suc fuel) now day world w).exit ≢ running
unfolding after_auth
after_auth-ends o fuel now day world waiting live rounds timed enough done = absurd (done refl)
after_auth-ends o fuel now day world expired live rounds timed enough done = λ q. cc
after_auth-ends o fuel now day world (fatal m) live rounds timed enough done = λ q. cc
after_auth-ends o fuel now day world authed live rounds timed enough done =
    let limited : run_deadline o now ≡ some (now + o.max_runtime_ms) = ground arith in
    rw limited
      (loop-ends o fuel (now + o.max_runtime_ms) world 0 (start_state o day) live rounds enough)

after_auth-notes :
    (o : Settings) (fuel now : ℕ) (day : String) (world : ℕ → Round) (w : Waited)
    → length (after_auth o fuel now day world w).notes ≤ 4
unfolding after_auth
after_auth-notes o fuel now day world waiting = omega arith
after_auth-notes o fuel now day world expired =
    omega (arith, length-noted o (failed auth_wait (some "auth_timeout") "not authenticated" ∷ []))
after_auth-notes o fuel now day world (fatal m) =
    omega (arith, length-noted o (failed auth_wait none m ∷ []))
after_auth-notes o fuel now day world authed =
    let t = monitor_loop o fuel (run_deadline o now) world 0 (start_state o day) in
    let opened = succeeded auth_wait ∷ [] in
    omega (
      arith,
      length-append (noted o opened) t.notes,
      length-noted o opened,
      loop-notes o fuel (run_deadline o now) world 0 (start_state o day),
    )

after_login-ends :
    (o : Settings) (wait_fuel fuel : ℕ) (x : Session) (a : Awaited (Unit {0}))
    → is_settling a ≡ true
    → ((j : ℕ) → is_live (x.world j) ≡ true)
    → Ticks 1500 (λ j. (x.checks j).now)
    → Ticks o.poll_interval_ms (λ j. (x.world j).now)
    → 0 < o.max_runtime_ms
    → x.wait_from + o.auth_timeout_ms ≤ (x.checks 0).now + 1500 * wait_fuel
    → x.loop_from + o.max_runtime_ms ≤ (x.world 0).now + fuel * o.poll_interval_ms
    → (after_login o (suc wait_fuel) (suc fuel) x a).exit ≢ running
unfolding after_login
after_login-ends o wait_fuel fuel x (settled u) on live checks rounds timed enough_wait enough =
    after_auth-ends o fuel x.loop_from x.day x.world _ live rounds timed enough
      (auth_loop-ends wait_fuel _ x.checks 0 checks enough_wait)
after_login-ends o wait_fuel fuel x (rejected m) on live checks rounds timed enough_wait enough =
    λ q. cc
after_login-ends o wait_fuel fuel x never on live checks rounds timed enough_wait enough = cc

-- Where the calls that have no timeout settle, that is the login and in each round shouldStop and
-- onTransactions, then with sleeps that last, a maximum runtime and enough fuel the wait ends and the
-- loop ends: the session is over.
pub run_monitor-ends :
    (o : Settings) (wait_fuel fuel : ℕ) (x : Session)
    → is_settling x.login_call ≡ true
    → ((j : ℕ) → is_live (x.world j) ≡ true)
    → Ticks 1500 (λ j. (x.checks j).now)
    → Ticks o.poll_interval_ms (λ j. (x.world j).now)
    → 0 < o.max_runtime_ms
    → x.wait_from + o.auth_timeout_ms ≤ (x.checks 0).now + 1500 * wait_fuel
    → x.loop_from + o.max_runtime_ms ≤ (x.world 0).now + fuel * o.poll_interval_ms
    → (run_monitor o (suc wait_fuel) (suc fuel) x).exit ≢ running
unfolding run_monitor
run_monitor-ends o wait_fuel fuel x = after_login-ends o wait_fuel fuel x x.login_call

after_login-notes :
    (o : Settings) (wait_fuel fuel : ℕ) (x : Session) (a : Awaited (Unit {0}))
    → length (after_login o wait_fuel fuel x a).notes ≤ 5
unfolding after_login
after_login-notes o wait_fuel fuel x (settled u) =
    let w = auth_loop wait_fuel (x.wait_from + o.auth_timeout_ms) x.checks 0 in
    let t = after_auth o fuel x.loop_from x.day x.world w in
    let logged = succeeded login ∷ [] in
    omega (
      arith,
      length-append (noted o logged) t.notes,
      length-noted o logged,
      after_auth-notes o fuel x.loop_from x.day x.world w,
    )
after_login-notes o wait_fuel fuel x (rejected m) =
    omega (arith, length-noted o (failed login none m ∷ []))
after_login-notes o wait_fuel fuel x never = omega arith

-- However long a session runs, it records five steps at most.
pub run_monitor-notes :
    (o : Settings) (wait_fuel fuel : ℕ) (x : Session)
    → length (run_monitor o wait_fuel fuel x).notes ≤ 5
unfolding run_monitor
run_monitor-notes o wait_fuel fuel x = after_login-notes o wait_fuel fuel x x.login_call
