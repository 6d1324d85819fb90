-- ===== src/Banking/Monitor/Dedup.antt =====
-- contexts/script-engine/infrastructure/runMonitor.ts: what the monitor hands over within one bank
-- day.
use reconbanker.Common.{
  ℕ, zero, suc, ◌+◌, ◌<◌, ◌≡◌, refl, subst, sym, ◌∙◌, true, List, Option, String, ◌=s◌, =s_iff,
  arith,
}
use reconbanker.Banking.Monitor.{
  Awaited, settled, rejected, never, Movement, Timed, Settings, Round, State, Next, finish, again,
  Trace, monitor_round,
}
use reconbanker.Banking.Monitor.Loop.{
  monitor_loop, go_on, Waited, waiting, authed, expired, fatal, Session, after_auth, after_login,
  run_monitor, first_seen, start_state, run_deadline,
}
use reconbanker.Banking.Monitor.Extends.{
  AllNew, seen_after, Handed, AllNew-append, seen_after-append, Handed-seen_after, Extends,
  monitor_round-Extends,
}

go_on-AllNew :
    (p : Timed (List Movement)) (s : State) (rest : State → Trace) (n : Next)
    → Extends p s n
    → ((s' : State) → s'.current_day ≡ s.current_day → AllNew s'.seen (rest s').batches)
    → AllNew s.seen (go_on rest n).batches
go_on-AllNew p s rest (finish e bs ns) h ih = h
go_on-AllNew p s rest (again s' bs ns) h ih =
    AllNew-append s.seen bs (rest s').batches h.0
      (subst (λ l. AllNew l (rest s').batches) h.1 (ih s' h.2))

go_on-Handed :
    (polled : ℕ → Timed (List Movement)) (k i : ℕ) (s : State) (rest : State → Trace) (n : Next)
    → Extends (polled i) s n
    → ((j : ℕ) (s' : State)
        → s'.current_day ≡ s.current_day
        → j < (rest s').rounds
        → Handed (seen_after s'.seen (rest s').batches) (polled (suc i + j)))
    → k < (go_on rest n).rounds
    → Handed (seen_after s.seen (go_on rest n).batches) (polled (i + k))
go_on-Handed polled k i s rest (finish e bs ns) h ih lt = elim lt [ ]
go_on-Handed polled zero i s rest (again s' bs ns) h ih lt =
    rw (seen_after-append s.seen bs (rest s').batches, ← h.1)
      (Handed-seen_after (polled (i + 0)) s'.seen (rest s').batches
        (let e : i + 0 ≡ i = omega arith in rw e h.3))
go_on-Handed polled (suc k) i s rest (again s' bs ns) h ih lt =
    rw (seen_after-append s.seen bs (rest s').batches, ← h.1)
      (let e : i + suc k ≡ suc i + k = omega arith in rw e (ih k s' h.2 (omega arith)))

module _ (o : Settings) (deadline : Option ℕ) (world : ℕ → Round) (day : String)
    (same : (j : ℕ) → (world j).day ≡ day) where
  round_day : (i : ℕ) (s : State) → s.current_day ≡ day → ((world i).day =s s.current_day) ≡ true
  round_day i s e = (=s_iff (world i).day s.current_day).1 (same i ∙ sym e)

  loop-AllNew :
      (f i : ℕ) (s : State)
      → s.current_day ≡ day
      → AllNew s.seen (monitor_loop o f deadline world i s).batches
  unfolding monitor_loop
  loop-AllNew zero i s e = tt
  loop-AllNew (suc f) i s e =
      go_on-AllNew (world i).polled s (λ s'. monitor_loop o f deadline world (suc i) s')
        (monitor_round o deadline (world i) s)
        (monitor_round-Extends o deadline (world i) s (round_day i s e))
        (λ s' d. loop-AllNew f (suc i) s' (d ∙ e))

  loop-Handed :
      (k f i : ℕ) (s : State)
      → s.current_day ≡ day
      → k < (monitor_loop o f deadline world i s).rounds
      → Handed
          (seen_after s.seen (monitor_loop o f deadline world i s).batches)
          (world (i + k)).polled
  unfolding monitor_loop
  loop-Handed k zero i s e h = elim h [ ]
  loop-Handed k (suc f) i s e h =
      go_on-Handed (λ j. (world j).polled) k i s (λ s'. monitor_loop o f deadline world (suc i) s')
        (monitor_round o deadline (world i) s)
        (monitor_round-Extends o deadline (world i) s (round_day i s e))
        (λ j s' d. loop-Handed j f (suc i) s' (d ∙ e)) h

-- What a trace hands over against what was seen before it and what the rounds polled.
abbrev pub HandsOver : List String → (ℕ → Round) → Trace → Type 0
HandsOver seen world t =
    AllNew seen t.batches
    × ((k : ℕ) → k < t.rounds → Handed (seen_after seen t.batches) (world k).polled)

after_auth-HandsOver :
    (o : Settings) (fuel now : ℕ) (day : String) (world : ℕ → Round) (w : Waited)
    → ((j : ℕ) → (world j).day ≡ day)
    → HandsOver (first_seen o o.last_external_id) world (after_auth o fuel now day world w)
unfolding after_auth
after_auth-HandsOver o fuel now day world waiting same = (tt, λ k h. elim h [ ])
after_auth-HandsOver o fuel now day world expired same = (tt, λ k h. elim h [ ])
after_auth-HandsOver o fuel now day world (fatal m) same = (tt, λ k h. elim h [ ])
after_auth-HandsOver o fuel now day world authed same = (
  loop-AllNew o (run_deadline o now) world day same fuel 0 (start_state o day) refl,
  λ k h.
      let e : 0 + k ≡ k = omega arith in
      subst
        (λ j.
          Handed
            (seen_after (first_seen o o.last_external_id)
              (monitor_loop o fuel (run_deadline o now) world 0 (start_state o day)).batches)
            (world j).polled)
        e (loop-Handed o (run_deadline o now) world day same k fuel 0 (start_state o day) refl h),
)

after_login-HandsOver :
    (o : Settings) (wait_fuel fuel : ℕ) (x : Session) (a : Awaited (Unit {0}))
    → ((j : ℕ) → (x.world j).day ≡ x.day)
    → HandsOver (first_seen o o.last_external_id) x.world (after_login o wait_fuel fuel x a)
unfolding after_login
after_login-HandsOver o wait_fuel fuel x (settled u) same =
    after_auth-HandsOver o fuel x.loop_from x.day x.world _ same
after_login-HandsOver o wait_fuel fuel x (rejected m) same = (tt, λ k h. elim h [ ])
after_login-HandsOver o wait_fuel fuel x never same = (tt, λ k h. elim h [ ])

-- In a session within one bank day, no batch handed to onTransactions has a movement of an earlier
-- batch or the one that was stored last, and each movement that a completed round polled was handed
-- over or is the one stored last.
pub run_monitor-HandsOver :
    (o : Settings) (wait_fuel fuel : ℕ) (x : Session)
    → ((j : ℕ) → (x.world j).day ≡ x.day)
    → HandsOver (first_seen o o.last_external_id) x.world (run_monitor o wait_fuel fuel x)
unfolding run_monitor
run_monitor-HandsOver o wait_fuel fuel x same =
    after_login-HandsOver o wait_fuel fuel x x.login_call same
