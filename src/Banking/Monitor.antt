-- ===== src/Banking/Monitor.antt =====
-- contexts/script-engine/infrastructure/runMonitor.ts: the loop that watches an account. What the
-- hooks of a bank script and the clock answer is given for each check and each round; the log
-- lines and the page's URL are left out.
pub mod Loop
mod Records
mod Extends
pub mod Dedup
pub mod Ends
mod Tests
use reconbanker.Common.{
  ℕ, zero, suc, ◌+◌, Bool, true, false, not, ◌&&◌, List, [], ◌∷◌, ◌++◌, map, Option, none, some,
  String, ◌=s◌, ltb, leb, if◌then◌else◌, any, filter, is_empty,
}

-- MonitorTransaction: its id, and all else as one text.
pub record Movement : Type 0 where
  pub external_id : String
  pub body : String

-- A promise under withTimeout: it resolved, its time ran out, or it rejected.
pub data Timed (A : Type 0) : Type 0 where
  answered : A → Timed A
  timed_out : String → Timed A
  threw : String → Timed A

-- A promise that is awaited with no timeout: it may never settle.
pub data Awaited (A : Type 0) : Type 0 where
  settled : A → Awaited A
  rejected : String → Awaited A
  never : Awaited A

abbrev pub is_settling : {A : Type 0} → Awaited A → Bool
is_settling (settled a) = true
is_settling (rejected m) = true
is_settling never = false

-- MonitorStopReason
pub data StopReason : Type 0 where
  stop_requested max_runtime logged_out auth_timeout watchdog_timeout : StopReason

-- How the promise of runMonitor settles; `running` while it has not, also where it never will.
pub data Exit : Type 0 where
  running : Exit
  stopped : StopReason → Exit
  crashed : String → Exit

pub data Stage : Type 0 where
  login auth_wait poll keep_alive : Stage

-- A step that the recorder closes.
pub record Note : Type 0 where
  pub step : Stage
  pub success : Bool
  pub failure_type : Option String
  pub error_message : Option String

pub record Settings : Type 0 where
  pub has_recorder : Bool
  pub has_keep_alive : Bool
  pub poll_interval_ms : ℕ
  pub max_runtime_ms : ℕ
  pub auth_timeout_ms : ℕ
  pub last_external_id : Option String

-- One check of the wait for authentication.
pub record AuthRound : Type 0 where
  pub now : ℕ
  pub check : Timed Bool

-- One round of the monitor loop. `stop` is what shouldStop answers, `keep_alive_hangs` the message
-- of a keep-alive that ran out of time, `handed` how onTransactions settles.
pub record Round : Type 0 where
  pub stop : Awaited Bool
  pub now : ℕ
  pub day : String
  pub check : Timed Bool
  pub polled : Timed (List Movement)
  pub keep_alive_hangs : Option String
  pub handed : Awaited (Unit {0})

pub record State : Type 0 where
  pub seen : List String
  pub current_day : String
  pub first_success : Bool
  pub first_failure : Bool

-- What a round did: the batch handed to onTransactions, the steps recorded, and how it goes on.
pub data Next : Type 0 where
  finish : Exit → List (List Movement) → List Note → Next
  again : State → List (List Movement) → List Note → Next

-- The trace of a loop: its end, the batches and the notes in order, the rounds that reached their
-- sleep.
pub record Trace : Type 0 where
  pub exit : Exit
  pub batches : List (List Movement)
  pub notes : List Note
  pub rounds : ℕ

abbrev pub elem : String → List String → Bool
elem x xs = any (λ y. y =s x) xs

abbrev pub ids : List Movement → List String
ids b = map (λ t. t.external_id) b

abbrev pub failed : Stage → Option String → String → Note
failed step kind message = record {
  step = step;
  success = false;
  failure_type = kind;
  error_message = some message;
}

abbrev pub succeeded : Stage → Note
succeeded step = record { step = step; success = true; failure_type = none; error_message = none }

-- `if (runDeadline && Date.now() >= runDeadline)`
abbrev pub is_over : Option ℕ → ℕ → Bool
is_over none now = false
is_over (some deadline) now = leb deadline now

unfoldable pub hand_over : Awaited (Unit {0}) → List Movement → State → List Note → Next
hand_over (settled u) fresh s ns = again s (fresh ∷ []) ns
hand_over (rejected m) fresh s ns = finish (crashed m) (fresh ∷ []) ns
hand_over never fresh s ns = finish running (fresh ∷ []) ns

-- `if (await Promise.resolve(shouldStop()))`, before the rest of the round.
abbrev pub on_stop : Awaited Bool → Next → Next
on_stop (settled true) rest = finish (stopped stop_requested) [] []
on_stop (settled false) rest = rest
on_stop (rejected m) rest = finish (crashed m) [] []
on_stop never rest = finish running [] []

-- A new bank day clears what was seen.
unfoldable pub roll_day : String → State → State
roll_day day s = if day =s s.current_day then s else record s { seen = []; current_day = day }

module _ (o : Settings) where
  -- The steps that `note` records: none without a recorder.
  abbrev pub noted : List Note → List Note
  noted ns = if o.has_recorder then ns else []

  -- The call of the keep-alive hook that ends a round: only a hang stops the monitor.
  unfoldable pub keep : Option String → State → List Note → Next
  keep none s ns = again s [] ns
  keep (some m) s ns =
      if o.has_keep_alive
      then finish (stopped watchdog_timeout) []
          (ns ++ noted (failed keep_alive (some "watchdog_timeout") m ∷ []))
      else again s [] ns

  -- A batch came: only what was not seen is handed over.
  unfoldable pub take_batch : Round → List Movement → State → Next
  unfolding keep hand_over
  take_batch r batch s =
      let ns = if s.first_success then [] else noted (succeeded poll ∷ []) in
      let fresh = filter (λ t. not (elem t.external_id s.seen)) batch in
      if is_empty fresh
      then keep r.keep_alive_hangs (record s { first_success = true }) ns
      else hand_over r.handed fresh (record s { first_success = true; seen = ids fresh ++ s.seen })
          ns

  unfoldable pub poll_once : Round → Timed (List Movement) → State → Next
  unfolding take_batch keep
  poll_once r (answered batch) s = take_batch r batch s
  poll_once r (timed_out m) s =
      finish (stopped watchdog_timeout) [] (noted (failed poll (some "watchdog_timeout") m ∷ []))
  poll_once r (threw m) s =
      keep r.keep_alive_hangs (record s { first_failure = true })
        (if s.first_failure then [] else noted (failed poll none m ∷ []))

  unfoldable pub check_session : Round → Timed Bool → State → Next
  unfolding poll_once
  check_session r (answered true) s = poll_once r r.polled s
  check_session r (answered false) s =
      finish (stopped logged_out) []
        (noted (failed poll (some "logged_out") "session was no longer authenticated" ∷ []))
  check_session r (timed_out m) s =
      finish (stopped watchdog_timeout) [] (noted (failed poll (some "watchdog_timeout") m ∷ []))
  check_session r (threw m) s = finish (crashed m) [] []

  -- The body of `while (true)`.
  unfoldable pub monitor_round : Option ℕ → Round → State → Next
  unfolding check_session roll_day
  monitor_round deadline r s = on_stop r.stop (
      if is_over deadline r.now
      then finish (stopped max_runtime) [] []
      else check_session r r.check (roll_day r.day s))
