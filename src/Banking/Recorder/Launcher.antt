-- ===== src/Banking/Recorder/Launcher.antt =====
-- contexts/banking/application/RecordedSessionLauncher.ts: the row of a persistent session, from its
-- launch to its end.
use reconbanker.Common.{
  ℕ, ◌≡◌, refl, ◌∙◌, Bool, true, false, ◌||◌, List, [], ◌∷◌, Option, none, some, String, arith,
  if◌then◌else◌, All,
}
use reconbanker.Conciliation.Candidate.{Text}
use reconbanker.Conciliation.Fuzzy.{text_eq}
use reconbanker.Banking.Trail.{Entry, empty, units}
use reconbanker.Banking.Failure.{
  Thrown, error, message, ScrapeStage, MonitorOutcome, outcome_from_stop_reason,
}
use reconbanker.Banking.Recorder.{
  RunRow, RunStatus, running, success, failed, Recorder, FailOptions, no_options, Call, succeed,
  fail, fail_with, flush_trail, note_cause, write_run, mark_success, mark_failed, update, call,
  calls, StepOutcome,
}
use reconbanker.Banking.Recorder.Closing.{SameVerdict, recording-SameVerdict, is_closing}

-- How `handle.done` settles.
pub data Settled : Type 0 where
  resolved : Text → Settled
  rejected : Thrown → Settled

-- The row that ScrapeRunRepository.create inserts.
abbrev pub new_row : RunRow
new_row = record {
  status = running;
  transactions_found = none;
  stop_reason = none;
  failure_type = none;
  error_message = none;
}

-- A recorder of its own, and the row unless its INSERT throws.
unfoldable pub created : Bool → Recorder
created create_throws = record {
  step_index = 0;
  closed = false;
  last_url = none;
  failed_stage = none;
  trail = empty;
  writes = 0;
  steps = [];
  run = if create_throws then none else some new_row;
  log = [];
}

-- What a session does: the calls while it starts, what its start throws, the calls while it runs, and
-- how it ends.
pub record Lifetime : Type 0 where
  pub starting : List Call
  pub start_throws : Option Thrown
  pub running_calls : List Call
  pub ending : Settled

module _ (throws : ℕ → Bool) (logger_throws : Bool) (json_length : Entry → Option ℕ) where
  unfoldable pub close_outcome : MonitorOutcome → Thrown → Recorder → Recorder
  close_outcome o e s =
      if o.success
      then succeed throws logger_throws json_length none o.stop_reason s
      else fail throws logger_throws json_length e
          (record no_options { failure_type = o.failure_type; stop_reason = o.stop_reason }) s

  -- RecordedSessionLauncher.close
  unfoldable pub close_session : Settled → Recorder → Recorder
  unfolding close_outcome
  close_session (resolved reason) s =
      close_outcome (outcome_from_stop_reason reason) (error reason) s
  close_session (rejected e) s = close_outcome (outcome_from_stop_reason (message e)) e s

  unfoldable pub after_start : Option Thrown → Lifetime → Recorder → Recorder
  unfolding close_session
  after_start (some e) x s = fail throws logger_throws json_length e no_options s
  after_start none x s =
      close_session x.ending (calls throws logger_throws json_length x.running_calls s)

  -- RecordedSessionLauncher.launch, until the session has ended.
  unfoldable pub launch_session : Bool → Lifetime → Recorder
  unfolding after_start created
  launch_session create_throws x =
      after_start x.start_throws x
        (calls throws logger_throws json_length x.starting (created create_throws))

-- The session stopped on request or at its maximum runtime.
abbrev pub is_clean : Text → Bool
is_clean reason = text_eq reason (units "stop_requested") || text_eq reason (units "max_runtime")

abbrev reason_of : Settled → Text
reason_of (resolved reason) = reason
reason_of (rejected e) = message e

-- The status that the row of a session deserves.
abbrev pub verdict : Option Thrown → Settled → RunStatus
verdict (some e) ending = failed
verdict none ending = if is_clean (reason_of ending) then success else failed

abbrev pub status_of : Option RunRow → Option RunStatus
status_of none = none
status_of (some r) = some r.status

-- Neither succeed nor fail is called while the session starts and runs.
abbrev pub Recording : List Call → Type 0
Recording cs = All (λ c. is_closing c ≡ false) cs

outcome-success : (reason : Text) → (outcome_from_stop_reason reason).success ≡ is_clean reason
unfolding outcome_from_stop_reason
outcome-success reason = ground arith

module _ (throws : ℕ → Bool) (logger_throws : Bool) (json_length : Entry → Option ℕ)
    (works : (n : ℕ) → throws n ≡ false) where
  pub calls-Recording :
      (cs : List Call) (s : Recorder)
      → Recording cs
      → SameVerdict s (calls throws logger_throws json_length cs s)
  unfolding calls
  calls-Recording [] s h = record { same_closed = refl; same_run = refl; same_log = refl }
  calls-Recording (c ∷ cs) s h =
      let a = recording-SameVerdict throws logger_throws json_length c s h.0 in
      let b = calls-Recording cs (call throws logger_throws json_length c s) h.1 in
      record {
        same_closed = b.same_closed ∙ a.same_closed;
        same_run = b.same_run ∙ a.same_run;
        same_log = b.same_log ∙ a.same_log;
      }

  pub write_run-run :
      (change : RunRow → RunRow) (s : Recorder)
      → (write_run throws logger_throws json_length change s).run ≡ update change s.run
  unfolding write_run
  write_run-run change s = ground (arith, works s.writes)

  flush_trail-run :
      (stage : Option ScrapeStage) (kind : String) (reason url : Option String) (s : Recorder)
      → (flush_trail throws logger_throws json_length stage kind reason url s).run ≡ s.run
  unfolding flush_trail
  flush_trail-run stage kind reason url s = ground arith

  note_cause-run :
      (stage : Option ScrapeStage) (outcome : StepOutcome) (s : Recorder)
      → (note_cause throws logger_throws json_length stage outcome s).run ≡ s.run
  unfolding note_cause
  note_cause-run none outcome s = refl
  note_cause-run (some stage) outcome s = ground arith

  fail_with-status :
      (e : Thrown) (opts : FailOptions) (s : Recorder) (r : RunRow)
      → s.run ≡ some r
      → status_of (fail_with throws logger_throws json_length e opts s).run ≡ some failed
  unfolding fail_with mark_failed
  fail_with-status e opts s r h =
      rw (write_run-run _ _, note_cause-run _ _ _, flush_trail-run _ _ _ _ s, h) refl

  pub fail-status :
      (e : Thrown) (opts : FailOptions) (s : Recorder) (r : RunRow)
      → s.closed ≡ false
      → s.run ≡ some r
      → status_of (fail throws logger_throws json_length e opts s).run ≡ some failed
  unfolding fail
  fail-status e opts s r o h =
      ground (arith, fail_with-status e opts (record s { closed = true }) r h)

  succeed-status :
      (found : Option ℕ) (reason : Option String) (s : Recorder) (r : RunRow)
      → s.closed ≡ false
      → s.run ≡ some r
      → status_of (succeed throws logger_throws json_length found reason s).run ≡ some success
  unfolding succeed write_run mark_success
  succeed-status found reason s r o h = ground (arith, works s.writes)

  close_outcome-status :
      (o : MonitorOutcome) (e : Thrown) (s : Recorder) (r : RunRow)
      → s.closed ≡ false
      → s.run ≡ some r
      → status_of (close_outcome throws logger_throws json_length o e s).run
        ≡ some (if o.success then success else failed)
  unfolding close_outcome
  close_outcome-status o e s r o2 h = ground (
    arith,
    succeed-status none o.stop_reason s r o2 h,
    fail-status e (record no_options { failure_type = o.failure_type; stop_reason = o.stop_reason })
        s r o2 h,
  )

  close_session-status :
      (ending : Settled) (s : Recorder) (r : RunRow)
      → s.closed ≡ false
      → s.run ≡ some r
      → status_of (close_session throws logger_throws json_length ending s).run
        ≡ some (if is_clean (reason_of ending) then success else failed)
  unfolding close_session
  close_session-status (resolved reason) s r o h =
      rw (← outcome-success reason)
        (close_outcome-status (outcome_from_stop_reason reason) (error reason) s r o h)
  close_session-status (rejected e) s r o h =
      rw (← outcome-success (message e))
        (close_outcome-status (outcome_from_stop_reason (message e)) e s r o h)

  after_start-status :
      (start_throws : Option Thrown) (x : Lifetime) (s : Recorder) (r : RunRow)
      → Recording x.running_calls
      → s.closed ≡ false
      → s.run ≡ some r
      → status_of (after_start throws logger_throws json_length start_throws x s).run
        ≡ some (verdict start_throws x.ending)
  unfolding after_start
  after_start-status (some e) x s r q o h = fail-status e no_options s r o h
  after_start-status none x s r q o h =
      let same = calls-Recording x.running_calls s q in
      close_session-status x.ending (calls throws logger_throws json_length x.running_calls s) r
        (same.same_closed ∙ o) (same.same_run ∙ h)

  -- When the statements of the recorder work, the row of every session that ended is closed: as a
  -- success exactly when it started and then stopped on request or at its maximum runtime.
  pub launch_session-status :
      (x : Lifetime)
      → Recording x.starting
      → Recording x.running_calls
      → status_of (launch_session throws logger_throws json_length false x).run
        ≡ some (verdict x.start_throws x.ending)
  unfolding launch_session
  launch_session-status x p q =
      let same = calls-Recording x.starting (created false) p in
      after_start-status x.start_throws x
        (calls throws logger_throws json_length x.starting (created false)) new_row q
        same.same_closed same.same_run
