-- ===== src/Banking/Recorder.antt =====
-- contexts/banking/application/ScrapeRunRecorder.ts, with the statements of
-- infrastructure/ScrapeRunRepository.ts and ScrapeStepRepository.ts that it calls: one run of a bank
-- script and its steps. Times, stacks and the warnings of the logger are left out.
pub mod Closing
pub mod Steps
pub mod Launcher
mod Tests
use reconbanker.Common.{
  ℕ, suc, Bool, true, false, ◌||◌, List, [], ◌∷◌, ◌++◌, map, Option, none, some, String, ◌=s◌, ◌==◌,
  if◌then◌else◌, is_empty,
}
use reconbanker.Conciliation.Candidate.{Text}
use reconbanker.Banking.Trail.{Buffer, Line, Entry, drain, event, empty}
use reconbanker.Banking.Failure.{
  Thrown, message, FailureCategory, unknown, ScrapeStage, launch, load_script, credentials,
  stage_eq, category_text, categorize_failure, stage_from_failure_category,
}

pub data StepStatus : Type 0 where
  started step_success step_failed : StepStatus

pub data RunStatus : Type 0 where
  running success failed : RunStatus

-- StepOutcome
pub record StepOutcome : Type 0 where
  pub failure_type : Option String
  pub error_message : Option Text
  pub url : Option String

-- A row of bank_scrape_steps of the run.
pub record StepRow : Type 0 where
  pub step_index : ℕ
  pub step : ScrapeStage
  pub status : StepStatus
  pub outcome : StepOutcome

-- The row of bank_scrape_runs.
pub record RunRow : Type 0 where
  pub status : RunStatus
  pub transactions_found : Option ℕ
  pub stop_reason : Option String
  pub failure_type : Option String
  pub error_message : Option Text

-- The line 'failure_trail' of the error log.
pub record TrailLog : Type 0 where
  pub stage : Option ScrapeStage
  pub failure_type : String
  pub stop_reason : Option String
  pub url : Option String
  pub trail : List Line

-- The recorder and what it has written. `writes` counts its statements.
pub record Recorder : Type 0 where
  pub step_index : ℕ
  pub closed : Bool
  pub last_url : Option String
  pub failed_stage : Option ScrapeStage
  pub trail : Buffer
  pub writes : ℕ
  pub steps : List StepRow
  pub run : Option RunRow
  pub log : List TrailLog

-- FailOptions
pub record FailOptions : Type 0 where
  pub url : Option String
  pub stage : Option ScrapeStage
  pub failure_type : Option String
  pub stop_reason : Option String

-- `a ?? b`
abbrev pub or_else {ℓ} : {A : Type ℓ} → Option A → Option A → Option A
or_else none b = b
or_else (some a) b = some a

abbrev pub no_outcome : StepOutcome
no_outcome = record { failure_type = none; error_message = none; url = none }

abbrev pub no_options : FailOptions
no_options = record { url = none; stage = none; failure_type = none; stop_reason = none }

-- An UPDATE of the run's row: nothing where the row was never written.
abbrev pub update : (RunRow → RunRow) → Option RunRow → Option RunRow
update change none = none
update change (some r) = some (change r)

-- describe(err)
abbrev pub describe : Thrown → StepOutcome
describe e = record { failure_type = none; error_message = some (message e); url = none }

-- HARNESS_FAILURE_TYPE[stage]
abbrev pub harness_failure_type : ScrapeStage → Option String
harness_failure_type launch = some "launch_failed"
harness_failure_type load_script = some "script_load_failed"
harness_failure_type credentials = some "credentials_failed"
harness_failure_type _ = none

-- if (url) this.lastUrl = url
unfoldable pub observe_url : String → Recorder → Recorder
observe_url url s = if url =s "" then s else record s { last_url = some url }

-- ScrapeStepRepository.finish
unfoldable pub finish_step : ℕ → StepStatus → StepOutcome → List StepRow → List StepRow
finish_step i status outcome rows =
    map (λ r. if r.step_index == i then record r { status = status; outcome = outcome } else r) rows

-- ScrapeRunRepository.markSuccess
unfoldable pub mark_success : Option ℕ → Option String → RunRow → RunRow
mark_success found reason r = record r {
  status = success;
  transactions_found = found;
  stop_reason = reason;
}

-- ScrapeRunRepository.markFailed
unfoldable pub mark_failed : Text → String → Option String → RunRow → RunRow
mark_failed m kind reason r = record r {
  status = failed;
  failure_type = some kind;
  error_message = some m;
  stop_reason = reason;
}

abbrev pub text_or : Option String → String → String
text_or none b = b
text_or (some a) b = a

abbrev pub category_is_unknown : FailureCategory → Bool
category_is_unknown unknown = true
category_is_unknown _ = false

-- `opts.failureType ?? (category === 'unknown' && stage ? HARNESS[stage] ?? category : category)`
abbrev pub kind_of : Option String → FailureCategory → Option ScrapeStage → String
kind_of (some t) category stage = t
kind_of none category none = category_text category
kind_of none category (some stage) =
    if category_is_unknown category
    then text_or (harness_failure_type stage) (category_text category)
    else category_text category

abbrev pub same_stage : Option ScrapeStage → ScrapeStage → Bool
same_stage none stage = false
same_stage (some s) stage = stage_eq s stage

-- `status === 'failed'`
abbrev pub is_failed : StepStatus → Bool
is_failed step_failed = true
is_failed _ = false

-- A call of the recorder from outside.
pub data Call : Type 0 where
  url_seen : String → Call
  reported : Entry → Call
  opened : ScrapeStage → Call
  finished : ScrapeStage → ℕ → StepStatus → StepOutcome → Call
  noted : ScrapeStage → StepStatus → StepOutcome → Call
  succeeded : Option ℕ → Option String → Call
  broke : Thrown → FailOptions → Call

-- Which statements throw, by their number, whether the logger does, and the length of
-- JSON.stringify(entry).
module _ (throws : ℕ → Bool) (logger_throws : Bool) (json_length : Entry → Option ℕ) where
  -- bestEffort: a statement that throws changes nothing.
  unfoldable pub write_steps : (List StepRow → List StepRow) → Recorder → Recorder
  write_steps change s =
      if throws s.writes
      then record s { writes = suc s.writes }
      else record s { writes = suc s.writes; steps = change s.steps }

  unfoldable pub write_run : (RunRow → RunRow) → Recorder → Recorder
  write_run change s =
      if throws s.writes
      then record s { writes = suc s.writes }
      else record s { writes = suc s.writes; run = update change s.run }

  unfoldable pub record_event : Entry → Recorder → Recorder
  record_event e s = record s { trail = event json_length e s.trail }

  -- open: the index of the stage is the recorder's before it.
  unfoldable pub open_stage : ScrapeStage → Recorder → Recorder
  unfolding write_steps
  open_stage step s =
      write_steps
        (λ rows.
          rows
          ++ (record {
            step_index = s.step_index;
            step = step;
            status = started;
            outcome = no_outcome;
          }
              ∷ []))
        (record s { step_index = suc s.step_index })

  -- OpenStage.finish for the stage that was opened at `i`.
  unfoldable pub finish_stage : ScrapeStage → ℕ → StepStatus → StepOutcome → Recorder → Recorder
  unfolding write_steps finish_step
  finish_stage step i status outcome s =
      write_steps (finish_step i status (record outcome { url = or_else outcome.url s.last_url })) (
        if is_failed status
        then record s { failed_stage = or_else s.failed_stage (some step) }
        else s)

  unfoldable pub note : ScrapeStage → StepStatus → StepOutcome → Recorder → Recorder
  unfolding write_steps
  note step status outcome s =
      write_steps
        (λ rows.
          rows
          ++ (record {
            step_index = s.step_index;
            step = step;
            status = status;
            outcome = record outcome { url = or_else outcome.url s.last_url };
          }
              ∷ []))
        (record s { step_index = suc s.step_index })

  unfoldable pub succeed : Option ℕ → Option String → Recorder → Recorder
  unfolding write_run mark_success drain
  succeed found reason s =
      if s.closed
      then s
      else write_run (mark_success found reason)
          (record s { closed = true; trail = (drain s.trail).1 })

  -- flushTrail: one line, unless nothing was buffered.
  unfoldable pub flush_trail :
      Option ScrapeStage → String → Option String → Option String → Recorder → Recorder
  unfolding drain
  flush_trail stage kind reason url s =
      let (lines, trail) = drain s.trail in
      let line : TrailLog = record {
        stage = stage;
        failure_type = kind;
        stop_reason = reason;
        url = url;
        trail = lines;
      } in
      if is_empty lines || logger_throws
      then record s { trail = trail }
      else record s { trail = trail; log = s.log ++ (line ∷ []) }

  -- `if (stage && stage !== this.failedStage) await this.note(…)`
  unfoldable pub note_cause : Option ScrapeStage → StepOutcome → Recorder → Recorder
  unfolding note
  note_cause none outcome s = s
  note_cause (some stage) outcome s =
      if same_stage s.failed_stage stage then s else note stage step_failed outcome s

  unfoldable pub fail_with : Thrown → FailOptions → Recorder → Recorder
  unfolding flush_trail note_cause write_run mark_failed
  fail_with e opts s =
      let category = categorize_failure e in
      let stage =
        or_else (stage_from_failure_category category) (or_else opts.stage s.failed_stage) in
      let url = or_else opts.url s.last_url in
      let kind = kind_of opts.failure_type category stage in
      let cause : StepOutcome = record {
        failure_type = some kind;
        error_message = some (message e);
        url = url;
      } in
      write_run (mark_failed (message e) kind opts.stop_reason)
        (note_cause stage cause (flush_trail stage kind opts.stop_reason url s))

  unfoldable pub fail : Thrown → FailOptions → Recorder → Recorder
  unfolding fail_with
  fail e opts s = if s.closed then s else fail_with e opts (record s { closed = true })

  unfoldable pub call : Call → Recorder → Recorder
  unfolding observe_url record_event open_stage finish_stage note succeed fail
  call (url_seen url) s = observe_url url s
  call (reported e) s = record_event e s
  call (opened step) s = open_stage step s
  call (finished step i status outcome) s = finish_stage step i status outcome s
  call (noted step status outcome) s = note step status outcome s
  call (succeeded found reason) s = succeed found reason s
  call (broke e opts) s = fail e opts s

  unfoldable pub calls : List Call → Recorder → Recorder
  unfolding call
  calls [] s = s
  calls (c ∷ cs) s = calls cs (call c s)
