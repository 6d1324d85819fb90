-- ===== src/Banking/Recorder/Closing.antt =====
-- contexts/banking/application/ScrapeRunRecorder.ts: a run is closed once.
use reconbanker.Common.{
  ℕ, ◌≡◌, refl, ◌∙◌, Bool, true, false, List, [], ◌∷◌, ◌++◌, Option, none, some, String, arith,
}
use reconbanker.Banking.Trail.{Entry}
use reconbanker.Banking.Failure.{Thrown, ScrapeStage}
use reconbanker.Banking.Recorder.{
  StepRow, StepOutcome, RunRow, Recorder, FailOptions, Call, url_seen, reported, opened, finished,
  noted, succeeded, broke, write_steps, write_run, flush_trail, note_cause, fail_with, call, calls,
}

-- The verdict of a run and its line in the error log.
pub record SameVerdict (s t : Recorder) : Type 0 where
  pub same_closed : t.closed ≡ s.closed
  pub same_run : t.run ≡ s.run
  pub same_log : t.log ≡ s.log

-- A call that ends the run.
abbrev pub is_closing : Call → Bool
is_closing (succeeded found reason) = true
is_closing (broke e opts) = true
is_closing _ = false

module _ (throws : ℕ → Bool) (logger_throws : Bool) (json_length : Entry → Option ℕ) where
  write_steps-SameVerdict :
      (change : List StepRow → List StepRow) (s : Recorder)
      → SameVerdict s (write_steps throws logger_throws json_length change s)
  unfolding write_steps
  write_steps-SameVerdict change s = ground arith

  -- A call that is not the end of the run.
  pub recording-SameVerdict :
      (c : Call) (s : Recorder)
      → is_closing c ≡ false
      → SameVerdict s (call throws logger_throws json_length c s)
  unfolding call
  recording-SameVerdict (url_seen url) s h = ground arith
  recording-SameVerdict (reported e) s h = ground arith
  recording-SameVerdict (opened step) s h = ground arith
  recording-SameVerdict (finished step i status outcome) s h = ground arith
  recording-SameVerdict (noted step status outcome) s h = ground arith
  recording-SameVerdict (succeeded found reason) s h = cc
  recording-SameVerdict (broke e opts) s h = cc

  call-SameVerdict :
      (c : Call) (s : Recorder)
      → s.closed ≡ true
      → SameVerdict s (call throws logger_throws json_length c s)
  unfolding call
  call-SameVerdict (url_seen url) s h = ground arith
  call-SameVerdict (reported e) s h = ground arith
  call-SameVerdict (opened step) s h = ground arith
  call-SameVerdict (finished step i status outcome) s h = ground arith
  call-SameVerdict (noted step status outcome) s h = ground arith
  call-SameVerdict (succeeded found reason) s h = ground arith
  call-SameVerdict (broke e opts) s h = ground arith

  pub calls-SameVerdict :
      (cs : List Call) (s : Recorder)
      → s.closed ≡ true
      → SameVerdict s (calls throws logger_throws json_length cs s)
  unfolding calls
  calls-SameVerdict [] s h = record { same_closed = refl; same_run = refl; same_log = refl }
  calls-SameVerdict (c ∷ cs) s h =
      let a = call-SameVerdict c s h in
      let b =
        calls-SameVerdict cs (call throws logger_throws json_length c s) (a.same_closed ∙ h) in
      record {
        same_closed = b.same_closed ∙ a.same_closed;
        same_run = b.same_run ∙ a.same_run;
        same_log = b.same_log ∙ a.same_log;
      }

  calls-append :
      (cs ds : List Call) (s : Recorder)
      → calls throws logger_throws json_length (cs ++ ds) s
        ≡ calls throws logger_throws json_length ds (calls throws logger_throws json_length cs s)
  unfolding calls
  calls-append [] ds s = refl
  calls-append (c ∷ cs) ds s = calls-append cs ds (call throws logger_throws json_length c s)

  write_run-closed :
      (change : RunRow → RunRow) (s : Recorder)
      → (write_run throws logger_throws json_length change s).closed ≡ s.closed
  unfolding write_run
  write_run-closed change s = ground arith

  flush_trail-closed :
      (stage : Option ScrapeStage) (kind : String) (reason url : Option String) (s : Recorder)
      → (flush_trail throws logger_throws json_length stage kind reason url s).closed ≡ s.closed
  unfolding flush_trail
  flush_trail-closed stage kind reason url s = ground arith

  note_cause-closed :
      (stage : Option ScrapeStage) (outcome : StepOutcome) (s : Recorder)
      → (note_cause throws logger_throws json_length stage outcome s).closed ≡ s.closed
  unfolding note_cause
  note_cause-closed none outcome s = refl
  note_cause-closed (some stage) outcome s = ground arith

  fail_with-closed :
      (e : Thrown) (opts : FailOptions) (s : Recorder)
      → (fail_with throws logger_throws json_length e opts s).closed ≡ s.closed
  unfolding fail_with
  fail_with-closed e opts s =
      write_run-closed _ _ ∙ (note_cause-closed _ _ _ ∙ flush_trail-closed _ _ _ _ s)

  pub call-closes :
      (c : Call) (s : Recorder)
      → is_closing c ≡ true
      → (call throws logger_throws json_length c s).closed ≡ true
  unfolding call
  call-closes (url_seen url) s h = cc
  call-closes (reported e) s h = cc
  call-closes (opened step) s h = cc
  call-closes (finished step i status outcome) s h = cc
  call-closes (noted step status outcome) s h = cc
  call-closes (succeeded found reason) s h = ground arith
  call-closes (broke e opts) s h =
      ground (arith, fail_with-closed e opts (record s { closed = true }))

  -- The first succeed or fail of a recorder decides: no call after it changes the row of the run,
  -- or adds to the error log.
  pub calls-first_verdict :
      (before later : List Call) (c : Call) (s : Recorder)
      → is_closing c ≡ true
      → SameVerdict
          (calls throws logger_throws json_length (before ++ (c ∷ [])) s)
          (calls throws logger_throws json_length (before ++ (c ∷ later)) s)
  unfolding calls
  calls-first_verdict before later c s h =
      rw (calls-append before (c ∷ []) s, calls-append before (c ∷ later) s)
        (calls-SameVerdict later _
          (call-closes c (calls throws logger_throws json_length before s) h))
