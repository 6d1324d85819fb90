-- ===== src/Banking/Recorder/Steps.antt =====
-- contexts/banking/application/ScrapeRunRecorder.ts: the steps of a run have indices of their own.
use reconbanker.Common.{
  ℕ, suc, ◌≤◌, ◌≡◌, refl, Bool, true, false, List, [], ◌∷◌, ◌++◌, Option, none, some, String, arith,
  if◌then◌else◌, ltb, ◌==◌, count, count-snoc, ◌=s◌,
}
use reconbanker.Banking.Trail.{Entry}
use reconbanker.Banking.Failure.{Thrown, ScrapeStage}
use reconbanker.Banking.Recorder.{
  StepRow, RunRow, or_else, same_stage, StepStatus, StepOutcome, Recorder, FailOptions, Call,
  url_seen, reported, opened, finished, noted, succeeded, broke, write_steps, write_run,
  finish_stage, finish_step, flush_trail, note_cause, fail_with, call, calls,
}

abbrev pub at_index : ℕ → StepRow → Bool
at_index i r = r.step_index == i

-- No index has two rows, and none is taken from the recorder's on.
pub record HasOwnIndices (s : Recorder) : Type 0 where
  pub own : (i : ℕ) → count (at_index i) s.steps ≤ (if ltb i s.step_index then 1 else 0)

either-HasOwnIndices :
    (b : Bool) {s t : Recorder}
    → HasOwnIndices s
    → HasOwnIndices t
    → HasOwnIndices (if b then s else t)
either-HasOwnIndices true h k = h
either-HasOwnIndices false h k = k

count-finish_step :
    (j i : ℕ) (status : StepStatus) (outcome : StepOutcome) (rows : List StepRow)
    → count (at_index j) (finish_step i status outcome rows) ≡ count (at_index j) rows
unfolding finish_step
count-finish_step j i status outcome [] = refl
count-finish_step j i status outcome (r ∷ rows) =
    ground (arith, count-finish_step j i status outcome rows)

module _ (throws : ℕ → Bool) (logger_throws : Bool) (json_length : Entry → Option ℕ) where
  -- A row with the next index.
  add_step-HasOwnIndices :
      (row : StepRow) (s : Recorder)
      → row.step_index ≡ s.step_index
      → HasOwnIndices s
      → HasOwnIndices (
          write_steps throws logger_throws json_length
            (λ rows. rows ++ (row ∷ []))
            (record s { step_index = suc s.step_index }))
  unfolding write_steps
  add_step-HasOwnIndices row s e h = record {
    own = λ i. ground (arith, h.own i, count-snoc (at_index i) s.steps row);
  }

  finish_stage-HasOwnIndices :
      (step : ScrapeStage) (i : ℕ) (status : StepStatus) (outcome : StepOutcome) (s : Recorder)
      → HasOwnIndices s
      → HasOwnIndices (finish_stage throws logger_throws json_length step i status outcome s)
  unfolding finish_stage
  finish_stage-HasOwnIndices step i status outcome s h = record {
    own = λ j. ground (
      arith,
      h.own j,
      count-finish_step j i status (record outcome { url = or_else outcome.url s.last_url })
          s.steps,
    );
  }

  -- Writing the row of the run, or the log, leaves the steps.
  write_run-HasOwnIndices :
      (change : RunRow → RunRow) (s : Recorder)
      → HasOwnIndices s
      → HasOwnIndices (write_run throws logger_throws json_length change s)
  unfolding write_run
  write_run-HasOwnIndices change s h = record { own = λ i. ground (arith, h.own i) }

  flush_trail-HasOwnIndices :
      (stage : Option ScrapeStage) (kind : String) (reason url : Option String) (s : Recorder)
      → HasOwnIndices s
      → HasOwnIndices (flush_trail throws logger_throws json_length stage kind reason url s)
  unfolding flush_trail
  flush_trail-HasOwnIndices stage kind reason url s h = record {
    own = λ i. ground (arith, h.own i);
  }

  note_cause-HasOwnIndices :
      (stage : Option ScrapeStage) (outcome : StepOutcome) (s : Recorder)
      → HasOwnIndices s
      → HasOwnIndices (note_cause throws logger_throws json_length stage outcome s)
  unfolding note_cause
  note_cause-HasOwnIndices none outcome s h = h
  note_cause-HasOwnIndices (some stage) outcome s h =
      either-HasOwnIndices (same_stage s.failed_stage stage) h (add_step-HasOwnIndices _ s refl h)

  fail_with-HasOwnIndices :
      (e : Thrown) (opts : FailOptions) (s : Recorder)
      → HasOwnIndices s
      → HasOwnIndices (fail_with throws logger_throws json_length e opts s)
  unfolding fail_with
  fail_with-HasOwnIndices e opts s h =
      write_run-HasOwnIndices _ _
        (note_cause-HasOwnIndices _ _ _ (flush_trail-HasOwnIndices _ _ _ _ _ h))

  call-HasOwnIndices :
      (c : Call) (s : Recorder)
      → HasOwnIndices s
      → HasOwnIndices (call throws logger_throws json_length c s)
  unfolding call
  call-HasOwnIndices (url_seen url) s h =
      either-HasOwnIndices (url =s "") h (record { own = h.own })
  call-HasOwnIndices (reported e) s h = record { own = h.own }
  call-HasOwnIndices (opened step) s h = add_step-HasOwnIndices _ s refl h
  call-HasOwnIndices (finished step i status outcome) s h =
      finish_stage-HasOwnIndices step i status outcome s h
  call-HasOwnIndices (noted step status outcome) s h = add_step-HasOwnIndices _ s refl h
  call-HasOwnIndices (succeeded found reason) s h =
      either-HasOwnIndices s.closed h (write_run-HasOwnIndices _ _ (record { own = h.own }))
  call-HasOwnIndices (broke e opts) s h =
      either-HasOwnIndices s.closed h
        (fail_with-HasOwnIndices e opts (record s { closed = true }) (record { own = h.own }))

  -- Whatever is called and whichever statements throw, no two steps of the run share an index and
  -- the next one is free: finishing a stage updates its own row.
  pub calls-HasOwnIndices :
      (cs : List Call) (s : Recorder)
      → HasOwnIndices s
      → HasOwnIndices (calls throws logger_throws json_length cs s)
  unfolding calls
  calls-HasOwnIndices [] s h = h
  calls-HasOwnIndices (c ∷ cs) s h =
      calls-HasOwnIndices cs (call throws logger_throws json_length c s) (call-HasOwnIndices c s h)
