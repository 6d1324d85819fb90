-- ===== src/Banking/Recorder/Tests.antt =====
-- Runs of the recorder: a browser that does not launch, and a session that stops on request.
use reconbanker.Common.{
  ℕ, ◌≡◌, refl, Bool, false, List, [], ◌∷◌, ◌++◌, Option, none, some, arith, ltb, if◌then◌else◌,
}
use reconbanker.Banking.Trail.{Entry, scalar, units}
use reconbanker.Banking.Failure.{Thrown, error, launch, login}
use reconbanker.Banking.Recorder.{
  step_success, step_failed, no_outcome, no_options, success, Call, reported, opened, finished,
  succeeded, broke, calls,
}
use reconbanker.Banking.Recorder.Closing.{SameVerdict, calls-first_verdict}
use reconbanker.Banking.Recorder.Steps.{HasOwnIndices, calls-HasOwnIndices}
use reconbanker.Banking.Recorder.Launcher.{
  Lifetime, resolved, created, launch_session, status_of, verdict, launch_session-status,
}

abbrev short : Entry → Option ℕ
short e = some 10

abbrev works : ℕ → Bool
works n = false

-- The statement number 1 throws.
abbrev second_throws : ℕ → Bool
second_throws n = if ltb 0 n then ltb n 2 else false

abbrev no_browser : Thrown
no_browser = error (units "no browser")

abbrev failing : List Call
failing =
    opened launch
    ∷ reported (("event", scalar "spawn") ∷ [])
    ∷ finished launch 0 step_failed no_outcome
    ∷ []

-- A success that comes after the failure changes nothing.
calls-first_verdict_example :
    SameVerdict
      (calls second_throws false short
        (failing ++ (broke no_browser no_options ∷ []))
        (created false))
      (calls second_throws false short
        (failing ++ (broke no_browser no_options ∷ succeeded (some 3) none ∷ []))
        (created false))
calls-first_verdict_example =
    calls-first_verdict second_throws false short failing (succeeded (some 3) none ∷ [])
      (broke no_browser no_options) (created false) refl

created-HasOwnIndices : HasOwnIndices (created false)
unfolding created
created-HasOwnIndices = record { own = λ i. ground arith }

calls-HasOwnIndices_example : HasOwnIndices (
    calls second_throws false short (failing ++ (broke no_browser no_options ∷ [])) (created false))
calls-HasOwnIndices_example =
    calls-HasOwnIndices second_throws false short (failing ++ (broke no_browser no_options ∷ []))
      (created false) created-HasOwnIndices

abbrev quiet_session : Lifetime
quiet_session = record {
  starting = opened launch ∷ finished launch 0 step_success no_outcome ∷ [];
  start_throws = none;
  running_calls = opened login ∷ finished login 1 step_success no_outcome ∷ [];
  ending = resolved (units "stop_requested");
}

launch_session-status_example :
    status_of (launch_session works false short false quiet_session).run
    ≡ some (verdict none quiet_session.ending)
launch_session-status_example =
    launch_session-status works false short (λ n. refl) quiet_session (refl, (refl, tt))
      (refl, (refl, tt))

quiet_session_succeeds : verdict none quiet_session.ending ≡ success
unfolding units
quiet_session_succeeds = refl
