-- ===== src/Banking/Session.antt =====
-- contexts/banking/infrastructure/SessionManager.ts: the live monitor session of one account. The
-- manager's two maps are keyed by the account, so a slot is what they hold for one. An `await` cuts
-- a method into steps: the slot lists the continuations in flight, and a signal resumes one of them.
pub mod Exclusive
pub mod Lost
use reconbanker.Common.{
  ℕ, zero, suc, Bool, true, false, not, ◌&&◌, ◌||◌, List, [], ◌∷◌, ◌++◌, Option, none, some, String,
  ◌=s◌, if◌then◌else◌,
}

-- SessionHandle, as far as the manager reads it.
pub record Handle : Type 0 where
  pub user_id : Option String
  pub assisted_persistent : Bool
  pub reports_authentication : Bool

-- The `await` at which a call of `launch` stands, or the promise chain on `handle.done`.
-- `abandoned` is a session whose `done` nobody waits for.
pub data Task : Type 0 where
  awaiting_start : Task
  recording_failure : Task
  awaiting_mark : Handle → Task
  awaiting_done : Handle → Task
  ending : Handle → Task
  ending_crash : Handle → Task
  abandoned : Handle → Task

-- What a promise settles with.
pub data Signal : Type 0 where
  started : Handle → Signal
  start_threw : String → Signal
  marked : (previous_status : Option String) → Signal
  mark_threw : String → Signal
  stopped : (reason : String) → Signal
  crashed : (error : String) → Signal
  written : Signal
  write_threw : String → Signal

-- Calls of the session repository and the notifier. `awaits_recovery` is the wait for
-- `authenticated` that ends in emitRecovered.
pub data Effect : Type 0 where
  mark_running : Effect
  mark_stopped : (reason : String) → Effect
  mark_needs_attention : (reason : String) → Effect
  emit_started : (user_id : String) → Effect
  emit_stopped : (user_id reason : String) → Effect
  emit_needs_attention : (user_id reason : String) → (notify : Bool) → Effect
  awaits_recovery : (user_id : String) → Effect

pub record Slot : Type 0 where
  pub live : Option Handle
  pub starting : Bool
  pub tasks : List Task

abbrev pub empty : Slot
empty = record { live = none; starting = false; tasks = [] }

abbrev is_live : Option Handle → Bool
is_live none = false
is_live (some h) = true

unfoldable pub is_running : Slot → Bool
is_running s = is_live s.live || s.starting

-- ensureRunning up to its first `await`.
unfoldable pub ensure_running : Slot → Slot
unfolding is_running
ensure_running s =
    if is_running s then s else record s { starting = true; tasks = awaiting_start ∷ s.tasks }

abbrev pub is_attention_reason : String → Bool
is_attention_reason r = r =s "auth_timeout" || r =s "logged_out" || r =s "watchdog_timeout"

-- `if (handle.userId)`
abbrev pub for_user : Option String → (String → List Effect) → List Effect
for_user none f = []
for_user (some u) f = if u =s "" then [] else f u

unfoldable pub handle_end : Handle → String → Bool → List Effect
handle_end h reason is_crash =
    if h.assisted_persistent && (is_crash || is_attention_reason reason)
    then for_user h.user_id
        (λ u. emit_needs_attention u reason (not (reason =s "session_killed")) ∷ [])
      ++ (mark_needs_attention reason ∷ [])
    else for_user h.user_id (λ u. emit_stopped u reason ∷ []) ++ (mark_stopped reason ∷ [])

abbrev was_parked : Option String → Bool
was_parked none = false
was_parked (some s) = s =s "needs_attention"

unfoldable pub on_marked : Handle → Option String → List Effect
on_marked h previous = for_user h.user_id (λ u.
    emit_started u
    ∷ (if was_parked previous && h.reports_authentication then awaits_recovery u ∷ [] else []))

-- One continuation, taken from the slot, and the slot's other tasks in `s`.
unfoldable pub resume : Task → Signal → Slot → Slot × List Effect
unfolding handle_end on_marked
resume awaiting_start (started h) s =
    (record s { live = some h; tasks = awaiting_mark h ∷ s.tasks }, mark_running ∷ [])
resume awaiting_start (start_threw e) s =
    (record s { tasks = recording_failure ∷ s.tasks }, mark_stopped e ∷ [])
resume recording_failure written s = (record s { starting = false }, [])
resume recording_failure (write_threw e) s = (record s { starting = false }, [])
resume (awaiting_mark h) (marked previous) s =
    (record s { starting = false; tasks = awaiting_done h ∷ s.tasks }, on_marked h previous)
resume (awaiting_mark h) (mark_threw e) s =
    (record s { starting = false; tasks = abandoned h ∷ s.tasks }, [])
resume (awaiting_done h) (stopped reason) s =
    (record s { tasks = ending h ∷ s.tasks }, handle_end h reason false)
resume (awaiting_done h) (crashed e) s =
    (record s { tasks = ending_crash h ∷ s.tasks }, handle_end h e true)
resume (ending h) written s = (record s { live = none }, [])
resume (ending h) (write_threw e) s =
    (record s { tasks = ending_crash h ∷ s.tasks }, handle_end h e true)
resume (ending_crash h) written s = (record s { live = none }, [])
resume (ending_crash h) (write_threw e) s = (record s { live = none }, [])
resume task signal s = (record s { tasks = task ∷ s.tasks }, [])

-- The task at a position, and the others.
abbrev keep_before : Task → Option (Task × List Task) → Option (Task × List Task)
keep_before t none = none
keep_before t (some (x, rest)) = some (x, t ∷ rest)

abbrev pub pick : ℕ → List Task → Option (Task × List Task)
pick n [] = none
pick zero (t ∷ ts) = some (t, ts)
pick (suc n) (t ∷ ts) = keep_before t (pick n ts)

abbrev pub resume_picked : Option (Task × List Task) → Signal → Slot → Slot × List Effect
resume_picked none signal s = (s, [])
resume_picked (some (t, ts)) signal s = resume t signal (record s { tasks = ts })

-- A call of ensureRunning, or a promise that settles.
pub data Event : Type 0 where
  ensures : Event
  settles : ℕ → Signal → Event

unfoldable pub step : Event → Slot → Slot × List Effect
unfolding ensure_running resume
step ensures s = (ensure_running s, [])
step (settles n signal) s = resume_picked (pick n s.tasks) signal s

unfoldable pub steps : List Event → Slot → Slot × List Effect
unfolding step
steps [] s = (s, [])
steps (e ∷ es) s = let (s', a) = step e s in let (s'', b) = steps es s' in (s'', a ++ b)
