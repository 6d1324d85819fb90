-- ===== src/Banking/Otp.antt =====
-- contexts/banking/infrastructure/OtpAssistanceCoordinator.ts with AssistanceRequestRepository.ts: a
-- bank's one-time code, asked for and waited for in windows. What each window brings is given.
pub mod Served
pub mod Revived
mod Tests
use reconbanker.Common.{
  ℕ, zero, suc, ◌+◌, Bool, true, false, not, ◌&&◌, List, [], ◌∷◌, ◌++◌, map, Option, none, some,
  String, ◌=s◌, ltb, if◌then◌else◌, find, is_empty,
}
use reconbanker.Conciliation.Candidate.{Text}

pub data AssistanceStatus : Type 0 where
  pending fulfilled cancelled expired : AssistanceStatus

abbrev pub is_pending : AssistanceStatus → Bool
is_pending pending = true
is_pending _ = false

-- A row of assistance_requests.
pub record AssistanceRow : Type 0 where
  pub id : String
  pub account_id : String
  pub session_id : Option String
  pub status : AssistanceStatus
  pub descriptor : String
  pub attempts : ℕ

-- COALESCE(a, b)
abbrev pub coalesce : Option String → Option String → Option String
coalesce none b = b
coalesce (some a) b = some a

abbrev pub pending_of : String → AssistanceRow → Bool
pending_of account r = (r.account_id =s account) && is_pending r.status

-- findPending
unfoldable pub find_pending : String → List AssistanceRow → Option AssistanceRow
find_pending account rows = find (pending_of account) rows

abbrev pub find_row : String → List AssistanceRow → Option AssistanceRow
find_row id rows = find (λ r. r.id =s id) rows

abbrev pub bump : String → Option String → AssistanceRow → AssistanceRow
bump descriptor session r = record r {
  attempts = r.attempts + 1;
  descriptor = descriptor;
  session_id = coalesce session r.session_id;
}

-- What the session asks for.
pub record Ask : Type 0 where
  pub account_id : String
  pub session_id : Option String
  pub descriptor : String

abbrev pub opened : String → Ask → AssistanceRow
opened id ask = record {
  id = id;
  account_id = ask.account_id;
  session_id = ask.session_id;
  status = pending;
  descriptor = ask.descriptor;
  attempts = 1;
}

abbrev pub upsert :
    String → Ask → Option AssistanceRow → List AssistanceRow → AssistanceRow × List AssistanceRow
upsert id ask none rows = (opened id ask, rows ++ (opened id ask ∷ []))
upsert id ask (some r) rows = (
  bump ask.descriptor ask.session_id r,
  map (λ x. if pending_of ask.account_id x then bump ask.descriptor ask.session_id x else x) rows,
)

-- open: the row that is returned, and the table; `id` is what gen_random_uuid gives.
unfoldable pub open_request : String → Ask → List AssistanceRow → AssistanceRow × List AssistanceRow
unfolding find_pending
open_request id ask rows = upsert id ask (find_pending ask.account_id rows) rows

abbrev set_status : String → AssistanceStatus → List AssistanceRow → List AssistanceRow
set_status id status rows =
    map (λ r. if (r.id =s id) && is_pending r.status then record r { status = status } else r) rows

unfoldable pub mark_fulfilled : String → List AssistanceRow → List AssistanceRow
mark_fulfilled id rows = set_status id fulfilled rows

-- close
unfoldable pub close_request : String → AssistanceStatus → List AssistanceRow → List AssistanceRow
close_request id status rows = set_status id status rows

pub data Event : Type 0 where
  requested : String → Event
  resent : String → Event
  fulfilled : String → Event
  cancelled : String → Event

pub record State : Type 0 where
  pub rows : List AssistanceRow
  pub events : List Event

abbrev pub emit : Event → State → State
emit e s = record s { events = s.events ++ (e ∷ []) }

abbrev pub cancel_found : Option AssistanceRow → State → State
cancel_found none s = s
cancel_found (some r) s =
    emit (Event.cancelled r.id)
      (record s { rows = close_request r.id AssistanceStatus.cancelled s.rows })

-- OtpAssistanceCoordinator.cancel
unfoldable pub cancel : String → State → State
unfolding find_pending close_request
cancel account s = cancel_found (find_pending account s.rows) s

-- One window: whether the session was torn down in it, the code that came, and the id that a new row
-- would take.
pub record Window : Type 0 where
  pub torn_down : Bool
  pub code : Option Text
  pub new_id : String

-- What the promise gave: a code, or nothing in these windows.
pub record Asked : Type 0 where
  pub code : Option Text
  pub state : State

-- `if (code)`: the empty code counts as none.
abbrev pub non_empty : Option Text → Option Text
non_empty none = none
non_empty (some c) = if is_empty c then none else some c

-- What a window ends in: the code that came, or the windows after it.
abbrev pub on_code : Option Text → (Text → Asked) → Asked → Asked
on_code none take rest = rest
on_code (some c) take rest = take c

module _ (max_resends : ℕ) (can_resend : Bool) (ask : Ask) (id : String) where
  -- The end of a window with no code: the resends made, and the state.
  unfoldable pub resend : String → ℕ → State → ℕ × State
  unfolding open_request
  resend new_id resends s =
      if can_resend && ltb resends max_resends
      then (suc resends, emit (resent id) (record s { rows = (open_request new_id ask s.rows).1 }))
      else (resends, s)

  unfoldable pub fulfill : Text → State → Asked
  unfolding mark_fulfilled
  fulfill c s = record {
    code = some c;
    state = emit (Event.fulfilled id) (record s { rows = mark_fulfilled id s.rows });
  }

  abbrev pub torn : Bool → State → State
  torn b s = if b then cancel ask.account_id s else s

  -- The `while (true)` over the windows.
  unfoldable pub wait_code : List Window → ℕ → State → Asked
  unfolding resend fulfill cancel
  wait_code [] resends s = record { code = none; state = s }
  wait_code (w ∷ ws) resends s =
      let s' = torn w.torn_down s in
      let (n, next) = resend w.new_id resends s' in
      let rest = wait_code ws n next in on_code (non_empty w.code) (λ c. fulfill c s') rest

-- The function that forSession returns.
unfoldable pub request_otp : ℕ → Bool → Ask → String → List Window → State → Asked
unfolding wait_code open_request
request_otp max_resends can_resend ask new_id ws s =
    let (req, rows) = open_request new_id ask s.rows in
    wait_code max_resends can_resend ask req.id ws 0
      (emit (requested req.id) (record s { rows = rows }))
