-- ===== src/Banking/Otp/Revived.antt =====
-- contexts/banking/infrastructure/OtpAssistanceCoordinator.ts: a session that was torn down goes on
-- waiting, and asks again.
use reconbanker.Common.{
  ℕ, ◌<◌, ◌≡◌, refl, true, false, List, [], ◌∷◌, ◌++◌, none, some, String, ◌=s◌, =s_refl, ltb,
  arith,
}
use reconbanker.Conciliation.Candidate.{Text}
use reconbanker.Banking.Otp.{
  AssistanceStatus, AssistanceRow, pending_of, find_pending, Ask, opened, open_request,
  mark_fulfilled, close_request, cancel, Event, State, Window, non_empty, resend, fulfill,
  wait_code, request_otp,
}
use reconbanker.Banking.Otp.Served.{find_pending-snoc}

-- Closing the one pending request of the account leaves none.
closed-none :
    (account : String) (o : AssistanceRow) (rows : List AssistanceRow)
    → find_pending account rows ≡ none
    → find_pending account (close_request o.id AssistanceStatus.cancelled (rows ++ (o ∷ []))) ≡ none
unfolding find_pending close_request
closed-none account o [] h = ground (arith, =s_refl o.id)
closed-none account o (x ∷ rows) h = ground (arith, closed-none account o rows)

-- Fulfilling another request leaves the pending one.
other-pending :
    (account id : String) (r : AssistanceRow) (rows : List AssistanceRow)
    → find_pending account rows ≡ some r
    → (r.id =s id) ≡ false
    → find_pending account (mark_fulfilled id rows) ≡ some r
unfolding find_pending mark_fulfilled
other-pending account id r [] h e = cc
other-pending account id r (x ∷ rows) h e = ground (arith, other-pending account id r rows)

opened-pending : (id : String) (ask : Ask) → pending_of ask.account_id (opened id ask) ≡ true
opened-pending id ask = rw (=s_refl ask.account_id) refl

-- A window in which the session is torn down, and one in which a code comes.
abbrev pub teardown : String → Window
teardown new_id = record { torn_down = true; code = none; new_id = new_id }

abbrev pub delivery : Text → String → Window
delivery c new_id = record { torn_down = false; code = some c; new_id = new_id }

-- The table after a cancel, and after the resend that follows it.
cancelled-rows :
    (ask : Ask) (id : String) (rows : List AssistanceRow) (events : List Event)
    → find_pending ask.account_id rows ≡ none
    → (cancel ask.account_id (record { rows = rows ++ (opened id ask ∷ []); events = events })).rows
      ≡ close_request id AssistanceStatus.cancelled (rows ++ (opened id ask ∷ []))
unfolding cancel
cancelled-rows ask id rows events h =
    rw (find_pending-snoc ask.account_id (opened id ask) rows h (opened-pending id ask)) refl

resent-pending :
    (max_resends : ℕ) (ask : Ask) (id new_id : String) (s : State)
    → 0 < max_resends
    → find_pending ask.account_id s.rows ≡ none
    → find_pending ask.account_id (resend max_resends true ask id new_id 0 s).1.rows
      ≡ some (opened new_id ask)
unfolding resend open_request
resent-pending max_resends ask id new_id s positive h =
    let left : ltb 0 max_resends ≡ true = ground arith in
    rw (left, h)
      (find_pending-snoc ask.account_id (opened new_id ask) s.rows h (opened-pending new_id ask))

-- A session that asked for a code and is torn down before one came: if a resend is left, the end of
-- the window opens a new pending request of the account. A code that is delivered to the old one is
-- still returned, and the new request stays pending.
pub request_otp-revived :
    (max_resends : ℕ) (ask : Ask) (id new_id other : String) (c : Text) (s : State)
    → 0 < max_resends
    → find_pending ask.account_id s.rows ≡ none
    → (new_id =s id) ≡ false
    → non_empty (some c) ≡ some c
    → let x = request_otp max_resends true ask id (teardown new_id ∷ delivery c other ∷ []) s in
      (x.code ≡ some c) × (find_pending ask.account_id x.state.rows ≡ some (opened new_id ask))
unfolding request_otp wait_code open_request fulfill
request_otp-revived max_resends ask id new_id other c s positive h differ given =
    rw (h, given)
      (
        refl,
        other-pending ask.account_id id (opened new_id ask) _
            (resent-pending max_resends ask id new_id _ positive (
              rw (cancelled-rows ask id s.rows _ h)
                (closed-none ask.account_id (opened id ask) s.rows h)))
            differ,
      )
