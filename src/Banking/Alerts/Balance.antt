-- ===== src/Banking/Alerts/Balance.antt =====
-- contexts/banking/infrastructure/RealtimeScrapeFailureNotifier.ts: an alert and its recovery.
use reconbanker.Common.{
  ℕ, ◌+◌, ◌≡◌, refl, ap, ◌∙◌, ◌&&◌, arith, Bool, true, false, not, List, [], ◌∷◌, String,
  if◌then◌else◌, count, All,
}
use reconbanker.Banking.Alerts.{
  AlertRow, Faults, recover, clear, enqueue, notice, FailureGroup, connection, scrape, State,
  record_success, group_of, Outcome, failure, success, outcome, outcomes,
}
use reconbanker.Banking.Alerts.Rows.{is_alerted, same, clear-other, clear-closed}
use reconbanker.Banking.Alerts.Kept.{
  is_failed, is_recovered, IsBalanced, record_failure-IsBalanced, recover-IsBalanced,
}

-- Whether the stream takes the events of a call.
unfoldable pub is_streaming : Outcome → Bool
is_streaming (failure x account category) = not (x.stream_throws (group_of category))
is_streaming (success x account) = not (x.stream_throws connection) && not (x.stream_throws scrape)

not-true : (p : Bool) → not p ≡ true → p ≡ false
not-true true h = cc
not-true false h = refl

both-quiet : (p q : Bool) → (not p && not q) ≡ true → (p ≡ false) × (q ≡ false)
both-quiet true q h = cc
both-quiet false true h = cc
both-quiet false false h = (refl, refl)

outcome-IsBalanced :
    (threshold : ℕ) (a : String) (g : FailureGroup) (o : Outcome) (s : State)
    → is_streaming o ≡ true
    → IsBalanced a g s
    → IsBalanced a g (outcome threshold o s)
unfolding outcome is_streaming record_success
outcome-IsBalanced threshold a g (failure x b c) s working w =
    record_failure-IsBalanced threshold a g x b c s
      (not-true (x.stream_throws (group_of c)) working) w
outcome-IsBalanced threshold a g (success x b) s working w =
    let (first, second) =
      both-quiet (x.stream_throws connection) (x.stream_throws scrape) working in
    recover-IsBalanced threshold a g x b scrape _ second
      (recover-IsBalanced threshold a g x b connection s first w)

outcomes-IsBalanced :
    (threshold : ℕ) (a : String) (g : FailureGroup) (os : List Outcome) (s : State)
    → All (λ o. is_streaming o ≡ true) os
    → IsBalanced a g s
    → IsBalanced a g (outcomes threshold os s)
unfolding outcomes
outcomes-IsBalanced threshold a g [] s working w = w
outcomes-IsBalanced threshold a g (o ∷ os) s working w =
    outcomes-IsBalanced threshold a g os (outcome threshold o s) working.1
      (outcome-IsBalanced threshold a g o s working.0 w)

abbrev pub no_alerts : State
no_alerts = record { rows = []; sent = [] }

balanced :
    (threshold : ℕ) (account : String) (group : FailureGroup) (os : List Outcome)
    → All (λ o. is_streaming o ≡ true) os
    → count (is_failed account group) (outcomes threshold os no_alerts).sent
      ≡ count (is_recovered account group) (outcomes threshold os no_alerts).sent
        + (if is_alerted account group (outcomes threshold os no_alerts).rows then 1 else 0)
unfolding is_alerted
balanced threshold account group os working =
    let holds =
      outcomes-IsBalanced threshold account group os no_alerts working
        (record { balance = refl }) in
    holds.balance

either-rows :
    (test : Bool) (s s' : State) (rows : List AlertRow)
    → s.rows ≡ rows
    → s'.rows ≡ rows
    → (if test then s else s').rows ≡ rows
either-rows true s s' rows e e' = e
either-rows false s s' rows e e' = e'

if-rows :
    (test : Bool) (s s' : State)
    → (if test then s else s').rows ≡ (if test then s.rows else s'.rows)
if-rows true s s' = refl
if-rows false s s' = refl

-- The rows after one turn of the loop: those of the clear, unless it threw.
recover-rows :
    (threshold : ℕ) (x : Faults) (account : String) (group : FailureGroup) (s : State)
    → (recover threshold x account group s).rows
      ≡ (if x.clear_throws group then s.rows else (clear account group s.rows).1)
unfolding recover
recover-rows threshold x account group s =
    let rows = (clear account group s.rows).1 in
    let cleared : State = record s { rows = rows } in
    let kept =
      either-rows (clear account group s.rows).0
        (enqueue (x.stream_throws group) account group true cleared) cleared rows
        (either-rows (x.stream_throws group) cleared (notice account group true cleared) rows refl
          refl)
        refl in
    if-rows (x.clear_throws group) s _ ∙ ap (λ l. if x.clear_throws group then s.rows else l) kept

unless-cleared :
    (test : Bool) (account : String) (group : FailureGroup) (rows : List AlertRow)
    → is_alerted account group (if test then rows else (clear account group rows).1)
      ≡ (test && is_alerted account group rows)
unless-cleared true account group rows = refl
unless-cleared false account group rows = (clear-closed account group rows).1

unless-other :
    (test : Bool) (account : String) (group other : FailureGroup) (rows : List AlertRow)
    → same account group account other ≡ false
    → is_alerted account group (if test then rows else (clear account other rows).1)
      ≡ is_alerted account group rows
unless-other true account group other rows h = refl
unless-other false account group other rows h = clear-other account group account other rows h

connection-other : (a : String) → same a connection a scrape ≡ false
unfolding same
connection-other a = ground arith

scrape-other : (a : String) → same a scrape a connection ≡ false
unfolding same
scrape-other a = ground arith

-- Each group has its own turn: only its own clear decides whether its alert stays.
record_success-alerted :
    (threshold : ℕ) (x : Faults) (account : String) (group : FailureGroup) (s : State)
    → is_alerted account group (record_success threshold x account s).rows
      ≡ (x.clear_throws group && is_alerted account group s.rows)
unfolding record_success
record_success-alerted threshold x account connection s =
    let first = recover threshold x account connection s in
    ap (is_alerted account connection) (recover-rows threshold x account scrape first)
    ∙ unless-other (x.clear_throws scrape) account connection scrape first.rows
        (connection-other account)
    ∙ ap (is_alerted account connection) (recover-rows threshold x account connection s)
    ∙ unless-cleared (x.clear_throws connection) account connection s.rows
record_success-alerted threshold x account scrape s =
    let first = recover threshold x account connection s in
    ap (is_alerted account scrape) (recover-rows threshold x account scrape first)
    ∙ unless-cleared (x.clear_throws scrape) account scrape first.rows
    ∙ ap (λ b. x.clear_throws scrape && b)
        (ap (is_alerted account scrape) (recover-rows threshold x account connection s)
          ∙ unless-other (x.clear_throws connection) account scrape connection s.rows
              (scrape-other account))

-- While the stream takes events, whichever calls of the store throw: after any scrapes, an
-- account's group was notified of a failure as often as of a recovery, and once more when its row
-- is alerted. One more success, whatever throws in it, leaves the group alerted exactly if it was
-- and the clear of this very group throws.
pub outcomes-balance :
    (threshold : ℕ) (account : String) (group : FailureGroup) (os : List Outcome) (x : Faults)
    → All (λ o. is_streaming o ≡ true) os
    → (count (is_failed account group) (outcomes threshold os no_alerts).sent
        ≡ count (is_recovered account group) (outcomes threshold os no_alerts).sent
          + (if is_alerted account group (outcomes threshold os no_alerts).rows then 1 else 0))
      × (is_alerted account group
            (outcome threshold (success x account) (outcomes threshold os no_alerts)).rows
          ≡ (x.clear_throws group
              && is_alerted account group (outcomes threshold os no_alerts).rows))
unfolding outcome
outcomes-balance threshold account group os x working = (
  balanced threshold account group os working,
  record_success-alerted threshold x account group (outcomes threshold os no_alerts),
)
