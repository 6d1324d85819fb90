-- ===== src/Banking/Alerts/Tests.antt =====
-- Witness for the alerts of failed scrapes: two failures of a login alert, one that cannot be
-- counted is not notified, and the next success recovers.
use reconbanker.Common.{◌+◌, ◌≡◌, refl, ◌&&◌, true, false, List, [], ◌∷◌, if◌then◌else◌, count}
use reconbanker.Banking.Failure.{FailureCategory}
use reconbanker.Banking.Alerts.{
  connection, scrape, outcome, Faults, Outcome, failure, success, outcomes,
}
use reconbanker.Banking.Alerts.Rows.{is_alerted}
use reconbanker.Banking.Alerts.Kept.{is_failed, is_recovered}
use reconbanker.Banking.Alerts.Balance.{is_streaming, no_alerts, outcomes-balance}

abbrev no_faults : Faults
no_faults = record {
  record_throws = false;
  mark_throws = false;
  clear_throws = λ group. false;
  stream_throws = λ group. false;
}

abbrev scrapes : List Outcome
scrapes =
    failure no_faults "a" FailureCategory.login_failed
    ∷ failure no_faults "a" FailureCategory.navigation_failed
    ∷ failure (record no_faults { record_throws = true }) "b" FailureCategory.login_failed
    ∷ success no_faults "a"
    ∷ []

two_alert : count (is_failed "a" connection) (outcomes 2 scrapes no_alerts).sent ≡ 1
unfolding outcomes is_failed
two_alert = refl

-- The clear of the connection's row throws, that of the other group works.
abbrev one_clears : Faults
one_clears = record no_faults {
  clear_throws = λ group. elim group [ connection ↦ true | scrape ↦ false ];
}

outcomes-balance_example :
    (count (is_failed "a" connection) (outcomes 2 scrapes no_alerts).sent
      ≡ count (is_recovered "a" connection) (outcomes 2 scrapes no_alerts).sent
        + (if is_alerted "a" connection (outcomes 2 scrapes no_alerts).rows then 1 else 0))
    × (is_alerted "a" connection
          (outcome 2 (success one_clears "a") (outcomes 2 scrapes no_alerts)).rows
        ≡ (true && is_alerted "a" connection (outcomes 2 scrapes no_alerts).rows))
unfolding is_streaming
outcomes-balance_example =
    outcomes-balance 2 "a" connection scrapes one_clears (refl, (refl, (refl, (refl, tt))))
