-- ===== src/Banking/Alerts.antt =====
-- contexts/banking/infrastructure/RealtimeScrapeFailureNotifier.ts with ScrapeFailureAlertRepository.ts:
-- the alerts of scrapes that fail in a row. The events for the dashboard are left out; which
-- statements throw is given with each call.
mod Rows
mod Kept
pub mod Balance
mod Tests
use reconbanker.Common.{
  ℕ, ◌+◌, Bool, true, false, not, ◌&&◌, List, [], ◌∷◌, ◌++◌, map, Option, none, some, String, ◌=s◌,
  leb, if◌then◌else◌, find,
}
use reconbanker.Banking.Failure.{FailureCategory, is_connection}

pub data FailureGroup : Type 0 where
  connection scrape : FailureGroup

abbrev pub group_eq : FailureGroup → FailureGroup → Bool
group_eq connection connection = true
group_eq scrape scrape = true
group_eq _ _ = false

-- A row of scrape_failure_alerts.
pub record AlertRow : Type 0 where
  pub account_id : String
  pub failure_group : FailureGroup
  pub streak : ℕ
  pub alerted : Bool

-- An event on the stream of the notifier.
pub record Notice : Type 0 where
  pub account_id : String
  pub group : FailureGroup
  pub recovered : Bool

pub record State : Type 0 where
  pub rows : List AlertRow
  pub sent : List Notice

abbrev pub is_key : String → FailureGroup → AlertRow → Bool
is_key account group r = (r.account_id =s account) && group_eq r.failure_group group

abbrev pub find_alert : String → FailureGroup → List AlertRow → Option AlertRow
find_alert account group rows = find (is_key account group) rows

abbrev pub change_row :
    String → FailureGroup → (AlertRow → AlertRow) → List AlertRow → List AlertRow
change_row account group f rows = map (λ r. if is_key account group r then f r else r) rows

abbrev pub first_row : String → FailureGroup → AlertRow
first_row account group = record {
  account_id = account;
  failure_group = group;
  streak = 1;
  alerted = false;
}

abbrev pub raise : AlertRow → AlertRow
raise r = record r { streak = r.streak + 1 }

abbrev pub upsert :
    String → FailureGroup → Option AlertRow → List AlertRow → AlertRow × List AlertRow
upsert account group none rows = (first_row account group, rows ++ (first_row account group ∷ []))
upsert account group (some r) rows = (raise r, change_row account group raise rows)

-- ScrapeFailureAlertRepository.recordFailure: the row that is returned, and the table.
unfoldable pub record_failure_row : String → FailureGroup → List AlertRow → AlertRow × List AlertRow
record_failure_row account group rows = upsert account group (find_alert account group rows) rows

unfoldable pub mark_alerted : String → FailureGroup → List AlertRow → List AlertRow
mark_alerted account group rows = change_row account group (λ r. record r { alerted = true }) rows

abbrev pub was_alerted : Option AlertRow → Bool
was_alerted none = false
was_alerted (some r) = r.alerted

-- clear: whether the row was alerted, and the table.
unfoldable pub clear : String → FailureGroup → List AlertRow → Bool × List AlertRow
clear account group rows = (
  was_alerted (find_alert account group rows),
  change_row account group (λ r. record r { streak = 0; alerted = false }) rows,
)

abbrev pub notice : String → FailureGroup → Bool → State → State
notice account group recovered s = record s {
  sent = s.sent ++ (record { account_id = account; group = group; recovered = recovered } ∷ []);
}

-- Which calls of the store and of the stream throw: a success makes them once for each group.
pub record Faults : Type 0 where
  pub record_throws : Bool
  pub mark_throws : Bool
  pub clear_throws : FailureGroup → Bool
  pub stream_throws : FailureGroup → Bool

abbrev pub enqueue : Bool → String → FailureGroup → Bool → State → State
enqueue throws account group recovered s = if throws then s else notice account group recovered s

abbrev pub group_of : FailureCategory → FailureGroup
group_of c = if is_connection c then connection else scrape

module _ (threshold : ℕ) where
  -- `if (streak >= this.threshold && !alerted)`
  unfoldable pub alert_if_due : Faults → String → FailureGroup → AlertRow → State → State
  unfolding mark_alerted
  alert_if_due x account group r s =
      if leb threshold r.streak && not r.alerted
      then if x.mark_throws
        then s
        else enqueue (x.stream_throws group) account group false
            (record s { rows = mark_alerted account group s.rows })
      else s

  -- recordFailure
  unfoldable pub record_failure : Faults → String → FailureCategory → State → State
  unfolding alert_if_due record_failure_row
  record_failure x account category s =
      let (r, rows) = record_failure_row account (group_of category) s.rows in
      if x.record_throws
      then s
      else alert_if_due x account (group_of category) r (record s { rows = rows })

  unfoldable pub recover : Faults → String → FailureGroup → State → State
  unfolding clear
  recover x account group s =
      let (was, rows) = clear account group s.rows in
      if x.clear_throws group
      then s
      else if was
      then enqueue (x.stream_throws group) account group true (record s { rows = rows })
      else record s { rows = rows }

  -- recordSuccess: the loop over the two groups.
  unfoldable pub record_success : Faults → String → State → State
  unfolding recover
  record_success x account s = recover x account scrape (recover x account connection s)

pub data Outcome : Type 0 where
  failure : Faults → String → FailureCategory → Outcome
  success : Faults → String → Outcome

-- One scrape's outcome, and scrapes one after another.
unfoldable pub outcome : ℕ → Outcome → State → State
unfolding record_failure record_success
outcome threshold (failure x account category) s = record_failure threshold x account category s
outcome threshold (success x account) s = record_success threshold x account s

unfoldable pub outcomes : ℕ → List Outcome → State → State
unfolding outcome
outcomes threshold [] s = s
outcomes threshold (o ∷ os) s = outcomes threshold os (outcome threshold o s)
