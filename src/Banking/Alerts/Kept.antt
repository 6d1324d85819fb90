-- ===== src/Banking/Alerts/Kept.antt =====
-- contexts/banking/infrastructure/RealtimeScrapeFailureNotifier.ts: what one call does to the notices
-- of a key and to its row.
use reconbanker.Common.{
  ℕ, ◌+◌, ◌≡◌, sym, ap, ◌∙◌, Bool, true, false, not, ◌&&◌, List, some, String, leb, if◌then◌else◌,
  count, count-snoc, arith, Bool-cases, inl, inr,
}
use reconbanker.Banking.Failure.{FailureCategory}
use reconbanker.Banking.Alerts.{
  FailureGroup, AlertRow, Notice, State, find_alert, record_failure_row, mark_alerted, was_alerted,
  clear, notice, Faults, group_of, alert_if_due, record_failure, recover,
}
use reconbanker.Banking.Alerts.Rows.{
  same, is_alerted, same_refl, same-eq, and_false, record_failure_row-found,
  record_failure_row-other, mark_alerted-found, mark_alerted-other, clear-other, clear-closed,
}

-- The notices of a failure, and of a recovery, of an account's group.
unfoldable pub is_failed : String → FailureGroup → Notice → Bool
unfolding same
is_failed account group n = same account group n.account_id n.group && not n.recovered

unfoldable pub is_recovered : String → FailureGroup → Notice → Bool
unfolding same
is_recovered account group n = same account group n.account_id n.group && n.recovered

-- The alert of a key is open when its row is alerted.
pub record IsBalanced (a : String) (g : FailureGroup) (s : State) : Type 0 where
  pub balance :
      count (is_failed a g) s.sent
      ≡ count (is_recovered a g) s.sent + (if is_alerted a g s.rows then 1 else 0)

-- A call that leaves the stream and the alert of a key.
rows-IsBalanced :
    (a : String) (g : FailureGroup) (s : State) (rows : List AlertRow)
    → is_alerted a g rows ≡ is_alerted a g s.rows
    → IsBalanced a g s
    → IsBalanced a g (record s { rows = rows })
rows-IsBalanced a g s rows e w = record { balance = rw e w.balance }

other-IsBalanced :
    (a : String) (g : FailureGroup) (b : String) (h : FailureGroup) (recovered : Bool) (s : State)
    → same a g b h ≡ false
    → IsBalanced a g s
    → IsBalanced a g (notice b h recovered s)
unfolding is_failed is_recovered
other-IsBalanced a g b h recovered s other w =
    let n : Notice = record { account_id = b; group = h; recovered = recovered } in
    record {
      balance =
          rw (count-snoc (is_failed a g) s.sent n, count-snoc (is_recovered a g) s.sent n, other)
            w.balance;
    }

failed-IsBalanced :
    (a : String) (g : FailureGroup) (s : State) (rows : List AlertRow)
    → is_alerted a g s.rows ≡ false
    → is_alerted a g rows ≡ true
    → IsBalanced a g s
    → IsBalanced a g (notice a g false (record s { rows = rows }))
unfolding is_failed is_recovered
failed-IsBalanced a g s rows before after w =
    let n : Notice = record { account_id = a; group = g; recovered = false } in
    record {
      balance =
          rw
            (
              count-snoc (is_failed a g) s.sent n,
              count-snoc (is_recovered a g) s.sent n,
              same_refl a g,
              after,
            )
            (ground (arith, w.balance, before));
    }

recovered-IsBalanced :
    (a : String) (g : FailureGroup) (s : State) (rows : List AlertRow)
    → is_alerted a g s.rows ≡ true
    → is_alerted a g rows ≡ false
    → IsBalanced a g s
    → IsBalanced a g (notice a g true (record s { rows = rows }))
unfolding is_failed is_recovered
recovered-IsBalanced a g s rows before after w =
    let n : Notice = record { account_id = a; group = g; recovered = true } in
    record {
      balance =
          rw
            (
              count-snoc (is_failed a g) s.sent n,
              count-snoc (is_recovered a g) s.sent n,
              same_refl a g,
              after,
            )
            (ground (arith, w.balance, before));
    }

either-IsBalanced :
    (a : String) (g : FailureGroup) (test : Bool) (s s' : State)
    → IsBalanced a g s
    → IsBalanced a g s'
    → IsBalanced a g (if test then s else s')
either-IsBalanced a g true s s' w w' = w
either-IsBalanced a g false s s' w w' = w'

module _ (threshold : ℕ) (a : String) (g : FailureGroup) where
  alert_if_due-other :
      (x : Faults) (b : String) (h : FailureGroup) (r : AlertRow) (s : State)
      → x.stream_throws h ≡ false
      → same a g b h ≡ false
      → IsBalanced a g s
      → IsBalanced a g (alert_if_due threshold x b h r s)
  unfolding alert_if_due
  alert_if_due-other x b h r s working other w =
      let marked : State = record s { rows = mark_alerted b h s.rows } in
      let stays =
        rows-IsBalanced a g s (mark_alerted b h s.rows) (mark_alerted-other a g b h s.rows other)
          w in
      rw working (
        either-IsBalanced a g (leb threshold r.streak && not r.alerted) _ s
          (either-IsBalanced a g x.mark_throws s _ w
            (other-IsBalanced a g b h false marked other stays))
          w)

  alert_if_due-same :
      (x : Faults) (r : AlertRow) (s : State)
      → x.stream_throws g ≡ false
      → find_alert a g s.rows ≡ some r
      → IsBalanced a g s
      → IsBalanced a g (alert_if_due threshold x a g r s)
  unfolding alert_if_due is_alerted
  alert_if_due-same x r s working found w = elim (Bool-cases r.alerted) [
    | inl e ↦ rw (e, and_false (leb threshold r.streak)) w
    | inr e ↦
        rw (working, e)
          (either-IsBalanced a g (leb threshold r.streak && true) _ s
            (either-IsBalanced a g x.mark_throws s _ w (
              failed-IsBalanced a g s (mark_alerted a g s.rows) (ap was_alerted found ∙ e)
                (mark_alerted-found a g r s.rows found) w))
            w)
  ]

  pub record_failure-IsBalanced :
      (x : Faults) (b : String) (c : FailureCategory) (s : State)
      → x.stream_throws (group_of c) ≡ false
      → IsBalanced a g s
      → IsBalanced a g (record_failure threshold x b c s)
  unfolding record_failure is_alerted
  record_failure-IsBalanced x b c s working w =
      let h = group_of c in
      let counted : State = record s { rows = (record_failure_row b h s.rows).1 } in
      either-IsBalanced a g x.record_throws s _ w (elim (Bool-cases (same a g b h)) [
        | inl e ↦
            let (to_a, to_g) = same-eq a g b h e in
            let (found, as_before) = record_failure_row-found a g s.rows in
            rw (to_a, to_g)
              (alert_if_due-same x (record_failure_row a g s.rows).0 _
                (sym (ap x.stream_throws to_g) ∙ working) found
                (rows-IsBalanced a g s (record_failure_row a g s.rows).1
                  (ap was_alerted found ∙ as_before) w))
        | inr e ↦ alert_if_due-other x b h (record_failure_row b h s.rows).0 counted working e (
            rows-IsBalanced a g s (record_failure_row b h s.rows).1
              (ap was_alerted (record_failure_row-other a g b h s.rows e)) w)
      ])

  recover-other :
      (x : Faults) (b : String) (h : FailureGroup) (s : State)
      → x.stream_throws h ≡ false
      → same a g b h ≡ false
      → IsBalanced a g s
      → IsBalanced a g (recover threshold x b h s)
  unfolding recover
  recover-other x b h s working other w =
      let rows = (clear b h s.rows).1 in
      let stays = rows-IsBalanced a g s rows (clear-other a g b h s.rows other) w in
      let cleared : State = record s { rows = rows } in
      rw working (
        either-IsBalanced a g (x.clear_throws h) s _ w (
          either-IsBalanced a g (clear b h s.rows).0 _ cleared
            (other-IsBalanced a g b h true cleared other stays) stays))

  recover-same :
      (x : Faults) (s : State)
      → x.stream_throws g ≡ false
      → IsBalanced a g s
      → IsBalanced a g (recover threshold x a g s)
  unfolding recover
  recover-same x s working w =
      let (was, closed) = clear-closed a g s.rows in
      let rows = (clear a g s.rows).1 in
      either-IsBalanced a g (x.clear_throws g) s _ w
        (elim (Bool-cases (was_alerted (find_alert a g s.rows))) [
          | inl e ↦ rw (working, e) (recovered-IsBalanced a g s rows (sym was ∙ e) closed w)
          | inr e ↦ rw e (rows-IsBalanced a g s rows (closed ∙ sym (sym was ∙ e)) w)
        ])

  pub recover-IsBalanced :
      (x : Faults) (b : String) (h : FailureGroup) (s : State)
      → x.stream_throws h ≡ false
      → IsBalanced a g s
      → IsBalanced a g (recover threshold x b h s)
  recover-IsBalanced x b h s working w = elim (Bool-cases (same a g b h)) [
    | inl e ↦
        let (to_a, to_g) = same-eq a g b h e in
        rw (to_a, to_g) (recover-same x s (sym (ap x.stream_throws to_g) ∙ working) w)
    | inr e ↦ recover-other x b h s working e w
  ]
