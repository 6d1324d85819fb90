-- ===== src/Banking/Notify/Once.antt =====
-- A movement arrives once, but for the sends that arrived and threw.
use reconbanker.Common.{
  ℕ, ◌+◌, suc, ◌≤◌, ◌≡◌, refl, ◌∙◌, subst, Bool, true, false, not, ◌&&◌, List, [], ◌∷◌, Option,
  none, some, String, arith, ◌=s◌, =s_iff, if◌then◌else◌, any, count, Error,
}
use reconbanker.Banking.Notify.{
  MovementRow, NotifyConfig, Delivery, Call, Notified, find_movement, claim_notification,
  claim_and_send, after_send, notify_named, notify_found, notify_movement, notify_all, non_empty,
  is_passthrough, delivery, quiet, is_unconfirmed, is_thrown, Send, send_logged,
}

-- A row of the transaction can still be claimed.
abbrev is_open : String → List MovementRow → Bool
is_open id rows = any (λ r. (r.id =s id) && not r.is_notified) rows

claimed-is_open :
    (id : String) (rows : List MovementRow) → is_open id (claim_notification id rows).0 ≡ false
unfolding claim_notification
claimed-is_open id [] = refl
claimed-is_open id (x ∷ rows) = ground (arith, claimed-is_open id rows)

-- An arrival whose sender returned leaves nothing to claim; with nothing to claim nothing is sent and
-- nothing changes.
record IsOnce (id : String) (rows : List MovementRow) (x : Notified) : Type 0 where
  closes : x.has_arrived ≡ true → is_unconfirmed x ≡ false → is_open id x.rows ≡ false
  stays : is_open id rows ≡ false → (x.has_arrived ≡ false) × (is_open id x.rows ≡ false)

quiet-IsOnce : (id : String) (rows : List MovementRow) → IsOnce id rows (quiet rows)
quiet-IsOnce id rows = record { closes = λ h u. cc; stays = λ h. (refl, h) }

not_both : (b : Bool) → b ≡ true → ¬ (b ≡ false)
not_both true e h = cc
not_both false e h = cc

claim-is_open :
    (id : String) (rows : List MovementRow) → (claim_notification id rows).1 ≡ is_open id rows
unfolding claim_notification
claim-is_open id rows = refl

claim-IsOnce :
    (x : Send) (silent : Bool) (d : Delivery) (id : String) (rows : List MovementRow)
    → IsOnce id rows (claim_and_send x silent d id rows)
unfolding claim_and_send
claim-IsOnce x silent d id rows =
    go (claim_notification id rows).1 refl silent (send_logged x) x.arrives
  where
    rows' : List MovementRow
    rows' = (claim_notification id rows).0

    go :
        (b : Bool)
        → (claim_notification id rows).1 ≡ b
        → (s : Bool) (t : Option Error) (a : Bool)
        → IsOnce id rows
            (if b then (if s then quiet rows' else after_send t a d id rows') else quiet rows)
    go false e s t a = quiet-IsOnce id rows
    go true e true t a = record { closes = λ h u. cc; stays = λ h. (refl, claimed-is_open id rows) }
    go true e false none a = record {
      closes = λ h u. claimed-is_open id rows;
      stays = λ h. absurd (not_both _ e (claim-is_open id rows ∙ h));
    }
    go true e false (some err) a = record {
      closes = λ h u. ground (arith, h, u);
      stays = λ h. absurd (not_both _ e (claim-is_open id rows ∙ h));
    }

find_movement-id :
    (id : String) (rows : List MovementRow) (row : MovementRow)
    → find_movement id rows ≡ some row
    → row.id ≡ id
unfolding find_movement
find_movement-id id [] row h = cc
find_movement-id id (x ∷ rows) row h = ground (arith, =s_iff x.id id, find_movement-id id rows row)

named-IsOnce :
    (call : Call) (c : NotifyConfig) (url name : Option String) (row : MovementRow)
    (rows : List MovementRow)
    → IsOnce row.id rows (notify_named call c url name row rows)
named-IsOnce call c (some url) (some name) row rows =
    claim-IsOnce call.send c.silent_ingestion (delivery c url name row) row.id rows
named-IsOnce call c none name row rows = quiet-IsOnce row.id rows
named-IsOnce call c (some url) none row rows = quiet-IsOnce row.id rows

found-IsOnce :
    (call : Call) (id : String) (rows : List MovementRow) (o : Option MovementRow)
    (c : Option NotifyConfig) (u : Option String)
    → find_movement id rows ≡ o
    → IsOnce id rows (notify_found call o c u rows)
found-IsOnce call id rows none c u h = quiet-IsOnce id rows
found-IsOnce call id rows (some row) none u h = quiet-IsOnce id rows
found-IsOnce call id rows (some row) (some c) none h = quiet-IsOnce id rows
found-IsOnce call id rows (some row) (some c) (some user) h = either (is_passthrough call.mode) (
    subst
      (λ i.
        IsOnce i rows
          (notify_named call c (non_empty c.webhook_url) (non_empty row.sender_name) row rows))
      (find_movement-id id rows row h)
      (named-IsOnce call c (non_empty c.webhook_url) (non_empty row.sender_name) row rows))
  where
    either :
        (b : Bool) {x : Notified} → IsOnce id rows x → IsOnce id rows (if b then x else quiet rows)
    either true q = q
    either false q = quiet-IsOnce id rows

call-IsOnce :
    (call : Call) (id : String) (rows : List MovementRow)
    → IsOnce id rows (notify_movement call id rows)
unfolding notify_movement
call-IsOnce call id rows =
    found-IsOnce call id rows (find_movement id rows) call.config call.account_user refl

closed-count :
    (calls : List Call) (id : String) (rows : List MovementRow)
    → is_open id rows ≡ false
    → count (λ x. x.has_arrived) (notify_all calls id rows) ≡ 0
unfolding notify_all
closed-count [] id rows h = refl
closed-count (call ∷ calls) id rows h =
    let (n, k) = (call-IsOnce call id rows).stays h in rw n (closed-count calls id _ k)

-- One call more, before calls of which `n` arrive, `k` of them without the sender's return.
count-step :
    (arrived : Bool) (thrown : Option Error) (n k : ℕ)
    → (arrived ≡ true → (arrived && is_thrown thrown) ≡ false → n ≡ 0)
    → n ≤ 1 + k
    → (if arrived then suc n else n) ≤ 1 + (if arrived && is_thrown thrown then suc k else k)
count-step true none n k h l = omega (arith, h refl refl)
count-step true (some e) n k h l = omega arith
count-step false thrown n k h l = l

-- Over any calls for one transaction one after another, whatever the configurations are and whatever
-- the sender and its log throw, the webhook arrives at most once more than the sender threw after it
-- had arrived.
pub notify_all-once :
    (calls : List Call) (id : String) (rows : List MovementRow)
    → count (λ x. x.has_arrived) (notify_all calls id rows)
      ≤ 1 + count is_unconfirmed (notify_all calls id rows)
unfolding notify_all
notify_all-once [] id rows = omega arith
notify_all-once (call ∷ calls) id rows =
    let x = notify_movement call id rows in
    let once = call-IsOnce call id rows in
    count-step x.has_arrived x.failure _ _ (λ e u. closed-count calls id x.rows (once.closes e u))
      (notify_all-once calls id x.rows)
