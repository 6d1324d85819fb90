-- ===== src/Banking/Alerts/Rows.antt =====
-- contexts/banking/infrastructure/ScrapeFailureAlertRepository.ts: which row a statement changes,
-- and what is found after it.
use reconbanker.Common.{
  ◌≡◌, refl, ap, ◌∙◌, Bool, true, false, ◌&&◌, List, [], ◌∷◌, ◌++◌, none, some, String, ◌=s◌,
  =s_refl, =s_iff, if◌then◌else◌, Bool-cases, Option-cases, inl, inr,
}
use reconbanker.Banking.Alerts.{
  FailureGroup, connection, scrape, group_eq, AlertRow, is_key, find_alert, change_row, first_row,
  raise, record_failure_row, mark_alerted, was_alerted, clear,
}

-- The key of a row or of a notice is the one asked for.
unfoldable pub same : String → FailureGroup → String → FailureGroup → Bool
same account group account' group' = (account' =s account) && group_eq group' group

unfoldable pub is_alerted : String → FailureGroup → List AlertRow → Bool
is_alerted account group rows = was_alerted (find_alert account group rows)

group_eq_refl : (g : FailureGroup) → group_eq g g ≡ true
group_eq_refl connection = refl
group_eq_refl scrape = refl

group_eq-eq : (g h : FailureGroup) → group_eq g h ≡ true → g ≡ h
group_eq-eq connection connection e = refl
group_eq-eq connection scrape e = cc
group_eq-eq scrape connection e = cc
group_eq-eq scrape scrape e = refl

pub same_refl : (a : String) (g : FailureGroup) → same a g a g ≡ true
unfolding same
same_refl a g = rw (=s_refl a) (group_eq_refl g)

and-true : (p q : Bool) → (p && q) ≡ true → (p ≡ true) × (q ≡ true)
and-true true q h = (refl, h)
and-true false q h = cc

pub and_false : (p : Bool) → (p && false) ≡ false
and_false true = refl
and_false false = refl

pub same-eq :
    (a : String) (g : FailureGroup) (b : String) (h : FailureGroup)
    → same a g b h ≡ true
    → (b ≡ a) × (h ≡ g)
unfolding same
same-eq a g b h e =
    let (l, r) = and-true (b =s a) (group_eq h g) e in ((=s_iff b a).0 l, group_eq-eq h g r)

-- A row of another key is not found.
is_key-other :
    (a : String) (g : FailureGroup) (b : String) (h : FailureGroup) (r : AlertRow)
    → same a g b h ≡ false
    → is_key b h r ≡ true
    → is_key a g r ≡ false
unfolding same
is_key-other a g b h r other hit =
    let (l, m) = same-eq b h r.account_id r.failure_group hit in
    ap (λ x. (x =s a) && group_eq r.failure_group g) l
    ∙ ap (λ x. (b =s a) && group_eq x g) m
    ∙ other

-- A change of a row that keeps its key.
record IsChange (f : AlertRow → AlertRow) : Type 0 where
  same_account : (r : AlertRow) → (f r).account_id ≡ r.account_id
  same_group : (r : AlertRow) → (f r).failure_group ≡ r.failure_group

is_key-change :
    (a : String) (g : FailureGroup) (f : AlertRow → AlertRow) (r : AlertRow)
    → IsChange f
    → is_key a g (f r) ≡ is_key a g r
is_key-change a g f r c =
    ap (λ x. (x =s a) && group_eq (f r).failure_group g) (c.same_account r)
    ∙ ap (λ x. (r.account_id =s a) && group_eq x g) (c.same_group r)

find_alert-other :
    (a : String) (g : FailureGroup) (b : String) (h : FailureGroup) (f : AlertRow → AlertRow)
    (rows : List AlertRow)
    → IsChange f
    → same a g b h ≡ false
    → find_alert a g (change_row b h f rows) ≡ find_alert a g rows
find_alert-other a g b h f [] c other = refl
find_alert-other a g b h f (r ∷ rows) c other = elim (Bool-cases (is_key b h r)) [
  | inl e ↦
      let missed = is_key-other a g b h r other e in
      rw (e, is_key-change a g f r c, missed) (find_alert-other a g b h f rows c other)
  | inr e ↦
      rw e (ap (λ o. if is_key a g r then some r else o) (find_alert-other a g b h f rows c other))
]

find_alert-changed :
    (a : String) (g : FailureGroup) (f : AlertRow → AlertRow) (r : AlertRow) (rows : List AlertRow)
    → IsChange f
    → find_alert a g rows ≡ some r
    → find_alert a g (change_row a g f rows) ≡ some (f r)
find_alert-changed a g f r [] c found = cc
find_alert-changed a g f r (x ∷ rows) c found = elim (Bool-cases (is_key a g x)) [
  | inl e ↦
      let equal : x ≡ r = cc (rw e at found) in
      rw (e, is_key-change a g f x c, e) (ap (λ y. some (f y)) equal)
  | inr e ↦ rw (e, e) (find_alert-changed a g f r rows c (rw e at found))
]

find_alert-snoc :
    (a : String) (g : FailureGroup) (r : AlertRow) (rows : List AlertRow)
    → find_alert a g rows ≡ none
    → is_key a g r ≡ true
    → find_alert a g (rows ++ (r ∷ [])) ≡ some r
find_alert-snoc a g r [] h e = rw e refl
find_alert-snoc a g r (x ∷ rows) h e = elim (Bool-cases (is_key a g x)) [
  | inl k ↦ cc (rw k at h)
  | inr k ↦ rw k (find_alert-snoc a g r rows (rw k at h) e)
]

find_alert-snoc_other :
    (a : String) (g : FailureGroup) (r : AlertRow) (rows : List AlertRow)
    → is_key a g r ≡ false
    → find_alert a g (rows ++ (r ∷ [])) ≡ find_alert a g rows
find_alert-snoc_other a g r [] e = rw e refl
find_alert-snoc_other a g r (x ∷ rows) e = elim (Bool-cases (is_key a g x)) [
  | inl k ↦ rw k refl
  | inr k ↦ rw k (find_alert-snoc_other a g r rows e)
]

raise-IsChange : IsChange raise
raise-IsChange = record { same_account = λ r. refl; same_group = λ r. refl }

mark-IsChange : IsChange (λ r. record r { alerted = true })
mark-IsChange = record { same_account = λ r. refl; same_group = λ r. refl }

clear-IsChange : IsChange (λ r. record r { streak = 0; alerted = false })
clear-IsChange = record { same_account = λ r. refl; same_group = λ r. refl }

-- The row that counts a failure is the one found after it, alerted as it was before.
pub record_failure_row-found :
    (a : String) (g : FailureGroup) (rows : List AlertRow)
    → (find_alert a g (record_failure_row a g rows).1 ≡ some (record_failure_row a g rows).0)
      × ((record_failure_row a g rows).0.alerted ≡ is_alerted a g rows)
unfolding record_failure_row is_alerted
record_failure_row-found a g rows = elim (Option-cases (find_alert a g rows)) [
  | inl e ↦
      rw e (find_alert-snoc a g (first_row a g) rows e (rw (=s_refl a) (group_eq_refl g)), refl)
  | inr e ↦ rw e.1 (find_alert-changed a g raise e.0 rows raise-IsChange e.1, refl)
]

pub record_failure_row-other :
    (a : String) (g : FailureGroup) (b : String) (h : FailureGroup) (rows : List AlertRow)
    → same a g b h ≡ false
    → find_alert a g (record_failure_row b h rows).1 ≡ find_alert a g rows
unfolding record_failure_row
record_failure_row-other a g b h rows other = elim (Option-cases (find_alert b h rows)) [
  | inl e ↦ rw e (
      find_alert-snoc_other a g (first_row b h) rows
        (is_key-other a g b h (first_row b h) other (rw (=s_refl b) (group_eq_refl h))))
  | inr e ↦ rw e.1 (find_alert-other a g b h raise rows raise-IsChange other)
]

pub mark_alerted-found :
    (a : String) (g : FailureGroup) (r : AlertRow) (rows : List AlertRow)
    → find_alert a g rows ≡ some r
    → is_alerted a g (mark_alerted a g rows) ≡ true
unfolding mark_alerted is_alerted
mark_alerted-found a g r rows found =
    ap was_alerted
      (find_alert-changed a g (λ x. record x { alerted = true }) r rows mark-IsChange found)

pub mark_alerted-other :
    (a : String) (g : FailureGroup) (b : String) (h : FailureGroup) (rows : List AlertRow)
    → same a g b h ≡ false
    → is_alerted a g (mark_alerted b h rows) ≡ is_alerted a g rows
unfolding mark_alerted is_alerted
mark_alerted-other a g b h rows other =
    ap was_alerted
      (find_alert-other a g b h (λ x. record x { alerted = true }) rows mark-IsChange other)

pub clear-other :
    (a : String) (g : FailureGroup) (b : String) (h : FailureGroup) (rows : List AlertRow)
    → same a g b h ≡ false
    → is_alerted a g (clear b h rows).1 ≡ is_alerted a g rows
unfolding clear is_alerted
clear-other a g b h rows other = ap was_alerted (
    find_alert-other a g b h (λ r. record r { streak = 0; alerted = false }) rows clear-IsChange
      other)

find_alert-none :
    (a : String) (g : FailureGroup) (f : AlertRow → AlertRow) (rows : List AlertRow)
    → find_alert a g rows ≡ none
    → find_alert a g (change_row a g f rows) ≡ none
find_alert-none a g f [] e = refl
find_alert-none a g f (x ∷ rows) e = elim (Bool-cases (is_key a g x)) [
  | inl k ↦ cc (rw k at e)
  | inr k ↦ rw (k, k) (find_alert-none a g f rows (rw k at e))
]

-- clear returns what the row was, and leaves it not alerted.
pub clear-closed :
    (a : String) (g : FailureGroup) (rows : List AlertRow)
    → ((clear a g rows).0 ≡ is_alerted a g rows) × (is_alerted a g (clear a g rows).1 ≡ false)
unfolding clear is_alerted
clear-closed a g rows =
    let f : AlertRow → AlertRow = λ r. record r { streak = 0; alerted = false } in
    (
      refl,
      elim (Option-cases (find_alert a g rows)) [
        | inl e ↦ ap was_alerted (find_alert-none a g f rows e)
        | inr e ↦ ap was_alerted (find_alert-changed a g f e.0 rows clear-IsChange e.1)
      ],
    )
