-- ===== src/Banking/Otp/Served.antt =====
-- contexts/banking/infrastructure/OtpAssistanceCoordinator.ts: a code that comes is returned.
use reconbanker.Common.{
  ℕ, zero, suc, ◌+◌, ◌≤◌, ◌≡◌, refl, ap, subst, ◌∙◌, Bool, true, false, ◌&&◌, List, [], ◌∷◌, ◌++◌,
  map, none, some, String, ◌=s◌, =s_refl, ltb, leb, if◌then◌else◌, length, All, arith, Bool-cases,
  inl, inr,
}
use reconbanker.Conciliation.Candidate.{Text}
use reconbanker.Banking.Otp.{
  AssistanceStatus, AssistanceRow, is_pending, pending_of, find_pending, find_row, bump, Ask,
  opened, open_request, mark_fulfilled, State, Window, Asked, non_empty, resend, fulfill, wait_code,
  request_otp,
}

abbrev pub account_of : Ask → String
account_of ask = ask.account_id

-- The row that the session waits on: the pending one of its account, asked for `n` times.
record IsWaiting (ask : Ask) (id : String) (n : ℕ) (rows : List AssistanceRow) : Type 0 where
  row : AssistanceRow
  by_id : find_row id rows ≡ some row
  by_account : find_pending ask.account_id rows ≡ some row
  attempts : row.attempts ≡ n

bumped : Ask → AssistanceRow → AssistanceRow
bumped ask x = if pending_of ask.account_id x then bump ask.descriptor ask.session_id x else x

bumped-id : (ask : Ask) (x : AssistanceRow) → (bumped ask x).id ≡ x.id
unfolding bumped
bumped-id ask x = ground arith

bumped-pending :
    (ask : Ask) (x : AssistanceRow)
    → pending_of ask.account_id (bumped ask x) ≡ pending_of ask.account_id x
unfolding bumped
bumped-pending ask x = elim (Bool-cases (pending_of ask.account_id x)) [
  | inl e ↦ rw e e
  | inr e ↦ rw e e
]

find_row-bumped :
    (ask : Ask) (id : String) (r : AssistanceRow) (rows : List AssistanceRow)
    → find_row id rows ≡ some r
    → find_row id (map (bumped ask) rows) ≡ some (bumped ask r)
find_row-bumped ask id r [] h = cc
find_row-bumped ask id r (x ∷ rows) h =
    let test = ap (λ y. y =s id) (bumped-id ask x) in
    elim (Bool-cases (x.id =s id)) [
      | inl e ↦
          let same : x ≡ r = cc (rw e at h) in rw (test ∙ e) (ap (λ y. some (bumped ask y)) same)
      | inr e ↦ rw (test ∙ e) (find_row-bumped ask id r rows (rw e at h))
    ]

find_pending-bumped :
    (ask : Ask) (r : AssistanceRow) (rows : List AssistanceRow)
    → find_pending ask.account_id rows ≡ some r
    → (find_pending ask.account_id (map (bumped ask) rows) ≡ some (bumped ask r))
      × (pending_of ask.account_id r ≡ true)
unfolding find_pending
find_pending-bumped ask r [] h = cc
find_pending-bumped ask r (x ∷ rows) h =
    rw (bumped-pending ask x) (elim (Bool-cases (pending_of ask.account_id x)) [
      | inl e ↦
          let same : x ≡ r = cc (rw e at h) in
          (
            rw e (ap (λ y. some (bumped ask y)) same),
            subst (λ y. pending_of ask.account_id y ≡ true) same e,
          )
      | inr e ↦ rw e (find_pending-bumped ask r rows (rw e at h))
    ])

find_row-snoc :
    (r : AssistanceRow) (rows : List AssistanceRow)
    → find_row r.id rows ≡ none
    → find_row r.id (rows ++ (r ∷ [])) ≡ some r
find_row-snoc r [] h = rw (=s_refl r.id) refl
find_row-snoc r (x ∷ rows) h = ground (arith, find_row-snoc r rows)

pub find_pending-snoc :
    (account : String) (r : AssistanceRow) (rows : List AssistanceRow)
    → find_pending account rows ≡ none
    → pending_of account r ≡ true
    → find_pending account (rows ++ (r ∷ [])) ≡ some r
unfolding find_pending
find_pending-snoc account r [] h e = rw e refl
find_pending-snoc account r (x ∷ rows) h e = ground (arith, find_pending-snoc account r rows)

-- A first request of the account.
open-IsWaiting :
    (ask : Ask) (id : String) (rows : List AssistanceRow)
    → find_pending ask.account_id rows ≡ none
    → find_row id rows ≡ none
    → ((open_request id ask rows).0.id ≡ id) × IsWaiting ask id 1 (open_request id ask rows).1
unfolding open_request
open-IsWaiting ask id rows none_pending fresh = rw none_pending (
  refl,
  record {
    row = opened id ask;
    by_id = find_row-snoc (opened id ask) rows fresh;
    by_account =
        find_pending-snoc ask.account_id (opened id ask) rows none_pending
          (rw (=s_refl ask.account_id) refl);
    attempts = refl;
  },
)

-- Asking again.
again-IsWaiting :
    (ask : Ask) (id new_id : String) (n : ℕ) (rows : List AssistanceRow)
    → IsWaiting ask id n rows
    → IsWaiting ask id (suc n) (open_request new_id ask rows).1
unfolding open_request bumped
again-IsWaiting ask id new_id n rows w =
    let (found, is_pending) = find_pending-bumped ask w.row rows w.by_account in
    rw w.by_account (record {
      row = bumped ask w.row;
      by_id = find_row-bumped ask id w.row rows w.by_id;
      by_account = found;
      attempts = rw is_pending (ground (arith, w.attempts));
    })

-- The resends that are made in `n` windows with no code.
pub spent : ℕ → Bool → ℕ → ℕ → ℕ
spent max_resends can_resend k zero = k
spent max_resends can_resend k (suc n) =
    spent max_resends can_resend (if can_resend && ltb k max_resends then suc k else k) n

-- A window in which the session lives on, and no code comes.
abbrev pub IsSilent : Window → Type 0
IsSilent w = (w.torn_down ≡ false) × (non_empty w.code ≡ none)

fulfilled-row :
    (id : String) (r : AssistanceRow) (rows : List AssistanceRow)
    → find_row id rows ≡ some r
    → is_pending r.status ≡ true
    → find_row id (mark_fulfilled id rows) ≡ some (record r { status = AssistanceStatus.fulfilled })
unfolding mark_fulfilled
fulfilled-row id r [] h e = cc
fulfilled-row id r (x ∷ rows) h e = ground (arith, fulfilled-row id r rows)

-- The code was returned, and the request is fulfilled after it was asked for `n` times.
pub record Serves (id : String) (c : Text) (n : ℕ) (x : Asked) : Type 0 where
  pub returned : x.code ≡ some c
  pub row : AssistanceRow
  pub by_id : find_row id x.state.rows ≡ some row
  pub done : row.status ≡ AssistanceStatus.fulfilled
  pub asked : row.attempts ≡ n

waiting-pending :
    (account : String) (r : AssistanceRow) (rows : List AssistanceRow)
    → find_pending account rows ≡ some r
    → is_pending r.status ≡ true
unfolding find_pending
waiting-pending account r [] h = cc
waiting-pending account r (x ∷ rows) h = ground (arith, waiting-pending account r rows)

module _ (max_resends : ℕ) (can_resend : Bool) (ask : Ask) (id : String) where
  resend-IsWaiting :
      (new_id : String) (k : ℕ) (s : State)
      → IsWaiting ask id (suc k) s.rows
      → ((resend max_resends can_resend ask id new_id k s).0
          ≡ (if can_resend && ltb k max_resends then suc k else k))
        × IsWaiting ask id
            (suc (resend max_resends can_resend ask id new_id k s).0)
            (resend max_resends can_resend ask id new_id k s).1.rows
  unfolding resend
  resend-IsWaiting new_id k s w = elim (Bool-cases (can_resend && ltb k max_resends)) [
    | inl e ↦ rw e (refl, again-IsWaiting ask id new_id (suc k) s.rows w)
    | inr e ↦ rw e (refl, w)
  ]

  fulfill-Serves :
      (c : Text) (n : ℕ) (s : State)
      → IsWaiting ask id n s.rows
      → Serves id c n (fulfill max_resends can_resend ask id c s)
  unfolding fulfill
  fulfill-Serves c n s w = record {
    returned = refl;
    row = record w.row { status = AssistanceStatus.fulfilled };
    by_id =
        fulfilled-row id w.row s.rows w.by_id
          (waiting-pending ask.account_id w.row s.rows w.by_account);
    done = refl;
    asked = w.attempts;
  }

  wait_code-Serves :
      (ws : List Window) (w : Window) (rest : List Window) (c : Text) (k : ℕ) (s : State)
      → All IsSilent ws
      → w.torn_down ≡ false
      → non_empty w.code ≡ some c
      → IsWaiting ask id (suc k) s.rows
      → Serves id c
          (suc (spent max_resends can_resend k (length ws)))
          (wait_code max_resends can_resend ask id (ws ++ (w ∷ rest)) k s)
  unfolding wait_code spent
  wait_code-Serves [] w rest c k s silent alive came waiting =
      rw (came, alive) (fulfill-Serves c (suc k) s waiting)
  wait_code-Serves (v ∷ ws) w rest c k s silent alive came waiting =
      let (count, next) = resend-IsWaiting v.new_id k s waiting in
      let (n, s') = resend max_resends can_resend ask id v.new_id k s in
      rw (silent.0.1, silent.0.0)
        (subst
          (λ j.
            Serves id c (suc (spent max_resends can_resend j (length ws)))
              (wait_code max_resends can_resend ask id (ws ++ (w ∷ rest)) n s'))
          count (wait_code-Serves ws w rest c n s' silent.1 alive came next))

-- The least of two numbers.
abbrev least : ℕ → ℕ → ℕ
least a b = if leb a b then a else b

spent_closed :
    (max_resends : ℕ) (can_resend : Bool) (k n : ℕ)
    → k ≤ max_resends
    → spent max_resends can_resend k n ≡ (if can_resend then least (k + n) max_resends else k)
unfolding spent
spent_closed max_resends true k zero h = ground arith
spent_closed max_resends false k zero h = refl
spent_closed max_resends true k (suc n) h =
    ground (arith, spent_closed max_resends true (suc k) n, spent_closed max_resends true k n)
spent_closed max_resends false k (suc n) h = spent_closed max_resends false k n h

-- Where an account has no pending request and the new id is fresh, the first code that comes is
-- returned however many windows pass before it while the session lives; its request is then
-- fulfilled, and was asked for once and then once for each of those windows, up to the maximum of
-- resends.
pub request_otp-Serves :
    (max_resends : ℕ) (can_resend : Bool) (ask : Ask) (id : String) (ws : List Window) (w : Window)
    (rest : List Window) (c : Text) (s : State)
    → find_pending ask.account_id s.rows ≡ none
    → find_row id s.rows ≡ none
    → All IsSilent ws
    → w.torn_down ≡ false
    → non_empty w.code ≡ some c
    → Serves id c
        (suc (if can_resend then least (length ws) max_resends else 0))
        (request_otp max_resends can_resend ask id (ws ++ (w ∷ rest)) s)
unfolding request_otp
request_otp-Serves max_resends can_resend ask id ws w rest c s no_pending fresh silent alive came =
    let (same, waiting) = open-IsWaiting ask id s.rows no_pending fresh in
    let resends = spent_closed max_resends can_resend 0 (length ws) (omega arith) in
    let zero_add : 0 + length ws ≡ length ws = omega arith in
    rw (same, ← zero_add, ← resends)
      (wait_code-Serves max_resends can_resend ask id ws w rest c 0 _ silent alive came waiting)
