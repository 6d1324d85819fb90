-- ===== src/Conciliation/Tables/Laws.antt =====
-- Which requests are matched and which match rows stand, after each statement.
use reconbanker.Common.{
  ◌≡◌, refl, subst, inl, inr, Bool, true, false, List, [], ◌∷◌, ◌++◌, map, Option, none, some,
  String, arith, ◌=s◌, =s_iff, if◌then◌else◌, any, ok, Bool-cases,
}
use reconbanker.Conciliation.Request.{ConciliationStatus, is_terminal, ConciliationRequest}
use reconbanker.Conciliation.Request.Lifecycle.{is_matched_status}
use reconbanker.Conciliation.Tables.{
  find_by_id, to_aggregate, RequestRow, MatchRow, BankTxRow, to_row, find_row, merge_row,
  save_request, create_if_absent, cancel_missing, save_match, mark_excluded, is_excluded,
  find_bank_tx,
}

abbrev pub matched? : Option RequestRow → Bool
matched? none = false
matched? (some r) = is_matched_status r.status

-- The row of the request with this id says `matched`.
abbrev pub matched_at : String → List RequestRow → Bool
matched_at id rows = matched? (find_row id rows)

-- The request has a match row; the transaction has one.
abbrev pub has_match : String → List MatchRow → Bool
has_match id rows = any (λ m. m.request_id =s id) rows

abbrev pub is_claimed : String → List MatchRow → Bool
is_claimed tx rows = any (λ m. m.bank_transaction_id =s tx) rows

merge_skip :
    (j : String) (r : ConciliationRequest) (rows : List RequestRow)
    → (r.id =s j) ≡ false
    → matched_at j (map (merge_row r) rows) ≡ matched_at j rows
merge_skip j r [] h = refl
merge_skip j r (x ∷ rows) h =
    ground (arith, =s_iff x.id r.id, =s_iff r.id j, =s_iff x.id j, merge_skip j r rows h)

merge_hit :
    (r : ConciliationRequest) (rows : List RequestRow)
    → any (λ row. row.id =s r.id) rows ≡ true
    → matched_at r.id (map (merge_row r) rows) ≡ is_matched_status r.status
merge_hit r [] h = cc
merge_hit r (x ∷ rows) h = ground (arith, =s_iff x.id r.id, merge_hit r rows)

merge-matched_at :
    (j : String) (r : ConciliationRequest) (rows : List RequestRow)
    → any (λ row. row.id =s r.id) rows ≡ true
    → matched_at j (map (merge_row r) rows)
      ≡ (if r.id =s j then is_matched_status r.status else matched_at j rows)
merge-matched_at j r rows h = elim (Bool-cases (r.id =s j)) [
  | inl e ↦ rw e (
      subst (λ k. matched_at k (map (merge_row r) rows) ≡ is_matched_status r.status)
        ((=s_iff r.id j).0 e) (merge_hit r rows h))
  | inr e ↦ rw e (merge_skip j r rows e)
]

append-matched_at :
    (j : String) (x : RequestRow) (rows : List RequestRow)
    → any (λ row. row.id =s x.id) rows ≡ false
    → matched_at j (rows ++ (x ∷ []))
      ≡ (if x.id =s j then is_matched_status x.status else matched_at j rows)
append-matched_at j x [] h = ground arith
append-matched_at j x (y ∷ rows) h =
    ground (arith, =s_iff x.id j, =s_iff y.id j, =s_iff y.id x.id, append-matched_at j x rows)

-- Saving a request makes its status that of the row, and leaves the other rows.
pub save_request-matched_at :
    (j : String) (r : ConciliationRequest) (rows rows' : List RequestRow)
    → save_request r rows ≡ ok rows'
    → matched_at j rows' ≡ (if r.id =s j then is_matched_status r.status else matched_at j rows)
unfolding save_request
save_request-matched_at j r rows rows' h = elim (Bool-cases (any (λ row. row.id =s r.id) rows)) [
  | inl e ↦ ground (arith, merge-matched_at j r rows e)
  | inr e ↦ ground (arith, append-matched_at j (to_row r) rows e)
]

-- A row that is not found is not matched, so an insert of a request that is not matched changes no
-- request's match.
matched_at-absent :
    (j : String) (rows : List RequestRow)
    → any (λ row. row.id =s j) rows ≡ false
    → matched_at j rows ≡ false
matched_at-absent j [] h = refl
matched_at-absent j (x ∷ rows) h = ground (arith, matched_at-absent j rows)

pub create_if_absent-matched_at :
    (j : String) (r : ConciliationRequest) (rows rows' : List RequestRow) (b : Bool)
    → is_matched_status r.status ≡ false
    → create_if_absent r rows ≡ ok (rows', b)
    → matched_at j rows' ≡ matched_at j rows
unfolding create_if_absent to_row
create_if_absent-matched_at j r rows rows' b n h =
    elim (Bool-cases (any (λ row. row.id =s r.id) rows)) [
      | inl e ↦ ground arith
      | inr e ↦ elim (Bool-cases (r.id =s j)) [
        | inl f ↦ ground (
          arith,
          append-matched_at j (to_row r) rows e,
          matched_at-absent r.id rows e,
          (=s_iff r.id j).0 f,
        )
        | inr f ↦ ground (arith, append-matched_at j (to_row r) rows e)
      ]
    ]

pub cancel_missing-matched_at :
    (j account : String) (present : List String) (rows : List RequestRow)
    → matched_at j (cancel_missing account present rows).0 ≡ matched_at j rows
unfolding cancel_missing
cancel_missing-matched_at j account present [] = refl
cancel_missing-matched_at j account present (x ∷ rows) =
    ground (arith, cancel_missing-matched_at j account present rows)

-- An accepted match row is the last one, and neither its request nor its transaction had one.
pub save_match-fresh :
    (m : MatchRow) (rows rows' : List MatchRow)
    → save_match m rows ≡ ok rows'
    → (rows' ≡ rows ++ (m ∷ []))
      × (has_match m.request_id rows ≡ false)
      × (is_claimed m.bank_transaction_id rows ≡ false)
unfolding save_match
save_match-fresh m rows rows' h = ground arith

pub mark_excluded-same :
    (tx : String) (rows : List BankTxRow)
    → any (λ r. r.transaction.id =s tx) rows ≡ true
    → is_excluded tx (mark_excluded tx rows) ≡ true
unfolding mark_excluded is_excluded find_bank_tx
mark_excluded-same tx [] h = cc
mark_excluded-same tx (x ∷ rows) h = ground (arith, mark_excluded-same tx rows)

-- The status of the row with this id.
abbrev status? : Option RequestRow → Option ConciliationStatus
status? none = none
status? (some r) = some r.status

abbrev pub status_at : String → List RequestRow → Option ConciliationStatus
status_at id rows = status? (find_row id rows)

merge-status_at :
    (j : String) (r : ConciliationRequest) (rows : List RequestRow)
    → any (λ row. row.id =s r.id) rows ≡ true
    → status_at j (map (merge_row r) rows) ≡ (if r.id =s j then some r.status else status_at j rows)
merge-status_at j r rows h = elim (Bool-cases (r.id =s j)) [
  | inl e ↦ rw e (
      subst (λ k. status_at k (map (merge_row r) rows) ≡ some r.status) ((=s_iff r.id j).0 e)
        (hit rows h))
  | inr e ↦ rw e (skip rows e)
]
  where
    hit :
        (rows : List RequestRow)
        → any (λ row. row.id =s r.id) rows ≡ true
        → status_at r.id (map (merge_row r) rows) ≡ some r.status
    hit [] h = cc
    hit (x ∷ rows) h = ground (arith, =s_iff x.id r.id, hit rows)

    skip :
        (rows : List RequestRow)
        → (r.id =s j) ≡ false
        → status_at j (map (merge_row r) rows) ≡ status_at j rows
    skip [] h = refl
    skip (x ∷ rows) h = ground (arith, =s_iff x.id r.id, =s_iff r.id j, =s_iff x.id j, skip rows h)

-- Saving a request whose row stands makes its status that of the row, and leaves the others.
pub save_request-status_at :
    (j : String) (r : ConciliationRequest) (rows rows' : List RequestRow)
    → any (λ row. row.id =s r.id) rows ≡ true
    → save_request r rows ≡ ok rows'
    → status_at j rows' ≡ (if r.id =s j then some r.status else status_at j rows)
unfolding save_request
save_request-status_at j r rows rows' e h = ground (arith, merge-status_at j r rows e)

pub save_request-ok :
    (r : ConciliationRequest) (rows : List RequestRow)
    → any (λ row. row.id =s r.id) rows ≡ true
    → (rows' : List RequestRow) × (save_request r rows ≡ ok rows')
unfolding save_request
save_request-ok r rows h = (map (merge_row r) rows, rw h)

pub find_by_id-any :
    (id : String) (rows : List RequestRow) (r : ConciliationRequest)
    → find_by_id id rows ≡ some r
    → (any (λ row. row.id =s r.id) rows ≡ true) × (status_at id rows ≡ some r.status)
unfolding find_by_id to_aggregate
find_by_id-any id [] r h = cc
find_by_id-any id (x ∷ rows) r h =
    ground (arith, =s_iff x.id id, =s_iff x.id r.id, =s_iff r.id id, find_by_id-any id rows r)

pub find_by_id-none :
    (id : String) (rows : List RequestRow) → find_by_id id rows ≡ none → status_at id rows ≡ none
unfolding find_by_id
find_by_id-none id rows h = ground arith

-- Saving a request that is not matched, over a row that is not, changes no match.
pub keep_matched_at :
    (j : String) (r : ConciliationRequest) (rows rows' : List RequestRow)
    → is_matched_status r.status ≡ false
    → matched_at r.id rows ≡ false
    → save_request r rows ≡ ok rows'
    → matched_at j rows' ≡ matched_at j rows
keep_matched_at j r rows rows' n f h = elim (Bool-cases (r.id =s j)) [
  | inl e ↦ ground (arith, save_request-matched_at j r rows rows' h, (=s_iff r.id j).0 e)
  | inr e ↦ ground (arith, save_request-matched_at j r rows rows' h)
]

-- A request that was found has its row's id and status, and no events.
pub find_by_id-row :
    (id : String) (rows : List RequestRow) (r : ConciliationRequest)
    → find_by_id id rows ≡ some r
    → (r.id ≡ id) × (r.domain_events ≡ []) × (matched_at id rows ≡ is_matched_status r.status)
unfolding find_by_id to_aggregate
find_by_id-row id [] r h = cc
find_by_id-row id (x ∷ rows) r h = ground (arith, =s_iff x.id id, find_by_id-row id rows r)

pub not_matched_of_open :
    (r : ConciliationRequest) → is_terminal r ≡ false → is_matched_status r.status ≡ false
not_matched_of_open r h = ground arith
