-- ===== src/Conciliation/Engine.antt =====
-- contexts/conciliation/domain/ConciliationEngine.ts, with its two rules and MatchResult.ts.
pub mod Sort
pub mod Outcome
use reconbanker.Common.{
  ℕ, ◌+◌, ◌-◌, ◌*◌, Bool, ◌&&◌, List, [], ◌∷◌, map, Option, none, some, String, ltb, leb, ◌==◌,
  ◌=s◌, if◌then◌else◌, filter, length, num_eq,
}
use reconbanker.Conciliation.Candidate.{Text, CandidateTransaction, RequestData}
use reconbanker.Conciliation.Fuzzy.{
  Score, score_lt, is_positive, get_score, apply_fuzzy_sender_heuristic,
}

pub data MatchStatus : Type 0 where
  matched not_found ambiguous : MatchStatus

pub record MatchResult : Type 0 where
  pub status : MatchStatus
  pub transaction_id : Option String
  pub candidate_ids : List String

unfoldable pub result_matched : String → List String → MatchResult
result_matched id candidates = record {
  status = matched;
  transaction_id = some id;
  candidate_ids = candidates;
}

unfoldable pub result_not_found : MatchResult
result_not_found = record { status = not_found; transaction_id = none; candidate_ids = [] }

unfoldable pub result_ambiguous : List String → MatchResult
result_ambiguous candidates = record {
  status = ambiguous;
  transaction_id = none;
  candidate_ids = candidates;
}

unfoldable pub passes_amount : RequestData → CandidateTransaction → Bool
passes_amount request t =
    num_eq t.amount request.expected_amount && (t.currency =s request.currency)

unfoldable pub apply_exact_amount_rule :
    RequestData → List CandidateTransaction → List CandidateTransaction
unfolding passes_amount
apply_exact_amount_rule request candidates = filter (passes_amount request) candidates

abbrev pub window_days : ℕ
window_days = 5

-- 5 days in milliseconds: windowDays * 24 * 60 * 60 * 1000.
abbrev pub window_ms : ℕ
window_ms = window_days * 24 * 60 * 60 * 1000

-- `-` stops at 0 where the program's bound is negative: a time is at least either.
unfoldable pub in_window : RequestData → CandidateTransaction → Bool
in_window request t =
    leb (request.created_at - window_ms) t.received_at
    && leb t.received_at (request.created_at + window_ms)

unfoldable pub apply_date_window_rule :
    RequestData → List CandidateTransaction → List CandidateTransaction
unfolding in_window
apply_date_window_rule request candidates = filter (in_window request) candidates

-- Array.prototype.sort by falling score. It is stable: `x` stands before its equals in `l`, which
-- come later in the array.
unfoldable pub insert_by_score {ℓ} : {A : Type ℓ} → (A → Score) → A → List A → List A
insert_by_score score x [] = x ∷ []
insert_by_score score x (y ∷ l) =
    let rest = insert_by_score score x l in
    if score_lt (score x) (score y) then y ∷ rest else x ∷ y ∷ l

unfoldable pub sort_by_score {ℓ} : {A : Type ℓ} → (A → Score) → List A → List A
unfolding insert_by_score
sort_by_score score [] = []
sort_by_score score (x ∷ xs) = insert_by_score score x (sort_by_score score xs)

-- The end of `evaluate`, from the sorted candidates on.
unfoldable pub conclude : (CandidateTransaction → Score) → List CandidateTransaction → MatchResult
unfolding result_matched result_not_found result_ambiguous
conclude score [] = result_not_found
conclude score (top ∷ rest) =
    let sorted = top ∷ rest in
    let with_score = filter (λ t. is_positive (score t)) sorted in
    if not_positive
    then result_not_found
    else if ltb 1 (length with_score)
    then result_ambiguous (map (λ t. t.id) with_score)
    else result_matched top.id (map (λ t. t.id) sorted)
  where
    not_positive : Bool
    not_positive = (score top).num == 0

-- The candidates that the rules leave.
unfoldable pub filtered : RequestData → List CandidateTransaction → List CandidateTransaction
unfolding apply_exact_amount_rule apply_date_window_rule
filtered request candidates =
    apply_date_window_rule request (apply_exact_amount_rule request candidates)

module _ (lower_nfd : Text → Text) where
  -- scores.get(t.id) ?? 0, of the candidates that the rules leave.
  unfoldable pub score_in : RequestData → List CandidateTransaction → CandidateTransaction → Score
  unfolding get_score apply_fuzzy_sender_heuristic
  score_in request left t = get_score t.id (apply_fuzzy_sender_heuristic lower_nfd request left)

  unfoldable pub evaluate : RequestData → List CandidateTransaction → MatchResult
  unfolding filtered score_in sort_by_score conclude
  evaluate request candidates =
      let left = filtered request candidates in
      let score = score_in request left in conclude score (sort_by_score score left)
