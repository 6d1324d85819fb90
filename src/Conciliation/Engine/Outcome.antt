-- ===== src/Conciliation/Engine/Outcome.antt =====
-- What the engine decides, told by the candidates that are eligible and not by the sort.
use mathlib.Core.List.{Perm}
use mathlib.Core.List.Perm
use reconbanker.Common.{
  ◌≡◌, refl, sym, ◌∙◌, ap, subst, Bool, true, false, ◌&&◌, List, [], ◌∷◌, map, some, arith, ltb,
  filter, length, All-map, length-filter, any-count, filter-filter, filter-cong, filter-perm, none,
}
use reconbanker.Conciliation.Candidate.{Text, CandidateTransaction, RequestData}
use reconbanker.Conciliation.Fuzzy.{Score, is_positive, score_candidate}
use reconbanker.Conciliation.Fuzzy.Scores.{DistinctIds, DistinctIds-filter, get-heuristic}
use reconbanker.Conciliation.Engine.{
  MatchResult, matched, ambiguous, result_not_found, passes_amount, in_window, filtered, score_in,
  apply_exact_amount_rule, apply_date_window_rule, conclude, sort_by_score, evaluate,
}
use reconbanker.Conciliation.Engine.Sort.{
  head_positive, head_positive-sort, count-sort, sort-perm, filter-sort_single,
}

-- The amount and the currency are those expected, the date lies in the window, and the sender's
-- own score is positive.
pub is_eligible : (Text → Text) → RequestData → CandidateTransaction → Bool
is_eligible lower_nfd request t =
    (passes_amount request t && in_window request t)
    && is_positive (score_candidate lower_nfd request t)

-- The result that a list of eligible candidates calls for.
abbrev pub Decides : List CandidateTransaction → MatchResult → Type 0
Decides [] r = r ≡ result_not_found
Decides (t ∷ []) r = (r.status ≡ matched) × (r.transaction_id ≡ some t.id)
Decides (t ∷ u ∷ ts) r =
    (r.status ≡ ambiguous)
    × (r.transaction_id ≡ none)
    × Perm r.candidate_ids (map (λ x. x.id) (t ∷ u ∷ ts))

module _ (score : CandidateTransaction → Score) where
  abbrev positive : CandidateTransaction → Bool
  positive t = is_positive (score t)

  conclude_none :
      (s : List CandidateTransaction)
      → head_positive score s ≡ false
      → conclude score s ≡ result_not_found
  unfolding conclude
  conclude_none [] h = refl
  conclude_none (top ∷ rest) h = ground arith

  conclude_one :
      (s : List CandidateTransaction) (t : CandidateTransaction)
      → head_positive score s ≡ true
      → filter positive s ≡ t ∷ []
      → ((conclude score s).status ≡ matched) × ((conclude score s).transaction_id ≡ some t.id)
  unfolding conclude
  conclude_one [] t h e = cc
  conclude_one (top ∷ rest) t h e = ground arith

  conclude_many :
      (s : List CandidateTransaction)
      → head_positive score s ≡ true
      → ltb 1 (length (filter positive s)) ≡ true
      → ((conclude score s).status ≡ ambiguous)
        × ((conclude score s).transaction_id ≡ none)
        × ((conclude score s).candidate_ids ≡ map (λ t. t.id) (filter positive s))
  unfolding conclude
  conclude_many [] h e = cc
  conclude_many (top ∷ rest) h e = ground arith

  head-filter :
      (l : List CandidateTransaction)
      → head_positive score (sort_by_score score l) ≡ ltb 0 (length (filter positive l))
  head-filter l =
      head_positive-sort score l
      ∙ any-count positive l
      ∙ ap (ltb 0) (sym (length-filter positive l))

  head-filter_cons :
      (l : List CandidateTransaction) (t : CandidateTransaction) (ts : List CandidateTransaction)
      → filter positive l ≡ t ∷ ts
      → head_positive score (sort_by_score score l) ≡ true
  head-filter_cons l t ts h = head-filter l ∙ ground (arith, ap length h)

  many-filter :
      (l : List CandidateTransaction)
      → length (filter positive (sort_by_score score l)) ≡ length (filter positive l)
  many-filter l =
      length-filter positive (sort_by_score score l)
      ∙ count-sort score positive l
      ∙ sym (length-filter positive l)

  conclude-Decides :
      (l e : List CandidateTransaction)
      → filter positive l ≡ e
      → Decides e (conclude score (sort_by_score score l))
  conclude-Decides l [] h =
      conclude_none (sort_by_score score l) (head-filter l ∙ ap (λ x. ltb 0 (length x)) h)
  conclude-Decides l (t ∷ []) h =
      conclude_one (sort_by_score score l) t (head-filter_cons l t [] h)
        (filter-sort_single score positive l t h)
  conclude-Decides l (t ∷ u ∷ ts) h =
      let (a, b, c) =
        conclude_many (sort_by_score score l) (head-filter_cons l t (u ∷ ts) h)
          (ground (arith, many-filter l, ap length h)) in
      (
        a,
        b,
        rw c (
            Perm.map (λ x. x.id)
              (subst (λ e. Perm (filter positive (sort_by_score score l)) e) h
                (filter-perm positive (sort-perm score l)))),
      )

pub DistinctIds-filtered :
    (request : RequestData) (ts : List CandidateTransaction)
    → DistinctIds ts
    → DistinctIds (filtered request ts)
unfolding filtered apply_exact_amount_rule apply_date_window_rule
DistinctIds-filtered request ts h =
    DistinctIds-filter (in_window request) (filter (passes_amount request) ts)
      (DistinctIds-filter (passes_amount request) ts h)

module _ (lower_nfd : Text → Text) (request : RequestData) where
  -- The scores of the map are the candidates' own, so what passes is what is eligible.
  eligible-filter :
      (ts : List CandidateTransaction)
      → DistinctIds ts
      → filter (positive (score_in lower_nfd request (filtered request ts))) (filtered request ts)
        ≡ filter (is_eligible lower_nfd request) ts
  unfolding filtered score_in is_eligible apply_exact_amount_rule apply_date_window_rule
  eligible-filter ts h =
      filter-cong _ (λ t. is_positive (score_candidate lower_nfd request t)) (filtered request ts)
        (All-map (λ t e. ap is_positive e) (filtered request ts)
          (get-heuristic lower_nfd request (filtered request ts)
            (DistinctIds-filtered request ts h)))
      ∙ ap (filter (λ t. is_positive (score_candidate lower_nfd request t)))
          (filter-filter (in_window request) (passes_amount request) ts)
      ∙ filter-filter _ _ ts

  -- If the candidates have distinct ids, the engine decides by the eligible ones alone: with none it
  -- finds nothing, with one it matches that one, and with more it is ambiguous and lists all of them.
  pub evaluate-Decides :
      (ts : List CandidateTransaction)
      → DistinctIds ts
      → Decides (filter (is_eligible lower_nfd request) ts) (evaluate lower_nfd request ts)
  unfolding evaluate
  evaluate-Decides ts h =
      conclude-Decides (score_in lower_nfd request (filtered request ts)) (filtered request ts)
        (filter (is_eligible lower_nfd request) ts) (eligible-filter ts h)
