-- ===== src/Conciliation/Fuzzy/Scores.antt =====
-- The score map of the heuristic: a candidate with an id of its own has its own score.
use reconbanker.Common.{
  ◌≡◌, refl, Bool, false, List, [], ◌∷◌, ◌∙◌, String, arith, ◌=s◌, =s_iff, All, filter,
  if◌then◌else◌,
}
use reconbanker.Conciliation.Candidate.{Text, CandidateTransaction, RequestData}
use reconbanker.Conciliation.Fuzzy.{
  Score, set_score, get_score, score_candidate, score_loop, apply_fuzzy_sender_heuristic,
}

-- No candidate of the list has the id `k`.
abbrev pub IsFreshId : String → List CandidateTransaction → Type 0
IsFreshId k ts = All (λ t. (t.id =s k) ≡ false) ts

-- Ids are the primary key of bank_transactions.
abbrev pub DistinctIds : List CandidateTransaction → Type 0
DistinctIds [] = Unit
DistinctIds (t ∷ ts) = IsFreshId t.id ts × DistinctIds ts

IsFreshId-filter :
    (k : String) (p : CandidateTransaction → Bool) (ts : List CandidateTransaction)
    → IsFreshId k ts
    → IsFreshId k (filter p ts)
IsFreshId-filter k p [] h = tt
IsFreshId-filter k p (t ∷ ts) h = ground (arith, IsFreshId-filter k p ts h.1)

pub DistinctIds-filter :
    (p : CandidateTransaction → Bool) (ts : List CandidateTransaction)
    → DistinctIds ts
    → DistinctIds (filter p ts)
DistinctIds-filter p [] h = tt
DistinctIds-filter p (t ∷ ts) h =
    ground (arith, IsFreshId-filter t.id p ts h.0, DistinctIds-filter p ts h.1)

get-set :
    (j k : String) (v : Score) (m : List (String × Score))
    → get_score j (set_score k v m) ≡ (if k =s j then v else get_score j m)
unfolding get_score set_score
get-set j k v [] = refl
get-set j k v ((i, w) ∷ m) = ground (arith, =s_iff k j, =s_iff i k, =s_iff i j, get-set j k v m)

module _ (lower_nfd : Text → Text) (request : RequestData) where
  get-loop_fresh :
      (k : String) (m : List (String × Score)) (ts : List CandidateTransaction)
      → IsFreshId k ts
      → get_score k (score_loop lower_nfd request m ts) ≡ get_score k m
  unfolding score_loop
  get-loop_fresh k m [] h = refl
  get-loop_fresh k m (t ∷ ts) h =
      get-loop_fresh k (set_score t.id (score_candidate lower_nfd request t) m) ts h.1
      ∙ get-set k t.id (score_candidate lower_nfd request t) m
      ∙ rw h.0 refl

  get-loop :
      (m : List (String × Score)) (ts : List CandidateTransaction)
      → DistinctIds ts
      → All
          (λ t.
            get_score t.id (score_loop lower_nfd request m ts)
            ≡ score_candidate lower_nfd request t)
          ts
  unfolding score_loop
  get-loop m [] h = tt
  get-loop m (t ∷ ts) h = (
    get-loop_fresh t.id (set_score t.id (score_candidate lower_nfd request t) m) ts h.0
        ∙ get-set t.id t.id (score_candidate lower_nfd request t) m
        ∙ ground (arith, =s_iff t.id t.id),
    get-loop (set_score t.id (score_candidate lower_nfd request t) m) ts h.1,
  )

  pub get-heuristic :
      (ts : List CandidateTransaction)
      → DistinctIds ts
      → All
          (λ t.
            get_score t.id (apply_fuzzy_sender_heuristic lower_nfd request ts)
            ≡ score_candidate lower_nfd request t)
          ts
  unfolding apply_fuzzy_sender_heuristic
  get-heuristic ts h = get-loop [] ts h
