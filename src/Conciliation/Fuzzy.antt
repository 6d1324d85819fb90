-- ===== src/Conciliation/Fuzzy.antt =====
-- contexts/conciliation/domain/heuristics/FuzzySenderHeuristic.ts.
-- A score is a fraction with a positive denominator. The program divides doubles: division is
-- rounded monotonically, and fractions of small numbers that differ have doubles that differ, so
-- comparing the fractions is comparing the doubles.
pub mod Scores
use reconbanker.Common.{
  ℕ, suc, ◌-◌, ◌*◌, ◌+◌, Bool, true, false, not, ◌&&◌, ◌||◌, List, [], ◌∷◌, ◌++◌, Option, none,
  some, String, ltb, leb, ◌==◌, ◌=s◌, if◌then◌else◌, filter, any, length, is_empty,
}
use reconbanker.Conciliation.Candidate.{Text, CandidateTransaction, RequestData}

-- num / (den_pred + 1)
pub record Score : Type 0 where
  pub num : ℕ
  pub den_pred : ℕ

-- n / d, for d > 0.
abbrev pub divide : ℕ → ℕ → Score
divide n d = record { num = n; den_pred = d - 1 }

abbrev pub zero_score : Score
zero_score = divide 0 1

-- a < b
abbrev pub score_lt : Score → Score → Bool
score_lt a b = ltb (a.num * suc b.den_pred) (b.num * suc a.den_pred)

-- a > 0
abbrev pub is_positive : Score → Bool
is_positive a = ltb 0 a.num

-- Math.max
abbrev pub max_score : Score → Score → Score
max_score a b = if score_lt a b then b else a

abbrev pub text_eq : Text → Text → Bool
text_eq [] [] = true
text_eq (a ∷ s) (b ∷ t) = let rest = text_eq s t in if a == b then rest else false
text_eq _ _ = false

-- \s of a regular expression: what String.prototype.trim removes too.
unfoldable pub is_space : ℕ → Bool
is_space c =
    (leb 9 c && leb c 13)
    || c == 32
    || c == 160
    || c == 0x1680
    || (leb 0x2000 c && leb c 0x200a)
    || c == 0x2028
    || c == 0x2029
    || c == 0x202f
    || c == 0x205f
    || c == 0x3000
    || c == 0xfeff

-- /[\u0300-\u036f]/
unfoldable pub is_diacritic : ℕ → Bool
is_diacritic c = leb 0x300 c && leb c 0x36f

-- /[a-z0-9\s]/
unfoldable pub is_kept : ℕ → Bool
unfolding is_space
is_kept c = (leb b'a' c && leb c b'z') || (leb b'0' c && leb c b'9') || is_space c

-- .replace(/\s+/g, ' '): the flag says that the unit before was white space.
unfoldable pub collapse : Bool → Text → Text
unfolding is_space
collapse after_space [] = []
collapse after_space (c ∷ s) =
    let rest = collapse (is_space c) s in
    if is_space c then (if after_space then rest else b' ' ∷ rest) else c ∷ rest

unfoldable pub trim_start : Text → Text
unfolding is_space
trim_start [] = []
trim_start (c ∷ s) = let rest = trim_start s in if is_space c then rest else c ∷ s

unfoldable pub trim_end : Text → Text
unfolding is_space
trim_end [] = []
trim_end (c ∷ s) = let rest = trim_end s in if is_space c && is_empty rest then [] else c ∷ rest

-- String.prototype.trim
abbrev pub trim : Text → Text
trim s = trim_end (trim_start s)

abbrev pub or_empty : Option Text → Text
or_empty none = []
or_empty (some s) = s

-- `lower_nfd` is .toLowerCase().normalize('NFD'), which reads the Unicode tables.
unfoldable pub normalize : (Text → Text) → Option Text → Text
unfolding collapse trim_start trim_end is_kept is_diacritic
normalize lower_nfd s =
    trim (
      collapse false (filter is_kept (filter (λ c. not (is_diacritic c)) (lower_nfd (or_empty s)))))

-- String.prototype.split(' ')
push_unit : ℕ → List Text → List Text
push_unit c [] = (c ∷ []) ∷ []
push_unit c (word ∷ words) = (c ∷ word) ∷ words

unfoldable pub split_space : Text → List Text
unfolding push_unit
split_space [] = [] ∷ []
split_space (c ∷ s) = let rest = split_space s in if c == 32 then [] ∷ rest else push_unit c rest

abbrev pub has : List Text → Text → Bool
has tokens t = any (text_eq t) tokens

-- new Set(xs), in the order of insertion: `seen` holds what is in the set already.
unfoldable pub dedup_from : List Text → List Text → List Text
dedup_from seen [] = []
dedup_from seen (x ∷ xs) =
    let rest = dedup_from (if has seen x then seen else x ∷ seen) xs in
    if has seen x then rest else x ∷ rest

abbrev pub new_set : List Text → List Text
new_set xs = dedup_from [] xs

unfoldable pub tokenize : Text → List Text
unfolding split_space dedup_from
tokenize s = new_set (filter (λ t. ltb 1 (length t)) (split_space s))

unfoldable pub jaccard_score : List Text → List Text → Score
unfolding dedup_from
jaccard_score a b =
    if length a == 0 || length b == 0
    then zero_score
    else divide (length (filter (has b) a)) (length (new_set (a ++ b)))

abbrev is_prefix : Text → Text → Bool
is_prefix [] t = true
is_prefix (a ∷ s) [] = false
is_prefix (a ∷ s) (b ∷ t) = let rest = is_prefix s t in if a == b then rest else false

-- haystack.includes(needle)
unfoldable pub includes : Text → Text → Bool
includes [] needle = is_prefix needle []
includes (c ∷ s) needle =
    let rest = includes s needle in if is_prefix needle (c ∷ s) then true else rest

-- The score of one candidate: the body of the loop.
unfoldable pub score_of : Text → List Text → Text → List Text → Score
unfolding jaccard_score includes
score_of req_norm req_tokens tx_norm tx_tokens =
    if is_empty req_norm || is_empty tx_norm
    then divide 1 2
    else if text_eq req_norm tx_norm
    then divide 1 1
    else max_score (jaccard_score req_tokens tx_tokens)
        (if includes tx_norm req_norm || includes req_norm tx_norm then divide 4 5 else zero_score)

-- Map.prototype.set: a key that is present keeps its place and takes the new value.
unfoldable pub set_score : String → Score → List (String × Score) → List (String × Score)
set_score k v [] = (k, v) ∷ []
set_score k v ((j, w) ∷ m) = if j =s k then (k, v) ∷ m else (j, w) ∷ set_score k v m

-- scores.get(id) ?? 0
unfoldable pub get_score : String → List (String × Score) → Score
get_score k [] = zero_score
get_score k ((j, w) ∷ m) = let rest = get_score k m in if j =s k then w else rest

module _ (lower_nfd : Text → Text) where
  unfoldable pub score_candidate : RequestData → CandidateTransaction → Score
  unfolding normalize tokenize score_of
  score_candidate request t =
      let req_norm = normalize lower_nfd request.sender_name in
      let tx_norm = normalize lower_nfd t.sender_name in
      score_of req_norm (tokenize req_norm) tx_norm (tokenize tx_norm)

  unfoldable pub score_loop :
      RequestData → List (String × Score) → List CandidateTransaction → List (String × Score)
  unfolding score_candidate set_score
  score_loop request scores [] = scores
  score_loop request scores (t ∷ ts) =
      score_loop request (set_score t.id (score_candidate request t) scores) ts

  unfoldable pub apply_fuzzy_sender_heuristic :
      RequestData → List CandidateTransaction → List (String × Score)
  unfolding score_loop
  apply_fuzzy_sender_heuristic request candidates = score_loop request [] candidates
