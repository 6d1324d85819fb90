-- ===== src/Conciliation/Candidate.antt =====
-- contexts/conciliation/domain: the data that the rules of the matching engine read.
use reconbanker.Common.{ℕ, List, Option, String, Num}

-- A sender's name is its list of UTF-16 code units.
abbrev pub Text : Type 0
Text = List ℕ

-- Times are milliseconds since the epoch (Date.getTime), of dates after it.
pub record CandidateTransaction : Type 0 where
  pub id : String
  pub amount : Num
  pub currency : String
  pub sender_name : Option Text
  pub received_at : ℕ

pub record RequestData : Type 0 where
  pub expected_amount : Num
  pub currency : String
  pub sender_name : Option Text
  pub created_at : ℕ
