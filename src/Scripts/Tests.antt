-- ===== src/Scripts/Tests.antt =====
-- One user's script is promoted over another.
use reconbanker.Common.{
  ◌≡◌, refl, true, false, List, [], ◌∷◌, none, some, String, arith, if◌then◌else◌, count, ok,
}
use reconbanker.Events.{script_promoted}
use reconbanker.Scripts.{
  BankScript, ScriptStatus, review, active, deprecated, user, extract_transactions, scope_of,
  is_active_in, in_scope, find_by_id, promote_script, is_version,
}
use reconbanker.Scripts.Active.{promote_script_lem}

abbrev script : String → ScriptStatus → BankScript
script id status = record {
  id = id;
  bank = "b";
  flow_type = extract_transactions;
  version = "1.0.0";
  status = status;
  origin = user;
  base_script_id = none;
  code_snapshot = some "code";
  selector_map = "{}";
  created_at = 0;
  user_id = some "u1";
  account_id = none;
}

abbrev before : List BankScript
before = script "s1" active ∷ script "s2" review ∷ []

abbrev after : List BankScript
after = script "s1" deprecated ∷ script "s2" active ∷ []

promoted :
    promote_script "s2" "u1" before
    ≡ ok (after, script_promoted "s2" "b" "extract_transactions" "1.0.0" ∷ [])
unfolding promote_script
promoted = refl

found : find_by_id "s2" before ≡ some (script "s2" review)
unfolding find_by_id
found = refl

promote_script_lem_example : count (is_active_in (scope_of (script "s1" active))) after ≡ (
    if in_scope (scope_of (script "s1" active)) (script "s2" review)
    then 1
    else count (is_active_in (scope_of (script "s1" active))) before)
promote_script_lem_example =
    promote_script_lem "s2" "u1" before after
      (script_promoted "s2" "b" "extract_transactions" "1.0.0" ∷ []) (script "s2" review)
      (scope_of (script "s1" active)) (omega arith) found promoted

versions : (is_version "1.20.3" ≡ true) × (is_version "1.2" ≡ false) × (is_version "1..2" ≡ false)
unfolding is_version
versions = (refl, refl, refl)
