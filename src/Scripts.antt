-- ===== src/Scripts.antt =====
-- contexts/script-engine: domain/BankScript.ts, infrastructure/BankScriptRepository.ts with the
-- indexes of migration 051, and the use cases that change a script's status.
pub mod Active
mod Tests
use reconbanker.Common.{
  ℕ, ◌-◌, Bool, true, false, not, ◌&&◌, ◌||◌, List, [], ◌∷◌, ◌++◌, map, Option, none, some, String,
  leb, ltb, ◌==◌, ◌=s◌, if◌then◌else◌, any, find, Result, ok, err, Error, validation_error,
  conflict_error, not_found_error, forbidden_error, unique_violation, require, ◌>>=◌, ◌>>◌,
}
use Prim.Native.Char.{code}
use reconbanker.Events.{DomainEvent, script_promoted}

pub data ScriptStatus : Type 0 where
  draft testing review active deprecated failed : ScriptStatus

pub data ScriptOrigin : Type 0 where
  system ai user : ScriptOrigin

pub data FlowType : Type 0 where
  login extract_transactions verify_payment : FlowType

-- The text of a flow type.
abbrev pub flow_text : FlowType → String
flow_text login = "login"
flow_text extract_transactions = "extract_transactions"
flow_text verify_payment = "verify_payment"

abbrev pub is_active_status : ScriptStatus → Bool
is_active_status active = true
is_active_status _ = false

-- The aggregate's props and id; the selector map is its JSON text.
pub record BankScript : Type 0 where
  pub id : String
  pub bank : String
  pub flow_type : FlowType
  pub version : String
  pub status : ScriptStatus
  pub origin : ScriptOrigin
  pub base_script_id : Option String
  pub code_snapshot : Option String
  pub selector_map : String
  pub created_at : ℕ
  pub user_id : Option String
  pub account_id : Option String

-- A reading of /^\d+\.\d+\.\d+$/: the dots still to come and whether a digit was just read.
pub record Reading : Type 0 where
  pub dots : ℕ
  pub after_digit : Bool
  pub is_stuck : Bool

abbrev read_unit : ℕ → Reading → Reading
read_unit c r =
    if leb b'0' c && leb c b'9'
    then record r { after_digit = true }
    else if c == b'.' && r.after_digit && ltb 0 r.dots
    then record r { dots = r.dots - 1; after_digit = false }
    else record r { is_stuck = true }

abbrev read_version : Reading → String → Bool
read_version r String.[] = r.dots == 0 && r.after_digit && not r.is_stuck
read_version r (String.◌∷◌ c s) = read_version (read_unit (code c) r) s

-- VERSION_RE.test
unfoldable pub is_version : String → Bool
is_version s = read_version (record { dots = 2; after_digit = false; is_stuck = false }) s

-- BankScript.create. A flow type and a status are always among those of their types.
unfoldable pub create : ℕ → BankScript → Result BankScript
unfolding is_version
create now props = do
  require (not (props.bank =s "")) (validation_error "bank")
  require (is_version props.version) (validation_error "version")
  ok (record props { created_at = now })

abbrev is_review : ScriptStatus → Bool
is_review review = true
is_review _ = false

unfoldable pub promote : BankScript → Result (BankScript × List DomainEvent)
promote s = do
  require (is_review s.status) (conflict_error "promote")
  ok (
    record s { status = active },
    script_promoted s.id s.bank (flow_text s.flow_type) s.version ∷ [],
  )

unfoldable pub deprecate : BankScript → BankScript
deprecate s = record s { status = deprecated }

-- IS NOT DISTINCT FROM
abbrev pub same_or_null : Option String → Option String → Bool
same_or_null none none = true
same_or_null (some a) (some b) = a =s b
same_or_null _ _ = false

abbrev pub same_flow : FlowType → FlowType → Bool
same_flow login login = true
same_flow extract_transactions extract_transactions = true
same_flow verify_payment verify_payment = true
same_flow _ _ = false

-- What deprecateActive selects by.
pub record Scope : Type 0 where
  pub bank : String
  pub flow_type : FlowType
  pub account_id : Option String
  pub user_id : Option String

abbrev pub scope_of : BankScript → Scope
scope_of s = record {
  bank = s.bank;
  flow_type = s.flow_type;
  account_id = s.account_id;
  user_id = s.user_id;
}

unfoldable pub in_scope : Scope → BankScript → Bool
in_scope k s =
    (s.bank =s k.bank)
    && same_flow s.flow_type k.flow_type
    && same_or_null s.account_id k.account_id
    && same_or_null s.user_id k.user_id

unfoldable pub is_active_in : Scope → BankScript → Bool
unfolding in_scope
is_active_in k s = is_active_status s.status && in_scope k s

unfoldable pub find_by_id : String → List BankScript → Option BankScript
find_by_id id rows = find (λ s. s.id =s id) rows

unfoldable pub deprecate_active : Scope → List BankScript → List BankScript
unfolding is_active_in
deprecate_active k rows =
    map (λ s. if is_active_in k s then record s { status = deprecated } else s) rows

abbrev is_null : Option String → Bool
is_null none = true
is_null (some s) = false

-- Two rows that one of the unique indexes on active scripts does not let stand together.
unfoldable pub clash : BankScript → BankScript → Bool
clash a b =
    is_active_status a.status
    && is_active_status b.status
    && (a.bank =s b.bank)
    && same_flow a.flow_type b.flow_type
    && ((is_null a.user_id && is_null b.user_id)
        || (not (is_null a.user_id)
            && same_or_null a.user_id b.user_id
            && is_null a.account_id
            && is_null b.account_id)
        || (not (is_null a.account_id) && same_or_null a.account_id b.account_id))

-- ON CONFLICT (id) DO UPDATE: the status and the code.
abbrev pub merge_row : BankScript → BankScript → BankScript
merge_row s row =
    if row.id =s s.id
    then record row { status = s.status; code_snapshot = s.code_snapshot }
    else row

-- Another row than that of the script itself clashes with it.
unfoldable pub clashes : BankScript → List BankScript → Bool
unfolding clash
clashes s rows = any (λ row. not (row.id =s s.id) && clash s row) rows

unfoldable pub save : BankScript → List BankScript → Result (List BankScript)
unfolding clashes
save s rows =
    if clashes s rows
    then err (unique_violation "uq_bank_script_active")
    else if any (λ row. row.id =s s.id) rows
    then ok (map (merge_row s) rows)
    else ok (rows ++ (s ∷ []))

abbrev owned_by : String → Option String → BankScript → Result BankScript
owned_by caller none s = err (forbidden_error "owner")
owned_by caller (some u) s = if u =s caller then ok s else err (not_found_error "script")

-- The guards that promoting and deprecating share.
unfoldable pub check_owner : String → Option BankScript → Result BankScript
check_owner caller none = err (not_found_error "script")
check_owner caller (some s) = owned_by caller s.user_id s

-- PromoteScriptUseCase.execute: the table after it, and the events published.
unfoldable pub promote_script :
    String → String → List BankScript → Result (List BankScript × List DomainEvent)
unfolding find_by_id check_owner promote deprecate_active save
promote_script id caller rows = do
  script ← check_owner caller (find_by_id id rows)
  promoted ← promote script
  rows' ← save promoted.0 (deprecate_active (scope_of script) rows)
  ok (rows', promoted.1)

-- DeprecateScriptUseCase.execute
unfoldable pub deprecate_script : String → String → List BankScript → Result (List BankScript)
unfolding find_by_id check_owner deprecate save
deprecate_script id caller rows = do
  script ← check_owner caller (find_by_id id rows)
  save (deprecate script) rows

-- PublishOfficialScriptUseCase.execute: `exists` is ScriptLoader.scriptFileExists of the version,
-- `id` the new id.
unfoldable pub publish_official :
    Bool
    → ℕ
    → String
    → String
    → FlowType
    → String
    → List BankScript
    → Result (List BankScript × List DomainEvent)
unfolding create promote deprecate_active save
publish_official exists now id bank flow version rows = do
  require exists (not_found_error "script file")
  script ← create now (record {
    id = id;
    bank = bank;
    flow_type = flow;
    version = version;
    status = review;
    origin = system;
    base_script_id = none;
    code_snapshot = none;
    selector_map = "{}";
    created_at = now;
    user_id = none;
    account_id = none;
  })
  promoted ← promote script
  rows' ← save promoted.0 (
      deprecate_active (record { bank = bank; flow_type = flow; account_id = none; user_id = none })
        rows)
  ok (rows', promoted.1)
