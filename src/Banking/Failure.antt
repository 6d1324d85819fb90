-- ===== src/Banking/Failure.antt =====
-- contexts/banking/domain/scrapeFailure.ts, scrapeStage.ts and monitorStopOutcome.ts, with
-- shared/domain/scrapeStage.ts: the vocabulary of a failed run.
use reconbanker.Common.{
  ℕ, Bool, true, false, List, [], ◌∷◌, Option, none, some, String, ◌==◌, if◌then◌else◌,
}
use reconbanker.Conciliation.Candidate.{Text}
use reconbanker.Conciliation.Fuzzy.{text_eq, trim, trim_start, trim_end}
use reconbanker.Banking.Trail.{units}

-- What a catch binds: a TimeoutError, another Error, or a value with its String().
pub data Thrown : Type 0 where
  timeout_error : Text → Thrown
  error : Text → Thrown
  value : Text → Thrown

-- `err instanceof Error ? err.message : String(err)`
abbrev pub message : Thrown → Text
message (timeout_error m) = m
message (error m) = m
message (value m) = m

pub data FailureCategory : Type 0 where
  timeout login_failed navigation_failed : FailureCategory
  movements_fetch_failed detail_extraction_failed unknown : FailureCategory

pub data ScrapeStage : Type 0 where
  launch load_script credentials login auth_wait poll : ScrapeStage
  keep_alive navigate movements_fetch detail_extraction close : ScrapeStage

unfoldable pub stage_code : ScrapeStage → ℕ
stage_code launch = 0
stage_code load_script = 1
stage_code credentials = 2
stage_code login = 3
stage_code auth_wait = 4
stage_code poll = 5
stage_code keep_alive = 6
stage_code navigate = 7
stage_code movements_fetch = 8
stage_code detail_extraction = 9
stage_code close = 10

-- `a === b` on stages.
unfoldable pub stage_eq : ScrapeStage → ScrapeStage → Bool
unfolding stage_code
stage_eq a b = stage_code a == stage_code b

abbrev pub category_text : FailureCategory → String
category_text timeout = "timeout"
category_text login_failed = "login_failed"
category_text navigation_failed = "navigation_failed"
category_text movements_fetch_failed = "movements_fetch_failed"
category_text detail_extraction_failed = "detail_extraction_failed"
category_text unknown = "unknown"

-- message.split(':', 1)[0]
unfoldable pub before_colon : Text → Text
before_colon [] = []
before_colon (c ∷ s) = let rest = before_colon s in if c == b':' then [] else c ∷ rest

-- KNOWN_PREFIXES
abbrev pub known_prefixes : List FailureCategory
known_prefixes =
    login_failed ∷ navigation_failed ∷ movements_fetch_failed ∷ detail_extraction_failed ∷ []

unfoldable pub find_prefix : Text → List FailureCategory → FailureCategory
unfolding units
find_prefix prefix [] = unknown
find_prefix prefix (c ∷ cs) =
    let rest = find_prefix prefix cs in if text_eq prefix (units (category_text c)) then c else rest

unfoldable pub categorize_failure : Thrown → FailureCategory
unfolding find_prefix before_colon trim_start trim_end
categorize_failure (timeout_error m) = timeout
categorize_failure (error m) = find_prefix (trim (before_colon m)) known_prefixes
categorize_failure (value m) = find_prefix (trim (before_colon m)) known_prefixes

abbrev pub stage_from_failure_category : FailureCategory → Option ScrapeStage
stage_from_failure_category login_failed = some login
stage_from_failure_category navigation_failed = some navigate
stage_from_failure_category movements_fetch_failed = some movements_fetch
stage_from_failure_category detail_extraction_failed = some detail_extraction
stage_from_failure_category timeout = none
stage_from_failure_category unknown = none

-- CONNECTION_CATEGORIES.has(category): 'connection.failed', else 'scrape.failed'.
abbrev pub is_connection : FailureCategory → Bool
is_connection login_failed = true
is_connection navigation_failed = true
is_connection _ = false

-- MonitorOutcome
pub record MonitorOutcome : Type 0 where
  pub success : Bool
  pub stop_reason : Option String
  pub failure_type : Option String

abbrev pub clean_stops : List String
clean_stops = "stop_requested" ∷ "max_runtime" ∷ []

abbrev pub failure_stops : List String
failure_stops =
    "auth_timeout" ∷ "logged_out" ∷ "watchdog_timeout" ∷ "browser_closed" ∷ "session_killed" ∷ []

-- The member of the set that the reason is.
unfoldable pub find_stop : Text → List String → Option String
unfolding units
find_stop reason [] = none
find_stop reason (r ∷ rs) =
    let rest = find_stop reason rs in if text_eq reason (units r) then some r else rest

abbrev pub failure_outcome : Option String → MonitorOutcome
failure_outcome stop = record { success = false; stop_reason = stop; failure_type = stop }

abbrev pub outcome_of : Option String → Option String → MonitorOutcome
outcome_of (some r) stop = record { success = true; stop_reason = some r; failure_type = none }
outcome_of none stop = failure_outcome stop

unfoldable pub outcome_from_stop_reason : Text → MonitorOutcome
unfolding find_stop
outcome_from_stop_reason reason =
    outcome_of (find_stop reason clean_stops) (find_stop reason failure_stops)
