-- ===== src/Banking/Trail.antt =====
-- contexts/banking/application/TrailBuffer.ts: the events of one run, a pinned head and a rolling
-- tail.
pub mod Window
pub mod Clamp
use reconbanker.Common.{
  ℕ, suc, ◌+◌, ◌-◌, ◌*◌, ◌/◌, ◌%◌, Bool, true, false, not, ◌&&◌, List, [], ◌∷◌, ◌++◌, map, Option,
  none, some, String, ltb, leb, ◌=s◌, if◌then◌else◌, length, take, find,
}
use Prim.Native.Char.{code}

abbrev pub pinned : ℕ
pinned = 50

abbrev pub rolling : ℕ
rolling = 150

-- failureTrail.ts: MAX_LOG_LINE_CHARS
abbrev pub max_log_line_chars : ℕ
max_log_line_chars = 1000000

abbrev pub max_entry_chars : ℕ
max_entry_chars = max_log_line_chars / (2 * (pinned + rolling))

abbrev pub max_string_chars : ℕ
max_string_chars = 120

-- A string is its list of UTF-16 code units. A scalar is undefined, null, a Boolean or a number, an
-- object or an array is given as the text that JSON.stringify has for it.
pub data Value : Type 0 where
  text : List ℕ → Value
  scalar : String → Value
  nested : String → Value

-- A TrailEntry: its own enumerable fields in order.
abbrev pub Entry : Type 0
Entry = List (String × Value)

abbrev field? : Option (String × Value) → Value
field? none = scalar "undefined"
field? (some f) = f.1

-- entry.key, `undefined` where there is none.
unfoldable pub field : String → Entry → Value
field key entry = field? (find (λ f. f.0 =s key) entry)

-- `${value.slice(0, MAX_STRING_CHARS)}…`
unfoldable pub truncate : Value → Value
truncate (text s) =
    if ltb max_string_chars (length s)
    then text (take max_string_chars s ++ (0x2026 ∷ []))
    else text s
truncate v = v

-- The code units of a string.
unfoldable pub units : String → List ℕ
units String.[] = []
units (String.◌∷◌ c s) =
    let rest = units s in
    let n = code c in
    if ltb n 0x10000
    then n ∷ rest
    else (0xd800 + (n - 0x10000) / 0x400) ∷ (0xdc00 + (n - 0x10000) % 0x400) ∷ rest

unfoldable pub identity : Value → Value
unfolding truncate units
identity (nested s) = text (units "[dropped: not a scalar]")
identity v = truncate v

-- trimmed[key] = value
unfoldable pub set_field : String → Value → Entry → Entry
set_field key v [] = (key, v) ∷ []
set_field key v ((k, w) ∷ e) =
    let rest = set_field key v e in if k =s key then (k, v) ∷ e else (k, w) ∷ rest

unfoldable pub trim : Entry → Entry
unfolding truncate set_field
trim e = set_field "trail_entry_truncated" (scalar "true") (map (λ f. (f.0, truncate f.1)) e)

unfoldable pub last_resort : Entry → Entry
unfolding field identity
last_resort e =
    ("at", identity (field "at" e))
    ∷ ("event", identity (field "event" e))
    ∷ ("trail_entry_truncated", scalar "true")
    ∷ []

-- What `drain` returns: the entries, and the marker with the number of those dropped.
pub data Line : Type 0 where
  entry : Entry → Line
  trail_truncated : ℕ → Line

pub record Buffer : Type 0 where
  pub head : List Entry
  pub tail : List Entry
  pub dropped : ℕ

abbrev pub empty : Buffer
empty = record { head = []; tail = []; dropped = 0 }

abbrev size? : Option ℕ → ℕ
size? none = max_entry_chars + 1
size? (some n) = n

abbrev pub shift : List Entry → List Entry
shift [] = []
shift (x ∷ l) = l

unfoldable pub push : Entry → Buffer → Buffer
push e b =
    if ltb (length b.head) pinned
    then record b { head = b.head ++ (e ∷ []) }
    else let tail = b.tail ++ (e ∷ []) in
      if ltb rolling (length tail)
      then record b { tail = shift tail; dropped = b.dropped + 1 }
      else record b { tail = tail }

unfoldable pub drain : Buffer → List Line × Buffer
drain b = (
  map entry b.head
      ++ (if ltb 0 b.dropped then trail_truncated b.dropped ∷ [] else [])
      ++ map entry b.tail,
  empty,
)

-- `json_length` is JSON.stringify(entry)?.length, and nothing where it throws or gives undefined.
module _ (json_length : Entry → Option ℕ) where
  unfoldable pub serialized_size : Entry → ℕ
  serialized_size e = size? (json_length e)

  unfoldable pub clamp_entry : Entry → Entry
  unfolding serialized_size trim last_resort
  clamp_entry e =
      if leb (serialized_size e) max_entry_chars
      then e
      else if leb (serialized_size (trim e)) max_entry_chars
      then trim e
      else last_resort e

  -- TrailBuffer.event
  unfoldable pub event : Entry → Buffer → Buffer
  unfolding clamp_entry push
  event e b = push (clamp_entry e) b

  unfoldable pub events : List Entry → Buffer → Buffer
  unfolding event
  events [] b = b
  events (e ∷ es) b = events es (event e b)
