-- ===== src/Banking/Otp/Tests.antt =====
-- A session that asks for a code, with a table that another account has a request in.
use reconbanker.Common.{◌≡◌, refl, true, false, [], ◌∷◌, ◌++◌, none, some, arith}
use reconbanker.Conciliation.Candidate.{Text}
use reconbanker.Banking.Otp.{find_pending, Ask, opened, State, Window, request_otp}
use reconbanker.Banking.Otp.Served.{Serves, request_otp-Serves}
use reconbanker.Banking.Otp.Revived.{teardown, delivery, request_otp-revived}

abbrev ask : Ask
ask = record { account_id = "a1"; session_id = none; descriptor = "6 digits" }

abbrev table : State
table = record {
  rows =
      opened "r0" (record { account_id = "a0"; session_id = none; descriptor = "4 digits" }) ∷ [];
  events = [];
}

abbrev silent : Window
silent = record { torn_down = false; code = none; new_id = "r9" }

abbrev code : Text
code = b'1' ∷ b'2' ∷ []

-- Five windows pass, three with a resend.
request_otp-Serves_example : Serves "r1" code 4 (
    request_otp 3 true ask "r1"
      ((silent ∷ silent ∷ silent ∷ silent ∷ silent ∷ []) ++ (delivery code "r9" ∷ []))
      table)
request_otp-Serves_example =
    request_otp-Serves 3 true ask "r1" (silent ∷ silent ∷ silent ∷ silent ∷ silent ∷ [])
      (delivery code "r9") [] code table (unfold find_pending in refl) refl
      ((refl, refl), ((refl, refl), ((refl, refl), ((refl, refl), ((refl, refl), tt))))) refl refl

request_otp-revived_example :
    let x = request_otp 3 true ask "r1" (teardown "r2" ∷ delivery code "r9" ∷ []) table in
    (x.code ≡ some code) × (find_pending "a1" x.state.rows ≡ some (opened "r2" ask))
request_otp-revived_example =
    request_otp-revived 3 ask "r1" "r2" "r9" code table (omega arith) (unfold find_pending in refl)
      refl refl
