-- ===== src/Notify/Client.antt =====
-- internal/notify/client.go: posting, and the ladder of attempts. What the HTTP client answers to each attempt, and
-- whether the context ends during a wait, are parameters.
pub mod Ladder
use clickhouse_ruler.Base.{
  ℕ, zero, suc, ◌+◌, ◌-◌, Bool, true, false, String, List, [], ◌∷◌, Option, none, some,
  if◌then◌else◌, leb, ltb, Duration, ℤ, pos, negsuc, mul_int64, nat_beq,
}
use clickhouse_ruler.Text.{concat}

-- What http.NewRequest and Client.Do give for one attempt.
pub data Answer : Type 0 where
  no_request : String → Answer
  transport_failure : String → Answer
  response : ℕ → String → Answer

-- An error, and whether it is a retryableError.
pub record PostError : Type 0 where
  pub retryable : Bool
  pub text : String

unfoldable pub post : Answer → Option PostError
unfolding concat
post (no_request e) = some record { retryable = false; text = e }
post (transport_failure e) = some record { retryable = true; text = e }
post (response code status) =
    let e : String = concat ("alertmanager returned " ∷ status ∷ []) in
    if leb 500 code
    then some record { retryable = true; text = e }
    else if leb 300 code
    then some record { retryable = false; text = e }
    else none

-- Probe, on the answer to its one request.
unfoldable pub probe : Answer → Option String
unfolding concat
probe (no_request e) = some e
probe (transport_failure e) = some e
probe (response code status) =
    if leb 300 code then some (concat ("alertmanager returned " ∷ status ∷ [])) else none

-- Send's loop: `left` attempts are left after this one, `attempt` counts from 0. It gives the error and the waits.
pub record Sent : Type 0 where
  pub error : Option String
  pub attempts : ℕ
  pub waits : List Duration

unfoldable pub sending : PostError → String
unfolding concat
sending e = concat ("sending to alertmanager: " ∷ e.text ∷ [])

unfoldable pub attempts_from : (ℕ → Answer) → (ℕ → Option String) → ℕ → ℕ → Duration → Sent
unfolding post sending
attempts_from answer done zero attempt backoff = elim (post (answer attempt)) [
  | none ↦ record { error = none; attempts = suc attempt; waits = [] }
  | some e ↦ record { error = some (sending e); attempts = suc attempt; waits = [] }
]
attempts_from answer done (suc left) attempt backoff =
    let rest = attempts_from answer done left (suc attempt) (mul_int64 backoff (pos 2)) in
    elim (post (answer attempt)) [
      | none ↦ record { error = none; attempts = suc attempt; waits = [] }
      | some e ↦
          if e.retryable
          then elim (done attempt) [
            | some cause ↦ record {
              error = some cause;
              attempts = suc attempt;
              waits = backoff ∷ [];
            }
            | none ↦ record rest { waits = backoff ∷ rest.waits }
          ]
          else record { error = some (sending e); attempts = suc attempt; waits = [] }
    ]

-- Send: fewer than one attempt counts as one.
abbrev pub attempts_left : ℤ → ℕ
attempts_left (pos n) = n - 1
attempts_left (negsuc n) = 0

unfoldable pub send : (ℕ → Answer) → (ℕ → Option String) → ℤ → Duration → ℕ → Option String
unfolding attempts_from
send answer done max_attempts backoff payload_length =
    if nat_beq payload_length 0
    then none
    else (attempts_from answer done (attempts_left max_attempts) 0 backoff).error
