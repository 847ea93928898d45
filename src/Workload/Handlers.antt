-- ===== src/Workload/Handlers.antt =====
-- The handlers and `HandlerRegistry` of src/job_visibility/scheduler/handlers.py. `Payload` has what
-- they read of a payload; reading it from JSON, and writing a summary with its SHA-256, are arguments.
use Prim.Native.String.{count as text_length}
use mathlib.Core.Option
use job_scheduling_simulatio.Prelude.{
  ℕ, zero, suc, ◌+◌, String, false, Option, none, some, List, [], ◌∷◌, ltb, leb, if◌then◌else◌,
  nat_key, text_key, Dict, lookup, insert, Result, ok, raised,
}
use job_scheduling_simulatio.Model.{code_key}
use job_scheduling_simulatio.Scheduler.Types.{ClaimedJob, HandlerError, HandlerOutcome, refused}
use job_scheduling_simulatio.Workload.Fibonacci.{fibonacci}

-- `payload.get("limit", 10_000)`: a number, a negative number, or a value that is no integer.
pub data Limit : Type 0 where
  number : ℕ → Limit
  negative : Limit
  no_integer : Limit

-- The limit, if there is one, and the text of the message.
pub record Payload : Type 0 where
  pub limit : Option Limit
  pub message : String

pub data Summary : Type 0 where
  printed : ℕ → Summary
  listed : List ℕ → Option ℕ → Summary

-- `print_handler`.
unfoldable pub print_handler : Payload → Result HandlerError Summary
print_handler payload = ok (printed (text_length payload.message))

-- The loop of `fibonacci_handler` from an index on: nothing if the fuel runs out.
unfoldable pub fibonacci_values : ℕ → ℕ → ℕ → Option (List ℕ)
fibonacci_values zero limit index = none
fibonacci_values (suc fuel) limit index =
    let rest = fibonacci_values fuel limit (suc index) in
    if ltb limit (fibonacci index)
    then some []
    else Option.map (λ values. fibonacci index ∷ values) rest

abbrev pub last : List ℕ → Option ℕ
last [] = none
last (x ∷ []) = some x
last (x ∷ y ∷ ys) = last (y ∷ ys)

abbrev pub invalid_limit : HandlerError
invalid_limit = record { code = "INVALID_FIBONACCI_LIMIT"; retryable = false }

-- What the handler makes of its limit.
unfoldable pub limit_of : Option Limit → Option ℕ
limit_of none = some 10000
limit_of (some (number n)) = if leb n 10000 then some n else none
limit_of (some negative) = none
limit_of (some no_integer) = none

-- The summary of the values; the fuel is one more than the first index that is surely beyond.
unfoldable pub list_values : Option ℕ → Result HandlerError (Option Summary)
unfolding fibonacci_values
list_values none = raised invalid_limit
list_values (some limit) =
    ok (Option.map (λ values. listed values (last values)) (fibonacci_values (limit + 3) limit 0))

-- `fibonacci_handler`: no summary only if the fuel were not enough.
unfoldable pub fibonacci_handler : Payload → Result HandlerError (Option Summary)
unfolding limit_of list_values
fibonacci_handler payload = list_values (limit_of payload.limit)

-- `HandlerRegistry`.
abbrev pub HandlerRegistry : Type 0
HandlerRegistry = Dict String (ClaimedJob → HandlerOutcome)

-- `register`.
unfoldable pub register : HandlerRegistry → String → (ClaimedJob → HandlerOutcome) → HandlerRegistry
register registry job_type handler = insert job_type handler registry

abbrev pub unknown_type : HandlerError
unknown_type = record { code = "UNKNOWN_JOB_TYPE"; retryable = false }

abbrev pub call : Option (ClaimedJob → HandlerOutcome) → ClaimedJob → HandlerOutcome
call none job = refused unknown_type
call (some handler) job = handler job

-- `HandlerRegistry.execute`.
unfoldable pub dispatch : HandlerRegistry → ClaimedJob → HandlerOutcome
dispatch registry job = call (lookup job.job_type registry) job
