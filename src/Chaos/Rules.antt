-- ===== src/Chaos/Rules.antt =====
-- `FaultRule` of src/job_visibility/chaos/model.py with the bounds that its fields declare. The delays
-- are in microseconds.
use Prim.Native.Char.{Char, code}
use Prim.Native.String.{[] as empty_text, ◌∷◌ as char_cons, count as text_length}
use job_scheduling_simulatio.Prelude.{
  ℕ, String, Bool, true, false, not, ◌&&◌, ◌||◌, Option, none, some, ltb, leb, if◌then◌else◌, ◌==◌,
  nat_key, text_key, Result, ok, raised,
}
use job_scheduling_simulatio.Model.{Time, seconds, Error, value_error}
use job_scheduling_simulatio.Scheduler.Types.{Checkpoint}

-- `FaultAction`.
pub data FaultAction : Type 0 where
  delay raise_error exit pause : FaultAction

pub record FaultRule : Type 0 where
  pub checkpoint : Checkpoint
  pub action : FaultAction
  pub invocations : ℕ
  pub activate_on : ℕ
  pub delay_seconds : Time
  pub job_id : Option String
  pub correlation_id : Option String
  pub error_code : String
  pub exit_code : ℕ
  pub pause_timeout_seconds : Time

abbrev is_between : ℕ → ℕ → ℕ → Bool
is_between low high n = leb low n && leb n high

abbrev is_bounded : Option String → Bool
is_bounded none = true
is_bounded (some text) = is_between 1 200 (text_length text)

abbrev is_delay : FaultAction → Bool
is_delay delay = true
is_delay _ = false

-- `[A-Z]` and `[A-Z0-9_]`.
abbrev is_capital : Char → Bool
is_capital c = is_between 65 90 (code c)

abbrev is_code_char : Char → Bool
is_code_char c = is_capital c || is_between 48 57 (code c) || code c == 95

abbrev all_code_chars : String → Bool
all_code_chars empty_text = true
all_code_chars (char_cons c text) = is_code_char c && all_code_chars text

-- `^[A-Z][A-Z0-9_]{0,63}$`.
unfoldable pub is_error_code : String → Bool
is_error_code empty_text = false
is_error_code (char_cons c text) = is_capital c && all_code_chars text && leb (text_length text) 63

-- The bounds of the fields.
unfoldable pub in_bounds : FaultRule → Bool
unfolding is_error_code
in_bounds rule =
    is_between 1 100 rule.invocations
    && is_between 1 100 rule.activate_on
    && leb rule.delay_seconds (seconds 30)
    && is_bounded rule.job_id
    && is_bounded rule.correlation_id
    && is_error_code rule.error_code
    && is_between 1 125 rule.exit_code
    && is_between 1 (seconds 30) rule.pause_timeout_seconds

-- `FaultRule.validate_action`.
unfoldable pub validate_action : FaultRule → Result Error FaultRule
validate_action rule =
    if ltb rule.invocations rule.activate_on
    then raised value_error
    else if is_delay rule.action && not (ltb 0 rule.delay_seconds)
    then raised value_error
    else if not (is_delay rule.action) && not (rule.delay_seconds == 0)
    then raised value_error
    else ok rule

-- A rule as it is built: its fields are tested, and then its action.
unfoldable pub check_rule : FaultRule → Result Error FaultRule
unfolding in_bounds validate_action
check_rule rule = if in_bounds rule then validate_action rule else raised value_error
