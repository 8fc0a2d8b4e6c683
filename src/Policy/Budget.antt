-- ===== src/Policy/Budget.antt =====
-- agents/go/policy/budget.go: the tokens that a session has used, and the refusal of a call past its
-- budget. The session state is a parameter; what it hands back may have been through JSON. The lock
-- of a session makes each of these functions one step of it. Prices and the recorder are left out.
pub mod Arith
pub mod Totals
mod Tests
use agentops_open_course.Prelude.{
  ◌%◌, ◌^◌, ℕ, ◌+◌, ◌-◌, ◌==◌, Bool, true, false, ◌||◌, Option, none, some, if◌then◌else◌, Text,
  codes, ℤ, pos, negsuc, ltb_ℤ, ltb,
}

-- An `int` of 64 bits, and back.
abbrev pub bits : ℤ → ℕ
bits (pos n) = n
bits (negsuc n) = 0xffff_ffff_ffff_ffff - n

abbrev pub from_bits : ℕ → ℤ
from_bits w = if ltb w 0x8000_0000_0000_0000 then pos w else negsuc (0xffff_ffff_ffff_ffff - w)

unfoldable pub wrap : ℕ → ℤ
wrap w = from_bits (w % 0x1_0000_0000_0000_0000)

unfoldable pub add_int : ℤ → ℤ → ℤ
unfolding wrap
add_int a b = wrap (bits a + bits b)

unfoldable pub sub_int : ℤ → ℤ → ℤ
unfolding wrap
sub_int a b = wrap (bits a + (0x1_0000_0000_0000_0000 - bits b))

-- `max(a - b, 0)`.
unfoldable pub excess : ℤ → ℤ → ℤ
unfolding sub_int
excess a b = let rest = sub_int a b in if ltb_ℤ rest (pos 0) then pos 0 else rest

abbrev is_zero : ℤ → Bool
is_zero (pos n) = n == 0
is_zero (negsuc n) = false

-- What a session's state holds under a key: `int`, `int32` and `int64`, a float, a number of JSON, a
-- string, or something else.
pub data Value (F : Type 0) : Type 0 where
  int_value : ℤ → Value F
  float_value : F → Value F
  number_value string_value : Text → Value F
  other_value : Value F

pub data Fetched (F : Type 0) : Type 0 where
  missing : Fetched F
  found : Value F → Fetched F
  unreachable : Fetched F

-- The session service, and Go's conversions of numbers.
pub record SessionState (F S : Type 0) : Type 0 where
  pub get : Text → S → Fetched F
  pub set : Text → ℤ → S → Bool × S
  pub truncate : F → ℤ
  pub parse_number : Text → Option ℤ
  pub parse_string : Text → Option ℤ

pub data Counted {ℓ} (A : Type ℓ) : Type ℓ where
  counts : A → Counted A
  uncountable : Counted A

abbrev parsed : Option ℤ → Counted ℤ
parsed none = uncountable
parsed (some n) = counts n

abbrev pub input_tokens_key : Text
input_tokens_key = codes "budget:input_tokens"

abbrev pub output_tokens_key : Text
output_tokens_key = codes "budget:output_tokens"

pub record UsageMetadata : Type 0 where
  pub prompt_token_count : ℤ
  pub tool_use_prompt_token_count : ℤ
  pub candidates_token_count : ℤ
  pub thoughts_token_count : ℤ
  pub total_token_count : ℤ

-- The input and the output of one turn.
unfoldable pub turn_of : UsageMetadata → ℤ × ℤ
turn_of u =
    let turn_input = add_int u.prompt_token_count u.tool_use_prompt_token_count in
    let turn_output = add_int u.candidates_token_count u.thoughts_token_count in
    let classified = add_int turn_input turn_output in
    let total = if is_zero u.total_token_count then classified else u.total_token_count in
    (turn_input, add_int turn_output (excess total classified))

pub data Verdict : Type 0 where
  admitted unreadable_budget : Verdict
  exhausted : ℤ → ℤ → Verdict

module _ {F S : Type 0} (service : SessionState F S) where
  abbrev int_of : Value F → Counted ℤ
  int_of (int_value n) = counts n
  int_of (float_value f) = counts (service.truncate f)
  int_of (number_value t) = parsed (service.parse_number t)
  int_of (string_value t) = parsed (service.parse_string t)
  int_of other_value = uncountable

  unfoldable pub state_int : S → Text → Counted ℤ
  state_int s key = elim (service.get key s) [
    | missing ↦ counts (pos 0)
    | found v ↦ int_of v
    | unreachable ↦ uncountable
  ]

  unfoldable pub session_usage : S → Counted (ℤ × ℤ)
  session_usage s = elim (state_int s input_tokens_key) [
    | uncountable ↦ uncountable
    | counts i ↦ elim (state_int s output_tokens_key) [
      | uncountable ↦ uncountable
      | counts o ↦ counts (i, o)
    ]
  ]

  unfoldable pub enforce_token_budget : Option ℤ → S → Verdict
  enforce_token_budget none s = admitted
  enforce_token_budget (some limit) s = elim (session_usage s) [
    | uncountable ↦ unreadable_budget
    | counts (i, o) ↦
        let used = add_int i o in if ltb_ℤ used limit then admitted else exhausted used limit
  ]

  -- A turn's usage: the state that is left, and whether an error is returned.
  unfoldable pub record_usage : UsageMetadata → S → Bool × S
  record_usage u s = elim (session_usage s) [
    | uncountable ↦ (true, s)
    | counts (i, o) ↦
        let (e, s1) = service.set input_tokens_key (add_int i (turn_of u).0) s in
        let (e', s2) = service.set output_tokens_key (add_int o (turn_of u).1) s1 in (e || e', s2)
  ]

  -- What `RecordTokenUsage` reads of its arguments: the usage metadata of a response that is there and
  -- came without an error.
  unfoldable pub record_token_usage : Option UsageMetadata → S → Bool × S
  record_token_usage none s = (false, s)
  record_token_usage (some u) s = record_usage u s
