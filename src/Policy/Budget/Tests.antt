-- ===== src/Policy/Budget/Tests.antt =====
-- A conversation that runs out of its budget.
use agentops_open_course.Prelude.{
  arith, ◌≡◌, refl, false, if◌then◌else◌, [], ◌∷◌, none, some, Text, text_eq, text_eq_self, pos,
}
use agentops_open_course.Policy.Budget.{
  float_value, ℕ, ℤ, Fetched, missing, found, SessionState, counts, state_int, session_usage,
  enforce_token_budget, exhausted,
}
use agentops_open_course.Policy.Budget.Arith.{Tokens, IsInt32}
use agentops_open_course.Policy.Budget.Totals.{IsKept, record_turns, enforce_token_budget_lem}

-- A state that hands each number back as a float, as one that has been through JSON; a float is
-- here the integer that it stands for, and below 2^53 each is exact.
abbrev Memory : Type 0
Memory = Text → Fetched ℤ

abbrev memory : SessionState ℤ Memory
memory = record {
  get = λ k s. s k;
  set = λ k n s. (false, λ j. if text_eq j k then found (float_value n) else s j);
  truncate = λ n. n;
  parse_number = λ _. none;
  parse_string = λ _. none;
}

abbrev exact_floats : ℕ
exact_floats = 0x20_0000_0000_0000

memory-IsKept : IsKept memory exact_floats
unfolding state_int
memory-IsKept = record {
  accepted = λ k n s. refl;
  stored = λ k n s h. rw (state_int, text_eq_self k) refl;
  apart = λ j k n s h. rw h refl;
}

abbrev new_session : Memory
new_session = λ _. missing

new_session_usage : session_usage memory new_session ≡ counts (pos 0, pos 0)
unfolding session_usage state_int
new_session_usage = refl

abbrev question : Tokens
question = record { prompt = 100; tool_use = 0; candidates = 20; thoughts = 0; total = 120 }

-- Its parts are fewer than its total.
abbrev answer : Tokens
answer = record { prompt = 10; tool_use = 0; candidates = 5; thoughts = 0; total = 40 }

question-IsInt32 : IsInt32 question
question-IsInt32 = record {
  prompt = omega arith;
  tool_use = omega arith;
  candidates = omega arith;
  thoughts = omega arith;
  total = omega arith;
}

answer-IsInt32 : IsInt32 answer
answer-IsInt32 = record {
  prompt = omega arith;
  tool_use = omega arith;
  candidates = omega arith;
  thoughts = omega arith;
  total = omega arith;
}

enforce_token_budget_lem_example :
    enforce_token_budget memory
      (some (pos 150))
      (record_turns memory (some question ∷ none ∷ some answer ∷ []) new_session)
    ≡ exhausted (pos 160) (pos 150)
enforce_token_budget_lem_example =
    enforce_token_budget_lem memory exact_floats memory-IsKept (omega arith)
      (some question ∷ none ∷ some answer ∷ []) 0 0 150 new_session
      (question-IsInt32, (tt, (answer-IsInt32, tt))) (omega arith) new_session_usage
