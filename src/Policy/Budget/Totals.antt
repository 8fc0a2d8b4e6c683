-- ===== src/Policy/Budget/Totals.antt =====
-- What a session's totals come to, turn after turn.
use agentops_open_course.Prelude.{
  ◌≤◌, ℕ, ◌+◌, ◌<◌, ◌≡◌, refl, sym, ap, ◌∙◌, arith, false, ltb, ℤ, pos, if◌then◌else◌, List, [],
  ◌∷◌, Option, none, some, Text, text_eq, All, subst,
}
use agentops_open_course.Policy.Budget.{
  add_int, UsageMetadata, SessionState, counts, state_int, session_usage, enforce_token_budget,
  record_usage, record_token_usage, admitted, exhausted, input_tokens_key, output_tokens_key,
}
use agentops_open_course.Policy.Budget.Arith.{
  Tokens, metadata, IsInt32, input, output, classified, turn_of_lem, add_int_pos,
}

module _ {F S : Type 0} where
  -- No write fails, a number below the bound is read back as that number, in whatever form, and a
  -- write changes nothing under another key.
  pub record IsKept (service : SessionState F S) (bound : ℕ) : Type 0 where
    pub accepted : (k : Text) (n : ℤ) (s : S) → (service.set k n s).0 ≡ false
    pub stored :
        (k : Text) (n : ℕ) (s : S)
        → n < bound
        → state_int service (service.set k (pos n) s).1 k ≡ counts (pos n)
    pub apart :
        (j k : Text) (n : ℤ) (s : S)
        → text_eq j k ≡ false
        → service.get j (service.set k n s).1 ≡ service.get j s

-- The tokens that a response counts for, and those of a conversation.
abbrev pub charge : Option Tokens → ℕ
charge none = 0
charge (some t) = if ltb (classified t) t.total then t.total else classified t

abbrev pub charges : List (Option Tokens) → ℕ
charges [] = 0
charges (t ∷ turns) = charge t + charges turns

abbrev pub Small : Option Tokens → Type 0
Small none = Unit {0}
Small (some t) = IsInt32 t

abbrev pub reported : Option Tokens → Option UsageMetadata
reported none = none
reported (some t) = some (metadata t)

charge_lem : (t : Tokens) → input t + output t ≡ charge (some t)
charge_lem t = ground arith

module _ {F S : Type 0} (service : SessionState F S) where
  -- The states that follow on the responses of a conversation.
  unfoldable pub record_turns : List (Option Tokens) → S → S
  record_turns [] s = s
  record_turns (t ∷ turns) s = record_turns turns (record_token_usage service (reported t) s).1

module _ {F S : Type 0} (service : SessionState F S) where
  state_int-get :
      (k : Text) (s s' : S)
      → service.get k s ≡ service.get k s'
      → state_int service s k ≡ state_int service s' k
  unfolding state_int
  state_int-get k s s' e = rw (state_int, e) refl

module _ {F S : Type 0} (service : SessionState F S) (bound : ℕ) (kept : IsKept service bound)
    (within : bound ≤ 0x8000_0000_0000_0000) where
  written :
      (m n : ℕ) (s : S)
      → m < bound
      → n < bound
      → session_usage service
          (service.set output_tokens_key (pos n) (service.set input_tokens_key (pos m) s).1).1
        ≡ counts (pos m, pos n)
  unfolding session_usage text_eq
  written m n s k l =
      let there = (service.set input_tokens_key (pos m) s).1 in
      rw
        (
          state_int-get service input_tokens_key (service.set output_tokens_key (pos n) there).1
              there (kept.apart input_tokens_key output_tokens_key (pos n) there refl),
          kept.stored input_tokens_key m s k,
          session_usage,
          kept.stored output_tokens_key n there l,
        )
        refl

  record_usage_lem :
      (t : Tokens) (a b : ℕ) (s : S)
      → IsInt32 t
      → a + b + charge (some t) < bound
      → session_usage service s ≡ counts (pos a, pos b)
      → session_usage service (record_usage service (metadata t) s).1
        ≡ counts (pos (a + input t), pos (b + output t))
  unfolding record_usage
  record_usage_lem t a b s i h e =
      let whole = charge_lem t in
      rw
        (
          e,
          record_usage,
          turn_of_lem t i,
          add_int_pos a (input t) (omega arith),
          add_int_pos b (output t) (omega arith),
        )
        (written (a + input t) (b + output t) s (omega arith) (omega arith))

  totals :
      (turns : List (Option Tokens)) (a b : ℕ) (s : S)
      → All Small turns
      → a + b + charges turns < bound
      → session_usage service s ≡ counts (pos a, pos b)
      → (i : ℕ) × (o : ℕ) × (session_usage service (record_turns service turns s)
          ≡ counts (pos i, pos o))
        × (i + o ≡ a + b + charges turns)
  unfolding record_turns record_token_usage
  totals [] a b s small h e = (a, b, e, omega arith)
  totals (none ∷ turns) a b s (_, small) h e =
      let (i, o, f, g) = totals turns a b s small (ground (arith, h)) e in
      (i, o, f, ground (arith, g))
  totals (some t ∷ turns) a b s (one, small) h e =
      let whole = charge_lem t in
      let rest : a + input t + (b + output t) + charges turns
          ≡ a + b + (charge (some t) + charges turns) =
        omega arith in
      let (i, o, f, g) =
        totals turns (a + input t) (b + output t) (record_usage service (metadata t) s).1 small
          (subst (λ n. n < bound) (sym rest) h) (record_usage_lem t a b s one (omega arith) e) in
      (i, o, f, g ∙ rest)

  -- Over a session service whose writes never fail and change nothing under another key, and that
  -- reads each number below a bound back as the number written, in whatever form; with a bound within
  -- an `int`, counts that are not negative, a total below the bound and responses whose counts are
  -- `int32`: after any responses, a call is admitted exactly while the tokens of the session are fewer
  -- than its budget, and each response counts for the larger of the total that it reports and the sum
  -- of its parts, and one without usage metadata for nothing.
  pub enforce_token_budget_lem :
      (turns : List (Option Tokens)) (a b limit : ℕ) (s : S)
      → All Small turns
      → a + b + charges turns < bound
      → session_usage service s ≡ counts (pos a, pos b)
      → enforce_token_budget service (some (pos limit)) (record_turns service turns s) ≡ (
          if ltb (a + b + charges turns) limit
          then admitted
          else exhausted (pos (a + b + charges turns)) (pos limit))
  unfolding enforce_token_budget
  enforce_token_budget_lem turns a b limit s small h e =
      let (i, o, f, g) = totals turns a b s small h e in
      let sum : add_int (pos i) (pos o) ≡ pos (a + b + charges turns) =
        add_int_pos i o (omega arith) ∙ ap pos g in
      rw (f, enforce_token_budget, sum) (ground arith)
