-- ===== src/Policy/Budget/Arith.antt =====
-- The arithmetic of token counts that are not negative and stay within an `int`.
use agentops_open_course.Prelude.{
  ℕ, ◌+◌, ◌-◌, ◌<◌, ◌==◌, ◌≡◌, refl, ap, arith, Bool-cases, inl, inr, ◌≤◌, ltb, pos, negsuc,
  if◌then◌else◌, ◌%◌,
}
use agentops_open_course.Policy.Budget.{wrap, add_int, excess, turn_of, UsageMetadata}

wrap_small : (n : ℕ) → n < 0x8000_0000_0000_0000 → wrap n ≡ pos n
unfolding wrap
wrap_small n h = let m : n % 0x1_0000_0000_0000_0000 ≡ n = omega arith in rw m (ground (arith, h))

pub add_int_pos : (a b : ℕ) → a + b < 0x8000_0000_0000_0000 → add_int (pos a) (pos b) ≡ pos (a + b)
unfolding add_int
add_int_pos a b h = wrap_small (a + b) h

wrap_negative :
    (n : ℕ)
    → 0x8000_0000_0000_0000 ≤ n
    → n < 0x1_0000_0000_0000_0000
    → wrap n ≡ negsuc (0xffff_ffff_ffff_ffff - n)
unfolding wrap
wrap_negative n h k =
    let m : n % 0x1_0000_0000_0000_0000 ≡ n = omega arith in rw m (ground (arith, h))

wrap_over :
    (a b : ℕ)
    → b ≤ a
    → a < 0x8000_0000_0000_0000
    → b < 0x8000_0000_0000_0000
    → wrap (a + (0x1_0000_0000_0000_0000 - b)) ≡ pos (a - b)
unfolding wrap
wrap_over a b l h k =
    let m : (a + (0x1_0000_0000_0000_0000 - b)) % 0x1_0000_0000_0000_0000 ≡ a - b = omega arith in
    rw m (ground (arith, h))

-- The excess of `a` over `b`.
excess_pos :
    (a b : ℕ)
    → a < 0x8000_0000_0000_0000
    → b < 0x8000_0000_0000_0000
    → excess (pos a) (pos b) ≡ pos (a - b)
unfolding excess
excess_pos a b h k = elim (Bool-cases (ltb a b)) [
  | inl l ↦
      let below : a < b = ground (arith, l) in
      let zero : a - b ≡ 0 = omega arith in
      rw
        (
          excess,
          wrap_negative (a + (0x1_0000_0000_0000_0000 - b)) (omega arith) (omega arith),
          zero,
        )
        (ground arith)
  | inr g ↦
      let above : b ≤ a = ground (arith, g) in
      let m : wrap (a + (0x1_0000_0000_0000_0000 - b)) ≡ pos (a - b) = wrap_over a b above h k in
      rw (excess, m) (ground arith)
]

-- A turn's tokens, of which none is negative.
pub record Tokens : Type 0 where
  pub prompt : ℕ
  pub tool_use : ℕ
  pub candidates : ℕ
  pub thoughts : ℕ
  pub total : ℕ

abbrev pub metadata : Tokens → UsageMetadata
metadata t = record {
  prompt_token_count = pos t.prompt;
  tool_use_prompt_token_count = pos t.tool_use;
  candidates_token_count = pos t.candidates;
  thoughts_token_count = pos t.thoughts;
  total_token_count = pos t.total;
}

-- Each count is an `int32`.
pub record IsInt32 (t : Tokens) : Type 0 where
  pub prompt : t.prompt < 0x8000_0000
  pub tool_use : t.tool_use < 0x8000_0000
  pub candidates : t.candidates < 0x8000_0000
  pub thoughts : t.thoughts < 0x8000_0000
  pub total : t.total < 0x8000_0000

abbrev pub input : Tokens → ℕ
input t = t.prompt + t.tool_use

-- The tokens that are of a kind.
abbrev pub classified : Tokens → ℕ
classified t = t.prompt + t.tool_use + (t.candidates + t.thoughts)

abbrev pub output : Tokens → ℕ
output t = t.candidates + t.thoughts + (t.total - classified t)

total_lem :
    (t : Tokens)
    → IsInt32 t
    → excess (if t.total == 0 then pos (classified t) else pos t.total) (pos (classified t))
      ≡ pos (t.total - classified t)
total_lem t i = elim (Bool-cases (t.total == 0)) [
  | inl z ↦
      let none_left : t.total - classified t ≡ 0 = ground (arith, z) in
      let same : classified t - classified t ≡ 0 = omega arith in
      rw (z, excess_pos (classified t) (classified t) (small t i) (small t i), none_left, same) refl
  | inr n ↦ rw n (excess_pos t.total (classified t) (let e = i.total in omega arith) (small t i))
]
  where
    small : (u : Tokens) → IsInt32 u → classified u < 0x8000_0000_0000_0000
    small u k =
        let a = k.prompt in
        let b = k.tool_use in let c = k.candidates in let d = k.thoughts in omega arith

pub turn_of_lem : (t : Tokens) → IsInt32 t → turn_of (metadata t) ≡ (pos (input t), pos (output t))
unfolding turn_of
turn_of_lem t i =
    let a = i.prompt in
    let b = i.tool_use in
    let c = i.candidates in
    let d = i.thoughts in
    let e = i.total in
    rw
      (
        turn_of,
        add_int_pos t.prompt t.tool_use (omega arith),
        add_int_pos t.candidates t.thoughts (omega arith),
        add_int_pos (t.prompt + t.tool_use) (t.candidates + t.thoughts) (omega arith),
        total_lem t i,
      )
      (ap (λ o. (pos (input t), o))
        (add_int_pos (t.candidates + t.thoughts) (t.total - classified t) (omega arith)))
