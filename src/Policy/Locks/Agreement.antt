-- ===== src/Policy/Locks/Agreement.antt =====
-- How the entries of the registry agree with what the callbacks refer to.
use agentops_open_course.Prelude.{
  ℕ, ◌+◌, ◌-◌, ◌<◌, ◌==◌, ==_iff, ◌≡◌, ◌≢◌, ◌↔◌, ◌⊎◌, ◌∙◌, inl, inr, refl, subst, sym, ap, arith,
  true, false, Bool-cases, Option, none, some, if◌then◌else◌, text_eq_iff,
}
use agentops_open_course.Policy.Locks.{
  SessionKey, same_key, update, set_lock, Place, outside, waiting, inside, leaving,
}
use agentops_open_course.Policy.Locks.Counts.{
  reference, is_entry, refers, count, count-update, count-positive, count-zero,
}

same_key_iff : (a b : SessionKey) → (same_key a b ≡ true) ↔ (a ≡ b)
same_key_iff a b = ground (
  arith,
  text_eq_iff a.app_name b.app_name,
  text_eq_iff a.user_id b.user_id,
  text_eq_iff a.session_id b.session_id,
)

-- The references of the callbacks, the entries of the map and their counts agree.
pub record Agrees (n : ℕ) (locks : SessionKey → Option ℕ) (refs : ℕ → ℕ) (next : ℕ)
    (place : ℕ → Place) : Type 0 where
  pub registered :
      (i : ℕ) (k : SessionKey) (e : ℕ) → reference (place i) ≡ some (k, e) → locks k ≡ some e
  pub below : (i : ℕ) (k : SessionKey) (e : ℕ) → reference (place i) ≡ some (k, e) → i < n
  pub one_key : (k k' : SessionKey) (e : ℕ) → locks k ≡ some e → locks k' ≡ some e → k ≡ k'
  pub allocated : (k : SessionKey) (e : ℕ) → locks k ≡ some e → e < next
  pub counted : (e : ℕ) → refs e ≡ count place e n
  pub needed : (k : SessionKey) (e : ℕ) → locks k ≡ some e → 0 < refs e

pub refers-reference :
    (p : Place) (k : SessionKey) (e : ℕ) → reference p ≡ some (k, e) → refers e p ≡ true
refers-reference outside k e h = ground (arith, h)
refers-reference (waiting k' e') k e h = let s : e' ≡ e = cc in ground (arith, s)
refers-reference (inside k' e') k e h = let s : e' ≡ e = cc in ground (arith, s)
refers-reference (leaving k' e') k e h = let s : e' ≡ e = cc in ground (arith, s)

pub reference-refers :
    (p : Place) (e : ℕ) → refers e p ≡ true → (k : SessionKey) × (reference p ≡ some (k, e))
reference-refers outside e h = absurd (cc)
reference-refers (waiting k e') e h = (k, rw ((==_iff e' e).0 h) refl)
reference-refers (inside k e') e h = (k, rw ((==_iff e' e).0 h) refl)
reference-refers (leaving k e') e h = (k, rw ((==_iff e' e).0 h) refl)

same-refers : (p q : Place) (e : ℕ) → reference p ≡ reference q → refers e p ≡ refers e q
same-refers p q e h = ap (is_entry e) h

set_lock-cases :
    (locks : SessionKey → Option ℕ) (key : SessionKey) (entry : Option ℕ) (k : SessionKey) (e : ℕ)
    → set_lock locks key entry k ≡ some e
    → ((k ≡ key) × (entry ≡ some e)) ⊎ ((same_key k key ≡ false) × (locks k ≡ some e))
set_lock-cases locks key entry k e h = elim (Bool-cases (same_key k key)) [
  | inl s ↦ inl ((same_key_iff k key).0 s, rw s at h)
  | inr s ↦ inr (s, rw s at h)
]

module _ (n : ℕ) (locks : SessionKey → Option ℕ) (refs : ℕ → ℕ) (next : ℕ) (place : ℕ → Place)
    (i : ℕ) (bound : i < n) (a : Agrees n locks refs next place) where
  pub update-reference :
      (q : Place) (j : ℕ) (k : SessionKey) (e : ℕ)
      → reference (update place i q j) ≡ some (k, e)
      → ((j ≡ i) × (reference q ≡ some (k, e))) ⊎ ((j ≢ i) × (reference (place j) ≡ some (k, e)))
  update-reference q j k e h = elim (Bool-cases (j == i)) [
    | inl s ↦ inl ((==_iff j i).0 s, rw s at h)
    | inr s ↦ inr ((λ x. ground (arith, s, x)), rw s at h)
  ]

  pub moved-Agrees :
      (q : Place) → reference q ≡ reference (place i) → Agrees n locks refs next (update place i q)
  moved-Agrees q same = record {
    registered = λ j k e h. elim (update-reference q j k e h) [
      | inl (s, x) ↦ a.registered i k e (sym same ∙ x)
      | inr (s, x) ↦ a.registered j k e x
    ];
    below = λ j k e h. elim (update-reference q j k e h) [
      | inl (s, x) ↦ omega (arith, bound, s)
      | inr (s, x) ↦ a.below j k e x
    ];
    one_key = a.one_key;
    allocated = a.allocated;
    counted = λ e.
        let r = same-refers q (place i) e same in
        omega (arith, a.counted e, rw r at (count-update place e i q n bound));
    needed = a.needed;
  }

  pub join-Agrees :
      (key : SessionKey) (e : ℕ)
      → place i ≡ outside
      → locks key ≡ some e
      → Agrees n locks (update refs e (refs e + 1)) next (update place i (waiting key e))
  join-Agrees key e p here = record {
    registered = λ j k e' h. elim (update-reference (waiting key e) j k e' h) [
      | inl (s, x) ↦ let sk : key ≡ k = cc in let se : e ≡ e' = cc in rw (sym sk, sym se) here
      | inr (s, x) ↦ a.registered j k e' x
    ];
    below = λ j k e' h. elim (update-reference (waiting key e) j k e' h) [
      | inl (s, x) ↦ omega (arith, bound, s)
      | inr (s, x) ↦ a.below j k e' x
    ];
    one_key = a.one_key;
    allocated = a.allocated;
    counted = λ e'.
        let c = count-update place e' i (waiting key e) n bound in
        let c' = rw p at c in ground (arith, c', a.counted e', a.counted e);
    needed = λ k e' h. ground (arith, a.needed k e' h);
  }

  pub create-Agrees :
      (key : SessionKey)
      → place i ≡ outside
      → locks key ≡ none
      → Agrees n
          (set_lock locks key (some next))
          (update refs next 1)
          (next + 1)
          (update place i (waiting key next))
  create-Agrees key p absent =
      let fresh : count place next n ≡ 0 = count-zero place next n (λ j.
        elim (Bool-cases (refers next (place j))) [
          | inl r ↦
              let (k, x) = reference-refers (place j) next r in
              absurd (omega (arith, a.allocated k next (a.registered j k next x)))
          | inr r ↦ r
        ]) in
      record {
        registered = λ j k e h. elim (update-reference (waiting key next) j k e h) [
          | inl (s, x) ↦
              let sk : key ≡ k = cc in
              let se : next ≡ e = cc in rw (sym sk, sym se, (same_key_iff key key).1 refl) refl
          | inr (s, x) ↦
              let l = a.registered j k e x in
              elim (Bool-cases (same_key k key)) [
                | inl m ↦
                    let bad : locks key ≡ some e =
                      subst (λ t. locks t ≡ some e) ((same_key_iff k key).0 m) l in
                    absurd (cc)
                | inr m ↦ rw m l
              ]
        ];
        below = λ j k e h. elim (update-reference (waiting key next) j k e h) [
          | inl (s, x) ↦ omega (arith, bound, s)
          | inr (s, x) ↦ a.below j k e x
        ];
        one_key = λ k k' e h h'. elim (set_lock-cases locks key (some next) k e h) [
          | inl (s, x) ↦ elim (set_lock-cases locks key (some next) k' e h') [
            | inl (s', x') ↦ s ∙ sym s'
            | inr (m', l') ↦
                let eq : next ≡ e = cc in absurd (omega (arith, a.allocated k' e l', eq))
          ]
          | inr (m, l) ↦ elim (set_lock-cases locks key (some next) k' e h') [
            | inl (s', x') ↦ let eq : next ≡ e = cc in absurd (omega (arith, a.allocated k e l, eq))
            | inr (m', l') ↦ a.one_key k k' e l l'
          ]
        ];
        allocated = λ k e h. elim (set_lock-cases locks key (some next) k e h) [
          | inl (s, x) ↦ let eq : next ≡ e = cc in omega (arith, eq)
          | inr (m, l) ↦ omega (arith, a.allocated k e l)
        ];
        counted = λ e.
            let c = count-update place e i (waiting key next) n bound in
            let c' = rw p at c in ground (arith, c', a.counted e, fresh);
        needed = λ k e h. elim (set_lock-cases locks key (some next) k e h) [
          | inl (s, x) ↦ let eq : next ≡ e = cc in ground (arith, eq)
          | inr (m, l) ↦ ground (arith, a.needed k e l)
        ];
      }

  pub finish-Agrees :
      (key : SessionKey) (e : ℕ)
      → place i ≡ leaving key e
      → Agrees n
          (if refs e - 1 == 0 then set_lock locks key none else locks)
          (update refs e (refs e - 1))
          next
          (update place i outside)
  finish-Agrees key e p =
      let here : locks key ≡ some e = a.registered i key e (rw p refl) in
      let kept : (k : SessionKey) (e' : ℕ)
          → (if refs e - 1 == 0 then set_lock locks key none else locks) k ≡ some e'
          → (locks k ≡ some e') × ((k ≡ key) → (refs e - 1 == 0) ≡ false) =
        λ k e' h. elim (Bool-cases (refs e - 1 == 0)) [
          | inr z ↦ (rw z at h, λ s. z)
          | inl z ↦ elim (set_lock-cases locks key none k e' (rw z at h)) [
            | inl (s, x) ↦ absurd (cc)
            | inr (m, l) ↦ (l, λ s. absurd (ground (arith, m, (same_key_iff k key).1 s)))
          ]
        ] in
      let fewer : count (update place i outside) e n ≡ refs e - 1 =
        let c = count-update place e i outside n bound in
        let c' = rw p at c in ground (arith, c', a.counted e) in
      record {
        registered = λ j k e' h. elim (update-reference outside j k e' h) [
          | inl (s, x) ↦ absurd (cc)
          | inr (s, x) ↦
              let l = a.registered j k e' x in
              elim (Bool-cases (refs e - 1 == 0)) [
                | inr z ↦ rw z l
                | inl z ↦ elim (Bool-cases (same_key k key)) [
                  | inr m ↦ rw (z, m) l
                  | inl m ↦
                      let l' : locks key ≡ some e' =
                        subst (λ t. locks t ≡ some e') ((same_key_iff k key).0 m) l in
                      let se : e' ≡ e = cc in
                      let r : refers e (update place i outside j) ≡ true =
                        refers-reference (update place i outside j) k e (rw (sym se) h) in
                      absurd (
                        omega (
                          arith,
                          fewer,
                          (==_iff (refs e - 1) 0).0 z,
                          count-positive (update place i outside) e j n (a.below j k e' x) r,
                        ))
                ]
              ]
        ];
        below = λ j k e' h. elim (update-reference outside j k e' h) [
          | inl (s, x) ↦ absurd (cc)
          | inr (s, x) ↦ a.below j k e' x
        ];
        one_key = λ k k' e' h h'. a.one_key k k' e' (kept k e' h).0 (kept k' e' h').0;
        allocated = λ k e' h. a.allocated k e' (kept k e' h).0;
        counted = λ e'.
            let c = count-update place e' i outside n bound in
            let c' = rw p at c in ground (arith, c', a.counted e', a.counted e);
        needed = λ k e' h.
            let (l, more) = kept k e' h in
            elim (Bool-cases (e' == e)) [
              | inr m ↦ rw m (a.needed k e' l)
              | inl m ↦
                  let same : k ≡ key =
                    a.one_key k key e' l (rw (sym ((==_iff e' e).0 m)) at here) in
                  let z = more same in rw m (ground (arith, z))
            ];
      }
