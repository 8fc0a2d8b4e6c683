-- ===== src/Tools/Action/Safety.antt =====
-- What an action needs, and what it does.
use agentops_open_course.Prelude.{
  ℕ, ◌≤◌, ◌≡◌, ◌≢◌, ◌↔◌, ◌⊎◌, inl, inr, refl, ap, arith, Bool, true, false, not, List, [], ◌∷◌,
  Option, none, some, Text, text_eq, text_eq_iff, text_ne, text_eq_ne, text_eq_self, leb, leb→le,
  length,
}
use agentops_open_course.Domain.Record.{max_audit_rationale_length}
use agentops_open_course.Data.Transaction.{AuditIdentity}
use agentops_open_course.Tools.Principal.{Boundary, network}
use agentops_open_course.Tools.Approval.{
  Tools, Context, Confirmation, Refusal, Label, Checked, passed, ◌>>=◌, ◌>>◌, required, guard,
  none_missing, owns, no_context, not_confirmed, no_rationale, too_long, redacted_too_long, trimmed,
  rationale_from, missing_identities, fits_rationale, identity_of, validated_approval,
}

-- A human's approval of a call: confirmed, with the three identities, by the principal that the
-- request has been authenticated as if it came over the network, and with a rationale that fits, before
-- and after its redaction.
pub record Authorized (t : Tools) (c : Context) (k : Confirmation) : Type 0 where
  pub confirmation : c.confirmation ≡ some k
  pub confirmed : k.confirmed ≡ true
  pub approver : trimmed t c.user_id ≢ []
  pub session : trimmed t c.session_id ≢ []
  pub invocation : trimmed t c.invocation_id ≢ []
  pub owner : (c.boundary ≡ none) ⊎ (c.boundary ≡ some (trimmed t c.user_id))
  pub rationale : rationale_from t k.payload ≢ []
  pub fits : length (rationale_from t k.payload) ≤ max_audit_rationale_length
  pub redacted_fits : length (t.redact (rationale_from t k.payload)) ≤ max_audit_rationale_length

module _ {ℓ} {B : Type ℓ} where
  required-passed :
      {A : Type 0} (o : Option A) (r : Refusal) (f : A → Checked B) (b : B)
      → (required o r >>= f) ≡ passed b
      → (a : A) × (o ≡ some a) × (f a ≡ passed b)
  required-passed none r f b h = absurd (ground (arith, h))
  required-passed (some a) r f b h = (a, refl, h)

  guard-passed :
      (test : Bool) (r : Refusal) (rest : Checked B) (b : B)
      → (guard test r >> rest) ≡ passed b
      → (test ≡ true) × (rest ≡ passed b)
  guard-passed true r rest b h = (refl, h)
  guard-passed false r rest b h = absurd (ground (arith, h))

  none_missing-passed :
      (ls : List Label) (rest : Checked B) (b : B)
      → (none_missing ls >> rest) ≡ passed b
      → (ls ≡ []) × (rest ≡ passed b)
  none_missing-passed [] rest b h = (refl, h)
  none_missing-passed (l ∷ ls) rest b h = absurd (ground (arith, h))

  owns-passed :
      (boundary : Boundary) (name : Text) (rest : Checked B) (b : B)
      → (owns (network boundary) name >> rest) ≡ passed b
      → ((boundary ≡ none) ⊎ (boundary ≡ some name)) × (rest ≡ passed b)
  unfolding owns network
  owns-passed none name rest b h = (inl refl, h)
  owns-passed (some []) name rest b h = absurd (ground (arith, h))
  owns-passed (some (c ∷ s)) name rest b h =
      let (same, r) = guard-passed (text_eq (c ∷ s) name) _ rest b h in
      (inr (ap some ((text_eq_iff (c ∷ s) name).0 same)), r)

missing-none :
    (t : Tools) (c : Context)
    → missing_identities t c ≡ []
    → (trimmed t c.user_id ≢ []) × (trimmed t c.session_id ≢ []) × (trimmed t c.invocation_id ≢ [])
unfolding missing_identities
missing-none t c h = ground (
  arith,
  h,
  text_eq_iff (trimmed t c.user_id) [],
  text_eq_iff (trimmed t c.session_id) [],
  text_eq_iff (trimmed t c.invocation_id) [],
)

none-missing :
    (t : Tools) (c : Context)
    → trimmed t c.user_id ≢ []
    → trimmed t c.session_id ≢ []
    → trimmed t c.invocation_id ≢ []
    → missing_identities t c ≡ []
unfolding missing_identities
none-missing t c a b d =
    rw
      (
        text_eq_ne (trimmed t c.user_id) [] a,
        text_eq_ne (trimmed t c.session_id) [] b,
        text_eq_ne (trimmed t c.invocation_id) [] d,
      )
      refl

pub approval-Authorized :
    (t : Tools) (context : Option Context) (identity : AuditIdentity)
    → validated_approval t context ≡ passed identity
    → (c : Context) × (k : Confirmation) × (context ≡ some c)
      × Authorized t c k
      × (identity ≡ identity_of t c k)
unfolding validated_approval
approval-Authorized t context identity h =
    let (c, e0, h0) = required-passed context no_context _ identity h in
    let (k, e1, h1) = required-passed c.confirmation not_confirmed _ identity h0 in
    let (e2, h2) = guard-passed k.confirmed not_confirmed _ identity h1 in
    let (e3, h3) = none_missing-passed (missing_identities t c) _ identity h2 in
    let (e4, h4) = owns-passed c.boundary (trimmed t c.user_id) _ identity h3 in
    let (e5, h5) =
      guard-passed (not (text_eq (rationale_from t k.payload) [])) no_rationale _ identity h4 in
    let (e6, h6) =
      guard-passed (fits_rationale (rationale_from t k.payload)) too_long _ identity h5 in
    let (e7, h7) =
      guard-passed (fits_rationale (t.redact (rationale_from t k.payload))) redacted_too_long _
        identity h6 in
    let (a, b, d) = missing-none t c e3 in
    (
      c,
      k,
      e0,
      record {
        confirmation = e1;
        confirmed = e2;
        approver = a;
        session = b;
        invocation = d;
        owner = e4;
        rationale = text_ne (rationale_from t k.payload) [] (ground (arith, e5));
        fits = leb→le (length (rationale_from t k.payload)) max_audit_rationale_length e6;
        redacted_fits =
            leb→le (length (t.redact (rationale_from t k.payload))) max_audit_rationale_length e7;
      },
      cc,
    )

leb-le : (a b : ℕ) → a ≤ b → leb a b ≡ true
leb-le a b h = ground arith

owned-passed :
    (boundary : Boundary) (name : Text)
    → name ≢ []
    → (boundary ≡ none) ⊎ (boundary ≡ some name)
    → owns (network boundary) name ≡ passed tt
unfolding owns network
owned-passed boundary name n (inl e) = rw e refl
owned-passed boundary [] n (inr e) = absurd (n refl)
owned-passed boundary (c ∷ s) n (inr e) = rw (e, text_eq_self (c ∷ s)) refl

pub Authorized-approval :
    (t : Tools) (c : Context) (k : Confirmation)
    → Authorized t c k
    → validated_approval t (some c) ≡ passed (identity_of t c k)
unfolding validated_approval
Authorized-approval t c k a =
    rw
      (
        a.confirmation,
        a.confirmed,
        none-missing t c a.approver a.session a.invocation,
        owned-passed c.boundary (trimmed t c.user_id) a.approver a.owner,
        text_eq_ne (rationale_from t k.payload) [] a.rationale,
        leb-le (length (rationale_from t k.payload)) max_audit_rationale_length a.fits,
        leb-le (length (t.redact (rationale_from t k.payload))) max_audit_rationale_length
            a.redacted_fits,
      )
      refl

-- An approval is accepted exactly when a human has confirmed the call, all three identities are there,
-- a request that came over the network was authenticated as its approver, and the rationale is
-- not blank and has at most 500 characters before and after its redaction; and it then names
-- that approver and that redacted rationale.
pub validated_approval_iff :
    (t : Tools) (context : Option Context) (identity : AuditIdentity)
    → (validated_approval t context ≡ passed identity) ↔ (
        (c : Context) × (k : Confirmation) × (context ≡ some c)
        × Authorized t c k
        × (identity ≡ identity_of t c k))
validated_approval_iff t context identity = (
  approval-Authorized t context identity,
  λ (c, k, e, a, i). rw (e, i) (Authorized-approval t c k a),
)
