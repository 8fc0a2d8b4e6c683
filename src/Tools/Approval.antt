-- ===== src/Tools/Approval.antt =====
-- agents/go/tools/action.go: validatedApproval, which decides whether a human has approved an action,
-- and the identity that the audit entry records.
use agentops_open_course.Prelude.{
  Bool, true, false, not, List, [], ◌∷◌, ◌++◌, Option, none, some, if◌then◌else◌, Text, codes,
  text_eq, leb, length,
}
use agentops_open_course.Domain.Identifier.{Unicode, trim_space}
use agentops_open_course.Domain.Record.{max_audit_rationale_length}
use agentops_open_course.Data.Transaction.{AuditIdentity}
use agentops_open_course.Tools.Principal.{
  NetworkState, not_network, network_unauthenticated, network_authenticated, Boundary, network,
}

-- The value under `rationale` of a payload: nil or missing, a string, or what `fmt.Sprint` prints.
pub data RationaleValue : Type 0 where
  nil : RationaleValue
  string printed : Text → RationaleValue

-- The payload of a confirmation: a string, a `map[string]any`, or anything else.
pub data Payload : Type 0 where
  string : Text → Payload
  object : RationaleValue → Payload
  other : Payload

pub record Confirmation : Type 0 where
  pub confirmed : Bool
  pub payload : Payload

-- What the code reads of the context of a call.
pub record Context : Type 0 where
  pub confirmation : Option Confirmation
  pub user_id : Text
  pub session_id : Text
  pub invocation_id : Text
  pub boundary : Boundary

-- `Tools`, with the redactor that it is given and the tables of Unicode.
pub record Tools : Type 0 where
  pub writes_disabled : Bool
  pub redact : Text → Text
  pub unicode : Unicode

pub data Label : Type 0 where
  approver_identity session_label invocation_label : Label

pub data Refusal : Type 0 where
  writes_off no_context not_confirmed unauthenticated not_owner no_rationale : Refusal
  too_long redacted_too_long : Refusal
  missing : List Label → Refusal

pub data Checked {ℓ} (A : Type ℓ) : Type ℓ where
  passed : A → Checked A
  refused : Refusal → Checked A

module _ {ℓ} {B : Type ℓ} where
  infixl 5 ◌>>=◌ ◌>>◌
  abbrev pub ◌>>=◌ {κ} : {A : Type κ} → Checked A → (A → Checked B) → Checked B
  refused r >>= f = refused r
  passed a >>= f = f a

  abbrev pub ◌>>◌ : Checked (Unit {0}) → Checked B → Checked B
  refused r >> k = refused r
  passed u >> k = k

abbrev pub required {ℓ} : {A : Type ℓ} → Option A → Refusal → Checked A
required none r = refused r
required (some a) r = passed a

abbrev pub guard : Bool → Refusal → Checked (Unit {0})
guard true r = passed tt
guard false r = refused r

module _ (t : Tools) where
  abbrev pub trimmed : Text → Text
  trimmed s = trim_space t.unicode s

  unfoldable pub rationale_from : Payload → Text
  rationale_from (Payload.string s) = trimmed s
  rationale_from (object nil) = []
  rationale_from (object (RationaleValue.string s)) = trimmed s
  rationale_from (object (printed s)) = trimmed s
  rationale_from other = []

  abbrev pub label_if : Text → Label → List Label
  label_if value label = if text_eq (trimmed value) [] then label ∷ [] else []

  -- The identities that are blank.
  unfoldable pub missing_identities : Context → List Label
  missing_identities c =
      label_if c.user_id approver_identity
      ++ (label_if c.session_id session_label ++ label_if c.invocation_id invocation_label)

abbrev pub none_missing : List Label → Checked (Unit {0})
none_missing [] = passed tt
none_missing (l ∷ ls) = refused (missing (l ∷ ls))

-- The switch over the state of the network.
unfoldable pub owns : Text × NetworkState → Text → Checked (Unit {0})
owns (subject, not_network) approved_by = passed tt
owns (subject, network_unauthenticated) approved_by = refused unauthenticated
owns (subject, network_authenticated) approved_by = guard (text_eq subject approved_by) not_owner

abbrev pub fits_rationale : Text → Bool
fits_rationale rationale = leb (length rationale) max_audit_rationale_length

abbrev pub audit_actor : Text
audit_actor = codes "agentops-agent"

-- The approval, as the identity that both actions make of it.
abbrev pub identity_of : Tools → Context → Confirmation → AuditIdentity
identity_of t c k = record {
  actor = audit_actor;
  approved_by = trimmed t c.user_id;
  rationale = t.redact (rationale_from t k.payload);
  session_id = trimmed t c.session_id;
  invocation_id = trimmed t c.invocation_id;
}

unfoldable pub validated_approval : Tools → Option Context → Checked AuditIdentity
unfolding rationale_from missing_identities owns network
validated_approval t context = do
  c ← required context no_context
  k ← required c.confirmation not_confirmed
  guard k.confirmed not_confirmed
  none_missing (missing_identities t c)
  owns (network c.boundary) (trimmed t c.user_id)
  guard (not (text_eq (rationale_from t k.payload) [])) no_rationale
  guard (fits_rationale (rationale_from t k.payload)) too_long
  guard (fits_rationale (t.redact (rationale_from t k.payload))) redacted_too_long
  passed (identity_of t c k)
