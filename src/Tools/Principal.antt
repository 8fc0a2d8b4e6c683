-- ===== src/Tools/Principal.antt =====
-- agents/go/principal/principal.go: the principal that a network request has been authenticated as.
-- Of a subject only visible ASCII passes, so its bytes are its code points.
use agentops_open_course.Prelude.{
  ℕ, ◌&&◌, [], ◌∷◌, Option, none, some, if◌then◌else◌, Text, text_eq, ltb, leb, all, length,
}
use agentops_open_course.Domain.Identifier.{Unicode, trim_space}

pub data NetworkState : Type 0 where
  not_network network_unauthenticated network_authenticated : NetworkState

abbrev pub max_subject_bytes : ℕ
max_subject_bytes = 255

-- `NewAuthenticated`; `none` is the error.
unfoldable pub new_authenticated : Unicode → Text → Option Text
new_authenticated u raw =
    let subject = trim_space u raw in
    if text_eq subject []
    then none
    else if ltb max_subject_bytes (length subject)
    then none
    else if all (λ c. leb b'!' c && leb c b'~') subject
    then some subject
    else none

-- The value under `networkKey` of a context: the subject of its principal.
abbrev pub Boundary : Type 0
Boundary = Option Text

abbrev pub mark_network : Boundary
mark_network = some []

abbrev pub bind_network : Text → Boundary
bind_network subject = some subject

unfoldable pub network : Boundary → Text × NetworkState
network none = ([], not_network)
network (some []) = ([], network_unauthenticated)
network (some (c ∷ s)) = (c ∷ s, network_authenticated)
