-- ===== src/Domain/Status.antt =====
-- agents/go/domain/status.go. The three types are string types with named values, and a switch
-- over those values parses them; `none` is the error.
use agentops_open_course.Prelude.{◌||◌, Option, none, some, if◌then◌else◌, Text, codes, text_eq}

abbrev pub status_open : Text
status_open = codes "open"

abbrev pub status_investigating : Text
status_investigating = codes "investigating"

abbrev pub status_resolved : Text
status_resolved = codes "resolved"

unfoldable pub parse_incident_status : Text → Option Text
parse_incident_status value =
    if text_eq value status_open
      || text_eq value status_investigating
      || text_eq value status_resolved
    then some value
    else none

unfoldable pub parse_severity : Text → Option Text
parse_severity value =
    if text_eq value (codes "SEV1") || text_eq value (codes "SEV2") || text_eq value (codes "SEV3")
    then some value
    else none

abbrev pub service_operational : Text
service_operational = codes "operational"

unfoldable pub parse_service_status : Text → Option Text
parse_service_status value =
    if text_eq value service_operational
      || text_eq value (codes "degraded")
      || text_eq value (codes "down")
    then some value
    else none
