-- ===== src/Domain/Vocabulary.antt =====
-- agents/go/domain/vocabulary.go: the identifiers that the reference dataset owns, and the mapping
-- from one vocabulary to another.
pub mod Duplicates
pub mod Mapping
use agentops_open_course.Prelude.{
  codes, List, Text, ℕ, ◌∷◌, ◌++◌, [], if◌then◌else◌, text_lt, ltb, text_eq, ◌+◌,
}

pub record IncidentVocabulary : Type 0 where
  pub checkout_latency : Text
  pub inventory_down : Text
  pub payments_errors : Text
  pub auth_errors : Text
  pub search_latency : Text
  pub checkout_disk : Text
  pub cache_memory : Text
  pub database_cascade : Text
  pub checkout_cascade : Text
  pub gateway_memory : Text

pub record ServiceVocabulary : Type 0 where
  pub checkout : Text
  pub payments : Text
  pub auth : Text
  pub search : Text
  pub inventory : Text
  pub database : Text
  pub cache : Text
  pub gateway : Text

pub record RunbookVocabulary : Type 0 where
  pub cascade_failure : Text
  pub deployment_rollback : Text
  pub disk_full : Text
  pub elevated_errors : Text
  pub high_latency : Text
  pub memory_leak : Text
  pub service_down : Text

pub record DependencyEdge : Type 0 where
  pub from : Text
  pub to : Text

pub record Vocabulary : Type 0 where
  pub incidents : IncidentVocabulary
  pub services : ServiceVocabulary
  pub runbooks : RunbookVocabulary
  pub dependency_edges : List DependencyEdge

abbrev pub incident_values : IncidentVocabulary → List Text
incident_values v =
    v.checkout_latency ∷ v.inventory_down ∷ v.payments_errors ∷ v.auth_errors ∷ v.search_latency
    ∷ v.checkout_disk ∷ v.cache_memory ∷ v.database_cascade ∷ v.checkout_cascade ∷ v.gateway_memory
    ∷ []

abbrev pub service_values : ServiceVocabulary → List Text
service_values v =
    v.checkout ∷ v.payments ∷ v.auth ∷ v.search ∷ v.inventory ∷ v.database ∷ v.cache ∷ v.gateway
    ∷ []

abbrev pub runbook_values : RunbookVocabulary → List Text
runbook_values v =
    v.cascade_failure ∷ v.deployment_rollback ∷ v.disk_full ∷ v.elevated_errors ∷ v.high_latency
    ∷ v.memory_leak ∷ v.service_down ∷ []

-- Every identifier, in the order that `mapping` pairs by.
unfoldable pub values : Vocabulary → List Text
values v = incident_values v.incidents ++ (service_values v.services ++ runbook_values v.runbooks)

abbrev pub reference : Vocabulary
reference = record {
  incidents = record {
    checkout_latency = codes "INC-001";
    inventory_down = codes "INC-002";
    payments_errors = codes "INC-003";
    auth_errors = codes "INC-004";
    search_latency = codes "INC-005";
    checkout_disk = codes "INC-006";
    cache_memory = codes "INC-007";
    database_cascade = codes "INC-008";
    checkout_cascade = codes "INC-009";
    gateway_memory = codes "INC-010";
  };
  services = record {
    checkout = codes "checkout";
    payments = codes "payments";
    auth = codes "auth";
    search = codes "search";
    inventory = codes "inventory";
    database = codes "database";
    cache = codes "cache";
    gateway = codes "api-gateway";
  };
  runbooks = record {
    cascade_failure = codes "cascade-failure";
    deployment_rollback = codes "deployment-rollback";
    disk_full = codes "disk-full";
    elevated_errors = codes "elevated-errors";
    high_latency = codes "high-latency";
    memory_leak = codes "memory-leak";
    service_down = codes "service-down";
  };
  dependency_edges =
      record { from = codes "cache"; to = codes "database" }
      ∷ record { from = codes "database"; to = codes "checkout" }
      ∷ record { from = codes "inventory"; to = codes "checkout" }
      ∷ [];
}

-- The map of `duplicateValues`, as the list of its entries.
pub record Count : Type 0 where
  pub value : Text
  pub count : ℕ

unfoldable pub increment : List Count → Text → List Count
increment [] v = record { value = v; count = 1 } ∷ []
increment (c ∷ cs) v =
    let rest = increment cs v in
    if text_eq v c.value then record c { count = c.count + 1 } ∷ cs else c ∷ rest

unfoldable pub tally : List Count → List Text → List Count
unfolding increment
tally counts [] = counts
tally counts (v ∷ vs) = tally (increment counts v) vs

unfoldable pub insert_text : Text → List Text → List Text
insert_text v [] = v ∷ []
insert_text v (w ∷ ws) = let rest = insert_text v ws in if text_lt w v then w ∷ rest else v ∷ w ∷ ws

-- The values of more than one, in order.
unfoldable pub repeated : List Count → List Text
unfolding insert_text
repeated [] = []
repeated (c ∷ cs) =
    let rest = repeated cs in if ltb 1 c.count then insert_text c.value rest else rest

unfoldable pub duplicate_values : List Text → List Text
unfolding tally repeated
duplicate_values vs = repeated (tally [] vs)

pub data VocabularyRole : Type 0 where
  source_vocabulary target_vocabulary : VocabularyRole

pub record Replacement : Type 0 where
  pub from : Text
  pub to : Text

-- The replacements, or the error of a vocabulary with duplicate values.
pub data MappingResult : Type 0 where
  mapped : List Replacement → MappingResult
  duplicate_values_error : VocabularyRole → List Text → MappingResult

abbrev pub pair_up : List Text → List Text → List Replacement
pair_up (from ∷ froms) (to ∷ tos) = record { from = from; to = to } ∷ pair_up froms tos
pair_up _ _ = []

-- The two sides in turn: the first with duplicates is the error.
abbrev pub checked : List Text → List Text → MappingResult → MappingResult
checked (v ∷ vs) target paired = duplicate_values_error source_vocabulary (v ∷ vs)
checked [] (v ∷ vs) paired = duplicate_values_error target_vocabulary (v ∷ vs)
checked [] [] paired = paired

unfoldable pub mapping : Vocabulary → Vocabulary → MappingResult
unfolding values duplicate_values
mapping source target =
    checked (duplicate_values (values source)) (duplicate_values (values target))
      (mapped (pair_up (values source) (values target)))
