-- ===== src/Workflow/Stores.antt =====
-- The interfaces that workflow/service.go and guard.go are written against (store.ChangeStore,
-- store.ArtifactStore, store.TaskMappingStore, issueLookup, projectAccess, agentAccessLookup,
-- wakeupRecorder, parentWakeupHook), over one state; a collaborator that may be nil is an `Option`.
-- A read that fails in any way is `none` where the caller does not tell the errors apart.
use spec_powers.Prelude.{ℕ, String, Bool, Option, List}
use spec_powers.Domain.{Project, ProjectMember, Issue, Change, ChangeHandoff, Artifact, TaskMapping}
use spec_powers.Api.{Stored}

pub record Stores : Type 1 where
  pub State : Type 0
  pub get_change : String → State → Stored Change
  pub get_change_by_issue : String → State → Stored Change
  pub create_change : Change → State → Stored Change × State
  pub update_change : Change → State → Stored Change × State
  pub create_handoff : ChangeHandoff → State → Stored ChangeHandoff × State
  pub list_handoffs : String → State → Option (List ChangeHandoff)
  pub create_artifact : Artifact → State → Stored Artifact × State
  pub get_artifact : String → String → ℕ → State → Stored Artifact
  pub list_artifacts : String → State → Option (List Artifact)
  pub list_artifact_versions : String → String → State → Option (List Artifact)
  pub list_task_mappings : String → State → Option (List TaskMapping)
  pub get_issue : String → State → Stored Issue
  pub get_project : String → State → Stored Project
  pub get_project_member : String → String → State → Stored ProjectMember
  pub agent_access : Option (String → State → Bool)
  pub wakeups : Option (String → String → State → Bool × State)
  pub wakeup_hook : Option (Issue → State → Bool × State)

-- gopkg.in/yaml.v3 as workflow/verify.go calls it: a document read into a map, and into the report.
-- An error carries its text.
pub data YamlMap : Type 0 where
  bad_map : String → YamlMap
  nil_map : YamlMap
  mapping : YamlMap

pub record VerifyReport : Type 0 where
  pub result : String
  pub summary : String

pub data YamlReport : Type 0 where
  bad_report : String → YamlReport
  report : VerifyReport → YamlReport

pub record Yaml : Type 0 where
  pub as_map : String → YamlMap
  pub as_report : String → YamlReport
