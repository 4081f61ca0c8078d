-- ===== src/Domain.antt =====
-- backend/internal/domain/models.go: the records that the services and the stores pass on. Times are
-- instants in nanoseconds; `time.Time` in a pointer is an `Option`.
use spec_powers.Prelude.{ℕ, String, Option, List}
use spec_powers.Prelude.Int.{ℤ}

pub record Project : Type 0 where
  pub id : String
  pub workspace_id : String

pub record ProjectMember : Type 0 where
  pub project_id : String
  pub user_id : String
  pub role : String

pub record Issue : Type 0 where
  pub id : String
  pub project_id : String
  pub parent_id : String
  pub title : String
  pub description : String
  pub status : String
  pub priority : String
  pub assignee_id : String
  pub due_date : Option ℕ
  pub labels : List String
  pub stage : ℤ
  pub position : ℤ
  pub created_by : String

pub record WorkspaceStatus : Type 0 where
  pub workspace_id : String
  pub name : String
  pub category : String
  pub position : ℤ

pub record Change : Type 0 where
  pub id : String
  pub project_id : String
  pub issue_id : String
  pub phase : String
  pub status : String
  pub created_by : String

pub record ChangeHandoff : Type 0 where
  pub id : String
  pub change_id : String
  pub from_phase : String
  pub to_phase : String
  pub created_by : String
  pub created_at : ℕ

pub record Artifact : Type 0 where
  pub id : String
  pub change_id : String
  pub kind : String
  pub version : ℕ
  pub content : String
  pub created_by : String
  pub run_id : String
  pub created_at : ℕ

pub record TaskMapping : Type 0 where
  pub change_id : String
  pub artifact_id : String
  pub issue_id : String
  pub title : String
  pub stage : ℤ
  pub position : ℤ

pub record Squad : Type 0 where
  pub id : String
  pub name : String
  pub description : String
  pub leader_id : String
  pub created_by : String

pub record IssueEvent : Type 0 where
  pub issue_id : String
  pub actor_id : String
  pub field : String
  pub old_value : String
  pub new_value : String
