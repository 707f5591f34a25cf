-- ===== src/Projects/Model.antt =====
-- projects/internal/model: a project, and its protobuf message; the messages of
-- proto/projects/projects.pb.go that the handlers read and write; a page of projects
-- (projects/internal/dto).
use sihkaromicro.Prelude.{ℕ, ℤ, String, Bool, List}

-- The columns of `Base` are embedded.
pub record Project : Type 0 where
  pub id : ℤ
  pub created_at : ℕ
  pub updated_at : ℕ
  pub owner_id : String
  pub title : String

pub record ProjectMessage : Type 0 where
  pub id : ℤ
  pub owner_id : String
  pub title : String
  pub created_at : ℕ
  pub updated_at : ℕ

unfoldable pub to_proto : Project → ProjectMessage
to_proto p = record {
  id = p.id;
  owner_id = p.owner_id;
  title = p.title;
  created_at = p.created_at;
  updated_at = p.updated_at;
}

pub record PageWrapper : Type 0 where
  pub total : ℕ
  pub data_rows : List Project

pub record CreateProjectRequest : Type 0 where
  pub title : String

pub record ProjectResponse : Type 0 where
  pub project : ProjectMessage

pub record GetProjectRequest : Type 0 where
  pub project_id : ℤ

-- `page` and `page_size` are int32.
pub record ListProjectsRequest : Type 0 where
  pub page : ℤ
  pub page_size : ℤ

pub record ListProjectsResponse : Type 0 where
  pub projects : List ProjectMessage
  pub total : ℤ

pub record DeleteProjectRequest : Type 0 where
  pub project_id : ℤ

pub record DeleteProjectResponse : Type 0 where
  pub success : Bool

pub record CheckAccessRequest : Type 0 where
  pub project_id : ℤ

pub record CheckAccessResponse : Type 0 where
  pub has_access : Bool
