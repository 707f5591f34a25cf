-- ===== src/Sources/Ports.antt =====
-- What the service of the sources calls: the interfaces of sources/internal/service/ports.go,
-- `SourceRepository` of sources/internal/repository/source.go and the generator of job ids
-- (github.com/google/uuid). Each holds a state of its own; an operation gives a value or an error
-- and the new state.
use sihkaromicro.Prelude.{ℕ, ℤ, String, Bool, List}
use sihkaromicro.Runtime.Context.{Context}
use sihkaromicro.Runtime.Calls.{Call}
use sihkaromicro.Sources.Model.{Source, SourceStatus}

-- `save` gives the row as stored: the source sees its id and times set.
pub record SourceRepository : Type 1 where
  pub State : Type 0
  pub save : Context → Source → Call State Source
  pub find : Context → ℤ → ℤ → String → Call State Source
  pub find_all : Context → ℤ → String → Call State (List Source)
  pub count : Context → ℤ → String → Call State ℕ
  pub update_status : Context → ℤ → SourceStatus → String → Call State Unit
  pub update_minio_path : Context → ℤ → String → Call State Unit
  pub delete : Context → ℤ → ℤ → String → Call State Unit

-- A reader is its bytes, with the size and the content type.
pub record StorageService : Type 1 where
  pub State : Type 0
  pub upload : Context → String → List ℕ → ℤ → String → Call State Unit
  pub delete : Context → String → Call State Unit
  pub object_name : String → ℤ → String → String
  pub presigned_url : Context → String → Call State String

-- `publish ctx topic key payload`
pub record MessageProducer : Type 1 where
  pub State : Type 0
  pub publish : Context → String → String → String → Call State Unit

pub record ProjectsClient : Type 1 where
  pub State : Type 0
  pub check_access : Context → ℤ → Call State Bool

-- `uuid.New().String()`
pub record IdSource : Type 1 where
  pub State : Type 0
  pub new : State → String × State

-- The dependencies that `NewSourceService` is given.
pub record Ports : Type 1 where
  pub repo : SourceRepository
  pub projects : ProjectsClient
  pub producer : MessageProducer
  pub storage : StorageService
  pub uuid : IdSource

-- The states of all of them.
pub record World (E : Ports) : Type 0 where
  pub rows : E.repo.State
  pub peer : E.projects.State
  pub topics : E.producer.State
  pub objects : E.storage.State
  pub ids : E.uuid.State

-- A call of one of them, as a call on the world.
module _ (E : Ports) {A : Type 0} where
  abbrev pub on_rows : Call E.repo.State A → Call (World E) A
  on_rows m w = ((m w.rows).0, record w { rows = (m w.rows).1 })

  abbrev pub on_peer : Call E.projects.State A → Call (World E) A
  on_peer m w = ((m w.peer).0, record w { peer = (m w.peer).1 })

  abbrev pub on_topics : Call E.producer.State A → Call (World E) A
  on_topics m w = ((m w.topics).0, record w { topics = (m w.topics).1 })

  abbrev pub on_objects : Call E.storage.State A → Call (World E) A
  on_objects m w = ((m w.objects).0, record w { objects = (m w.objects).1 })
