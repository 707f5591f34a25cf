-- ===== src/Sources/Spec.antt =====
-- What the sources service relies on from its ports, as laws over an abstract view of each state:
-- the rows of the table `sources`, the stored objects and the published messages.
use sihkaromicro.Prelude.{
  ℕ, ℤ, ◌≡◌, ◌≢◌, ◌⊎◌, Bool, true, not, ◌&&◌, String, Option, none, some, List, [], ◌∷◌, ◌++◌,
  length, select, find, update, All, ◌==ℤ◌, str_eq, if◌then◌else◌,
}
use mathlib.Core.List.{Perm}
use sihkaromicro.Runtime.Errors.{Error, Result, ok, err, error_is, err_not_found}
use sihkaromicro.Runtime.Context.{Context}
use sihkaromicro.Sources.Model.{Source, SourceStatus, status_or_default}
use sihkaromicro.Sources.Ports.{SourceRepository, StorageService, MessageProducer}

-- The conditions of the `Where` clauses.
abbrev pub owned : ℤ → String → Source → Bool
owned project_id owner_id r = r.project_id ==ℤ project_id && str_eq r.owner_id owner_id

abbrev pub has_id : ℤ → Source → Bool
has_id id r = r.id ==ℤ id

abbrev pub chosen : ℤ → ℤ → String → Source → Bool
chosen id project_id owner_id r = has_id id r && owned project_id owner_id r

-- The columns that an update writes; every update writes the time too.
abbrev pub with_status : SourceStatus → String → ℕ → Source → Source
with_status status job_id now r = record r { status = status; job_id = job_id; updated_at = now }

abbrev pub with_minio_path : String → ℕ → Source → Source
with_minio_path path now r = record r { minio_path = path; updated_at = now }

-- The state changes only where the operation succeeds.
abbrev pub if_ok {ℓ κ} : {A : Type ℓ} {B : Type κ} → Result A → (A → B) → B → B
if_ok (ok a) f old = f a
if_ok (err _) f old = old

-- `r` is `source` with the columns that the database fills.
pub record IsStored (source r : Source) : Type 0 where
  pub same : r ≡ record source {
    id = r.id;
    status = status_or_default source.status;
    created_at = r.created_at;
    updated_at = r.updated_at;
  }

-- What a state of the table holds: its rows in the order of their ids, and the time of its clock.
pub record TableView (S : Type 0) : Type 0 where
  pub rows : S → List Source
  pub now : S → ℕ

pub record RepositoryLaws (R : SourceRepository) (V : TableView R.State) : Type 0 where
  pub rows-save :
      (ctx : Context) (source : Source) (s : R.State)
      → V.rows (R.save ctx source s).1
        ≡ if_ok (R.save ctx source s).0 (λ r. V.rows s ++ r ∷ []) (V.rows s)
  pub save_stored :
      (ctx : Context) (source r : Source) (s : R.State)
      → (R.save ctx source s).0 ≡ ok r
      → IsStored source r
  pub save_fresh :
      (ctx : Context) (source r : Source) (s : R.State)
      → (R.save ctx source s).0 ≡ ok r
      → All (λ x. x.id ≢ r.id) (V.rows s)
  pub rows-find :
      (ctx : Context) (id project_id : ℤ) (owner_id : String) (s : R.State)
      → V.rows (R.find ctx id project_id owner_id s).1 ≡ V.rows s
  pub find_sound :
      (ctx : Context) (id project_id : ℤ) (owner_id : String) (s : R.State) (r : Source)
      → (R.find ctx id project_id owner_id s).0 ≡ ok r
      → find (chosen id project_id owner_id) (V.rows s) ≡ some r
  pub find_missing :
      (ctx : Context) (id project_id : ℤ) (owner_id : String) (s : R.State) (e : Error)
      → (R.find ctx id project_id owner_id s).0 ≡ err e
      → error_is e err_not_found ≡ true
      → find (chosen id project_id owner_id) (V.rows s) ≡ none
  pub rows-find_all :
      (ctx : Context) (project_id : ℤ) (owner_id : String) (s : R.State)
      → V.rows (R.find_all ctx project_id owner_id s).1 ≡ V.rows s
  pub find_all_sound :
      (ctx : Context) (project_id : ℤ) (owner_id : String) (s : R.State) (rs : List Source)
      → (R.find_all ctx project_id owner_id s).0 ≡ ok rs
      → Perm rs (select (owned project_id owner_id) (V.rows s))
  pub rows-count :
      (ctx : Context) (project_id : ℤ) (owner_id : String) (s : R.State)
      → V.rows (R.count ctx project_id owner_id s).1 ≡ V.rows s
  pub count_sound :
      (ctx : Context) (project_id : ℤ) (owner_id : String) (s : R.State) (n : ℕ)
      → (R.count ctx project_id owner_id s).0 ≡ ok n
      → n ≡ length (select (owned project_id owner_id) (V.rows s))
  pub rows-update_status :
      (ctx : Context) (id : ℤ) (status : SourceStatus) (job_id : String) (s : R.State)
      → V.rows (R.update_status ctx id status job_id s).1
        ≡ if_ok
            (R.update_status ctx id status job_id s).0
            (λ _. update (has_id id) (with_status status job_id (V.now s)) (V.rows s))
            (V.rows s)
  pub rows-update_minio_path :
      (ctx : Context) (id : ℤ) (path : String) (s : R.State)
      → V.rows (R.update_minio_path ctx id path s).1
        ≡ if_ok
            (R.update_minio_path ctx id path s).0
            (λ _. update (has_id id) (with_minio_path path (V.now s)) (V.rows s))
            (V.rows s)
  -- A deletion succeeds only if there is a row to delete, and says `not found` only if there is none.
  pub delete_found :
      (ctx : Context) (id project_id : ℤ) (owner_id : String) (s : R.State)
      → (R.delete ctx id project_id owner_id s).0 ≡ ok tt
      → find (chosen id project_id owner_id) (V.rows s) ≢ none
  pub delete_missing :
      (ctx : Context) (id project_id : ℤ) (owner_id : String) (s : R.State) (e : Error)
      → (R.delete ctx id project_id owner_id s).0 ≡ err e
      → error_is e err_not_found ≡ true
      → find (chosen id project_id owner_id) (V.rows s) ≡ none
  pub rows-delete :
      (ctx : Context) (id project_id : ℤ) (owner_id : String) (s : R.State)
      → V.rows (R.delete ctx id project_id owner_id s).1
        ≡ if_ok
            (R.delete ctx id project_id owner_id s).0
            (λ _. select (λ r. not (chosen id project_id owner_id r)) (V.rows s))
            (V.rows s)

-- An V.object store: what is stored under each name.
pub record ObjectView (S : Type 0) : Type 0 where
  pub object : S → String → Option (List ℕ)
  -- What is kept of a reader, given the size that the caller states.
  pub kept : List ℕ → ℤ → List ℕ

pub record StorageLaws (M : StorageService) (V : ObjectView M.State) : Type 0 where
  pub object-upload :
      (ctx : Context) (name : String) (bytes : List ℕ) (size : ℤ) (kind : String) (s : M.State)
      (key : String)
      → V.object (M.upload ctx name bytes size kind s).1 key
        ≡ if_ok
            (M.upload ctx name bytes size kind s).0
            (λ _. if str_eq name key then some (V.kept bytes size) else V.object s key)
            (V.object s key)
  pub object-delete :
      (ctx : Context) (name : String) (s : M.State) (key : String)
      → V.object (M.delete ctx name s).1 key
        ≡ if_ok
            (M.delete ctx name s).0
            (λ _. if str_eq name key then none else V.object s key)
            (V.object s key)
  pub object-presigned_url :
      (ctx : Context) (name : String) (s : M.State) (key : String)
      → V.object (M.presigned_url ctx name s).1 key ≡ V.object s key

pub record Message : Type 0 where
  pub topic : String
  pub key : String
  pub payload : String

-- Where a call fails, the broker may have its message all the same.
pub record ProducerLaws (K : MessageProducer) (sent : K.State → List Message) : Type 0 where
  pub sent-publish :
      (ctx : Context) (m : Message) (s : K.State)
      → (K.publish ctx m.topic m.key m.payload s).0 ≡ ok tt
      → sent (K.publish ctx m.topic m.key m.payload s).1 ≡ sent s ++ m ∷ []
  pub sent_at_most :
      (ctx : Context) (m : Message) (s : K.State)
      → (sent (K.publish ctx m.topic m.key m.payload s).1 ≡ sent s)
        ⊎ (sent (K.publish ctx m.topic m.key m.payload s).1 ≡ sent s ++ m ∷ [])
