-- ===== src/Sources/Database.antt =====
-- The table `sources` behind gorm, which is not part of the repository: its operations as the
-- repository calls them, and what their documentation promises. A failed statement changes nothing.
use sihkaromicro.Prelude.{
  ℕ, ◌≡◌, ◌≢◌, Bool, true, false, not, String, none, some, List, [], ◌∷◌, ◌++◌, length, select,
  find, update, All,
}
use mathlib.Core.List.{Perm}
use sihkaromicro.Runtime.Errors.{Error, ok, err, error_is, gorm_record_not_found, err_not_found}
use sihkaromicro.Runtime.Context.{Context}
use sihkaromicro.Runtime.Calls.{Call}
use sihkaromicro.Sources.Model.{Source, SourceStatus}
use sihkaromicro.Sources.Spec.{TableView, IsStored, if_ok}

-- The columns that `Update` and `Updates` are called with.
pub data Column : Type 0 where
  set_status : SourceStatus → Column
  set_job_id : String → Column
  set_minio_path : String → Column

abbrev pub write : Column → Source → Source
write (set_status s) r = record r { status = s }
write (set_job_id j) r = record r { job_id = j }
write (set_minio_path p) r = record r { minio_path = p }

abbrev pub write_all : List Column → ℕ → Source → Source
write_all [] now r = record r { updated_at = now }
write_all (c ∷ cs) now r = write_all cs now (write c r)

-- A condition is the meaning of a `Where` text with its arguments.
pub record Database : Type 1 where
  pub State : Type 0
  pub create : Context → Source → Call State Source
  pub first : Context → (Source → Bool) → Call State Source
  pub find_where : Context → (Source → Bool) → Call State (List Source)
  pub count_where : Context → (Source → Bool) → Call State ℕ
  pub updates : Context → (Source → Bool) → List Column → Call State Unit
  pub delete_where : Context → (Source → Bool) → Call State ℕ  -- RowsAffected

pub record DatabaseLaws (D : Database) (V : TableView D.State) : Type 0 where
  pub rows-create :
      (ctx : Context) (source : Source) (s : D.State)
      → V.rows (D.create ctx source s).1
        ≡ if_ok (D.create ctx source s).0 (λ r. V.rows s ++ r ∷ []) (V.rows s)
  pub create_stored :
      (ctx : Context) (source r : Source) (s : D.State)
      → (D.create ctx source s).0 ≡ ok r
      → IsStored source r
  pub create_fresh :
      (ctx : Context) (source r : Source) (s : D.State)
      → (D.create ctx source s).0 ≡ ok r
      → All (λ x. x.id ≢ r.id) (V.rows s)
  pub rows-first :
      (ctx : Context) (p : Source → Bool) (s : D.State) → V.rows (D.first ctx p s).1 ≡ V.rows s
  pub first_sound :
      (ctx : Context) (p : Source → Bool) (s : D.State) (r : Source)
      → (D.first ctx p s).0 ≡ ok r
      → find p (V.rows s) ≡ some r
  pub first_missing :
      (ctx : Context) (p : Source → Bool) (s : D.State) (e : Error)
      → (D.first ctx p s).0 ≡ err e
      → error_is e gorm_record_not_found ≡ true
      → find p (V.rows s) ≡ none
  -- gorm does not know the errors of the service.
  pub first_foreign :
      (ctx : Context) (p : Source → Bool) (s : D.State) (e : Error)
      → (D.first ctx p s).0 ≡ err e
      → error_is e err_not_found ≡ false
  pub rows-find_where :
      (ctx : Context) (p : Source → Bool) (s : D.State) → V.rows (D.find_where ctx p s).1 ≡ V.rows s
  -- SQL promises no order.
  pub find_where_sound :
      (ctx : Context) (p : Source → Bool) (s : D.State) (rs : List Source)
      → (D.find_where ctx p s).0 ≡ ok rs
      → Perm rs (select p (V.rows s))
  pub rows-count_where :
      (ctx : Context) (p : Source → Bool) (s : D.State)
      → V.rows (D.count_where ctx p s).1 ≡ V.rows s
  pub count_where_sound :
      (ctx : Context) (p : Source → Bool) (s : D.State) (n : ℕ)
      → (D.count_where ctx p s).0 ≡ ok n
      → n ≡ length (select p (V.rows s))
  pub rows-updates :
      (ctx : Context) (p : Source → Bool) (cs : List Column) (s : D.State)
      → V.rows (D.updates ctx p cs s).1
        ≡ if_ok
            (D.updates ctx p cs s).0
            (λ _. update p (write_all cs (V.now s)) (V.rows s))
            (V.rows s)
  -- Only the queries for one row know the error "record not found".
  pub delete_where_foreign :
      (ctx : Context) (p : Source → Bool) (s : D.State) (e : Error)
      → (D.delete_where ctx p s).0 ≡ err e
      → (error_is e err_not_found ≡ false) × (error_is e gorm_record_not_found ≡ false)
  pub rows-delete_where :
      (ctx : Context) (p : Source → Bool) (s : D.State)
      → V.rows (D.delete_where ctx p s).1
        ≡ if_ok (D.delete_where ctx p s).0 (λ _. select (λ r. not (p r)) (V.rows s)) (V.rows s)
  pub delete_where_affected :
      (ctx : Context) (p : Source → Bool) (s : D.State) (n : ℕ)
      → (D.delete_where ctx p s).0 ≡ ok n
      → n ≡ length (select p (V.rows s))
