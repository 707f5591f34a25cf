-- ===== src/Sources/Concurrent/Programs/Quiet.antt =====
-- Programs that add no row to the table.
use sihkaromicro.Prelude.{
  ℕ, ℤ, ◌≤◌, refl, inl, inr, not, ◌&&◌, String, List, [], ◌∷◌, arith, length, select, str_eq,
  Bool-cases,
}
use sihkaromicro.Runtime.Errors.{Error, Result, ok, err}
use sihkaromicro.Runtime.Context.{Context}
use sihkaromicro.Runtime.Calls.{Call, replace_err}
use sihkaromicro.Sources.Model.{Source, SourceStatus, status_pending}
use sihkaromicro.Sources.Spec.{TableView, RepositoryLaws, chosen, has_id, with_status}
use sihkaromicro.Sources.Ports.{Ports, World, on_rows}
use sihkaromicro.Sources.Service as Service
use sihkaromicro.Sources.Service.{is_active, is_retryable}
use sihkaromicro.Sources.Concurrent.Counting.{length-select-update, length-select-select}
use sihkaromicro.Sources.Concurrent.Keys.{Key, passes}
use sihkaromicro.Sources.Concurrent.Programs.{
  Program, stop, call, invoke, invoke_or, invoke_anyway, ◌>>=◌, check_access, sign, sign_all,
  get_source, list_sources, cancel_job, delete_object, delete_source, resubmit, retry_job,
}

-- How many rows pass a test.
abbrev pub count : Key → List Source → ℕ
count k rows = length (select (passes k) rows)

module _ {E : Ports} (V : TableView E.repo.State) where
  abbrev pub IsQuietCall : {X : Type 0} → Call (World E) X → Type 0
  IsQuietCall m = (k : Key) (w : World E) → count k (V.rows (m w).1.rows) ≤ count k (V.rows w.rows)

  -- No call of a program adds a row that passes a test.
  pub data IsQuiet {A : Type 0} : Program E A → Type 1 where
    stops : (r : Result A) → IsQuiet (stop r)
    calls :
        {X : Type 0} (m : Call (World E) X) (k : Result X → Program E A)
        → IsQuietCall m
        → ((r : Result X) → IsQuiet (k r))
        → IsQuiet (call m k)

  IsQuiet-bind :
      {A B : Type 0} {p : Program E A} (f : A → Program E B)
      → IsQuiet p
      → ((a : A) → IsQuiet (f a))
      → IsQuiet (p >>= f)
  unfolding ◌>>=◌
  IsQuiet-bind f (stops (ok a)) h = h a
  IsQuiet-bind f (stops (err e)) h = stops (err e)
  IsQuiet-bind f (calls m k q qs) h = calls m _ q (λ r. IsQuiet-bind f (qs r) h)

  IsQuiet-invoke : {A : Type 0} (m : Call (World E) A) → IsQuietCall m → IsQuiet (invoke m)
  IsQuiet-invoke m h = calls m stop h (λ r. stops r)

  IsQuiet-invoke_or :
      {A : Type 0} (m : Call (World E) A) (e : Error) → IsQuietCall m → IsQuiet (invoke_or m e)
  IsQuiet-invoke_or m e h = calls m _ h (λ r. stops (replace_err r e))

  IsQuiet-invoke_anyway :
      {A : Type 0} (m : Call (World E) A) → IsQuietCall m → IsQuiet (invoke_anyway m)
  IsQuiet-invoke_anyway m h = calls m _ h (λ r. stops (ok tt))

module _ (E : Ports) (V : TableView E.repo.State) (L : RepositoryLaws E.repo V)
    (ctx : Context) where
  count_find :
      (id project_id : ℤ) (owner_id : String)
      → IsQuietCall V (on_rows E (E.repo.find ctx id project_id owner_id))
  count_find id project_id owner_id k w =
      ground (arith, L.rows-find ctx id project_id owner_id w.rows)

  count_find_all :
      (project_id : ℤ) (owner_id : String)
      → IsQuietCall V (on_rows E (E.repo.find_all ctx project_id owner_id))
  count_find_all project_id owner_id k w =
      ground (arith, L.rows-find_all ctx project_id owner_id w.rows)

  count_delete :
      (id project_id : ℤ) (owner_id : String)
      → IsQuietCall V (on_rows E (E.repo.delete ctx id project_id owner_id))
  count_delete id project_id owner_id k w = ground (
    arith,
    L.rows-delete ctx id project_id owner_id w.rows,
    length-select-select (passes k) (λ r. not (chosen id project_id owner_id r)) (V.rows w.rows),
  )

  count_update_status :
      (id : ℤ) (status : SourceStatus) (job_id : String)
      → IsQuietCall V (on_rows E (E.repo.update_status ctx id status job_id))
  count_update_status id status job_id k w = ground (
    arith,
    L.rows-update_status ctx id status job_id w.rows,
    length-select-update (passes k) (has_id id) (with_status status job_id (V.now w.rows))
        (V.rows w.rows) (λ r. refl),
  )

  check_access-IsQuiet : (project_id : ℤ) → IsQuiet V (check_access E ctx project_id)
  unfolding check_access
  check_access-IsQuiet project_id =
      IsQuiet-bind V _ (IsQuiet-invoke_or V _ _ (λ k w. omega arith)) (λ has_access.
        elim (Bool-cases has_access) [
          | inl granted ↦ rw granted (stops _)
          | inr denied ↦ rw denied (stops _)
        ])

  sign-IsQuiet : (source : Source) → IsQuiet V (sign E ctx source)
  unfolding sign
  sign-IsQuiet source = elim (Bool-cases (str_eq source.minio_path "")) [
    | inl none_there ↦ rw none_there (stops _)
    | inr there ↦ rw there (calls _ _ (λ k w. omega arith) (λ r. stops _))
  ]

  sign_all-IsQuiet : (sources : List Source) → IsQuiet V (sign_all E ctx sources)
  unfolding sign_all ◌>>=◌
  sign_all-IsQuiet [] = stops _
  sign_all-IsQuiet (source ∷ sources) =
      IsQuiet-bind V _ (sign-IsQuiet source)
        (λ d. IsQuiet-bind V _ (sign_all-IsQuiet sources) (λ ds. stops _))

  cancel_job-IsQuiet :
      (owner_id : String) (source : Source) → IsQuiet V (cancel_job E ctx owner_id source)
  unfolding cancel_job Service.publish_cancel_job
  cancel_job-IsQuiet owner_id source =
      elim (Bool-cases (not (str_eq source.job_id "") && is_active source)) [
        | inl active ↦ rw active (calls _ _ (λ k w. omega arith) (λ r. stops _))
        | inr idle ↦ rw idle (stops _)
      ]

  delete_object-IsQuiet : (source : Source) → IsQuiet V (delete_object E source)
  unfolding delete_object
  delete_object-IsQuiet source = elim (Bool-cases (not (str_eq source.minio_path ""))) [
    | inl there ↦ rw there (calls _ _ (λ k w. omega arith) (λ r. stops _))
    | inr none_there ↦ rw none_there (stops _)
  ]

  resubmit-IsQuiet :
      (owner_id : String) (source : Source) → IsQuiet V (resubmit E ctx owner_id source)
  unfolding resubmit Service.publish_create_job
  resubmit-IsQuiet owner_id source =
      IsQuiet-bind V _ (IsQuiet-invoke V (Service.new_job_id E) (λ k w. omega arith)) (λ job_id.
        IsQuiet-bind V _ (IsQuiet-invoke_or V _ _ (λ k w. omega arith)) (λ u.
          IsQuiet-bind V _
            (IsQuiet-invoke_anyway V _ (count_update_status source.id status_pending job_id))
            (λ v. stops (ok job_id))))

  -- The methods other than UploadSource.
  pub get_source-IsQuiet :
      (id project_id : ℤ) (owner_id : String) → IsQuiet V (get_source E ctx id project_id owner_id)
  unfolding get_source
  get_source-IsQuiet id project_id owner_id =
      IsQuiet-bind V _ (check_access-IsQuiet project_id) (λ u.
        IsQuiet-bind V _ (IsQuiet-invoke V _ (count_find id project_id owner_id)) sign-IsQuiet)

  pub list_sources-IsQuiet :
      (project_id : ℤ) (owner_id : String) → IsQuiet V (list_sources E ctx project_id owner_id)
  unfolding list_sources
  list_sources-IsQuiet project_id owner_id =
      IsQuiet-bind V _ (check_access-IsQuiet project_id) (λ u.
        IsQuiet-bind V _ (IsQuiet-invoke V _ (count_find_all project_id owner_id)) sign_all-IsQuiet)

  pub delete_source-IsQuiet :
      (id project_id : ℤ) (owner_id : String)
      → IsQuiet V (delete_source E ctx id project_id owner_id)
  unfolding delete_source
  delete_source-IsQuiet id project_id owner_id =
      IsQuiet-bind V _ (check_access-IsQuiet project_id) (λ u.
        IsQuiet-bind V _ (IsQuiet-invoke V _ (count_find id project_id owner_id)) (λ source.
          IsQuiet-bind V _ (IsQuiet-invoke V _ (count_delete id project_id owner_id)) (λ v.
            IsQuiet-bind V _ (cancel_job-IsQuiet owner_id source)
              (λ x. delete_object-IsQuiet source))))

  pub retry_job-IsQuiet :
      (id project_id : ℤ) (owner_id : String) → IsQuiet V (retry_job E ctx id project_id owner_id)
  unfolding retry_job
  retry_job-IsQuiet id project_id owner_id =
      IsQuiet-bind V _ (check_access-IsQuiet project_id) (λ u.
        IsQuiet-bind V _ (IsQuiet-invoke V _ (count_find id project_id owner_id)) (λ source.
          elim (Bool-cases (is_retryable source)) [
            | inl can ↦ rw can (resubmit-IsQuiet owner_id source)
            | inr cannot ↦ rw cannot (stops _)
          ]))
