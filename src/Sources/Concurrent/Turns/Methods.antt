-- ===== src/Sources/Concurrent/Turns/Methods.antt =====
-- How many calls the programs of sources/internal/service/source.go make.
use sihkaromicro.Prelude.{
  suc, ℤ, true, false, Bool-cases, inl, inr, not, ◌&&◌, String, List, [], ◌∷◌, length, str_eq,
  arith,
}
use sihkaromicro.Runtime.Errors.{ok, err}
use sihkaromicro.Runtime.Context.{Context}
use sihkaromicro.Runtime.Calls.{Call}
use sihkaromicro.Sources.Model.{Source}
use sihkaromicro.Sources.Ports.{Ports, World, on_rows}
use sihkaromicro.Sources.Service.{is_retryable, is_active, new_job_id}
use sihkaromicro.Sources.Concurrent.Programs.{
  ◌>>=◌, check_access, sign, sign_all, get_source, cancel_job, delete_object, delete_source,
  resubmit, retry_job, invoke, invoke_or, invoke_anyway,
}
use sihkaromicro.Sources.Concurrent.Turns.{Within, Within-bind}

module _ (E : Ports) where
  pub Within-check_access :
      (ctx : Context) (project_id : ℤ) → Within (check_access E ctx project_id) 1
  unfolding Within check_access ◌>>=◌
  Within-check_access ctx project_id (ok true) = tt
  Within-check_access ctx project_id (ok false) = tt
  Within-check_access ctx project_id (err e) = tt

  Within-sign : (ctx : Context) (source : Source) → Within (sign E ctx source) 1
  unfolding Within sign
  Within-sign ctx source = elim (Bool-cases (str_eq source.minio_path "")) [
    | inl url ↦ rw url tt
    | inr file ↦ rw file (λ r. tt)
  ]

  pub Within-sign_all :
      (ctx : Context) (sources : List Source) → Within (sign_all E ctx sources) (length sources)
  unfolding Within sign_all
  Within-sign_all ctx [] = tt
  Within-sign_all ctx (source ∷ sources) =
      Within-bind (sign E ctx source) _ 1 (length sources) (suc (length sources))
        (Within-sign ctx source)
        (λ detail.
          Within-bind (sign_all E ctx sources) _ (length sources) 0 (length sources)
            (Within-sign_all ctx sources) (λ details. tt) (omega arith))
        (omega arith)

  Within-invoke : {A : Type 0} (m : Call (World E) A) → Within (invoke m) 1
  unfolding Within
  Within-invoke m = λ r. tt

  pub Within-get_source :
      (ctx : Context) (id p : ℤ) (owner : String) → Within (get_source E ctx id p owner) 3
  unfolding get_source
  Within-get_source ctx id p owner =
      Within-bind (check_access E ctx p) _ 1 2 3 (Within-check_access ctx p)
        (λ u.
          Within-bind (invoke (on_rows E (E.repo.find ctx id p owner))) _ 1 1 2 (Within-invoke _)
            (λ source. Within-sign ctx source) (omega arith))
        (omega arith)

  Within-cancel_job :
      (ctx : Context) (owner : String) (source : Source) → Within (cancel_job E ctx owner source) 1
  unfolding Within cancel_job
  Within-cancel_job ctx owner source =
      elim (Bool-cases (not (str_eq source.job_id "") && is_active source)) [
        | inl active ↦ rw active (λ r. tt)
        | inr finished ↦ rw finished tt
      ]

  Within-delete_object : (source : Source) → Within (delete_object E source) 1
  unfolding Within delete_object
  Within-delete_object source = elim (Bool-cases (not (str_eq source.minio_path ""))) [
    | inl file ↦ rw file (λ r. tt)
    | inr url ↦ rw url tt
  ]

  pub Within-delete_source :
      (ctx : Context) (id p : ℤ) (owner : String) → Within (delete_source E ctx id p owner) 5
  unfolding delete_source
  Within-delete_source ctx id p owner =
      Within-bind (check_access E ctx p) _ 1 4 5 (Within-check_access ctx p)
        (λ u.
          Within-bind (invoke (on_rows E (E.repo.find ctx id p owner))) _ 1 3 4 (Within-invoke _)
            (λ source.
              Within-bind (invoke (on_rows E (E.repo.delete ctx id p owner))) _ 1 2 3
                (Within-invoke _)
                (λ v.
                  Within-bind (cancel_job E ctx owner source) _ 1 1 2
                    (Within-cancel_job ctx owner source) (λ w. Within-delete_object source)
                    (omega arith))
                (omega arith))
            (omega arith))
        (omega arith)

  Within-resubmit :
      (ctx : Context) (owner : String) (source : Source) → Within (resubmit E ctx owner source) 3
  unfolding Within resubmit
  Within-resubmit ctx owner source =
      Within-bind (invoke (new_job_id E)) _ 1 2 3 (Within-invoke (new_job_id E))
        (λ job_id.
          Within-bind (invoke_or _ _) _ 1 1 2 (λ r. tt)
            (λ u. Within-bind (invoke_anyway _) _ 1 0 1 (λ r. tt) (λ v. tt) (omega arith))
            (omega arith))
        (omega arith)

  pub Within-retry_job :
      (ctx : Context) (id p : ℤ) (owner : String) → Within (retry_job E ctx id p owner) 5
  unfolding Within retry_job
  Within-retry_job ctx id p owner =
      Within-bind (check_access E ctx p) _ 1 4 5 (Within-check_access ctx p)
        (λ u.
          Within-bind (invoke (on_rows E (E.repo.find ctx id p owner))) _ 1 3 4
            (Within-invoke (on_rows E (E.repo.find ctx id p owner)))
            (λ source. elim (Bool-cases (is_retryable source)) [
              | inl can ↦ rw can (Within-resubmit ctx owner source)
              | inr cannot ↦ rw cannot tt
            ])
            (omega arith))
        (omega arith)
