-- ===== src/Sources/Service/Upload/Results.antt =====
-- What the body of an upload can return: a result with the id of its row and `success`, or an error
-- without.
use sihkaromicro.Prelude.{◌≡◌, refl, true, false, inl, inr, arith, String, str_eq, Bool-cases}
use sihkaromicro.Runtime.Errors.{Error, Result, ok, err}
use sihkaromicro.Runtime.Context.{Context}
use sihkaromicro.Runtime.Calls.{Attempt, failed, attempting_gives, deferring_gives}
use sihkaromicro.Sources.Model.{Source, type_url}
use sihkaromicro.Sources.Ports.{Ports, World}
use sihkaromicro.Sources.Service.{UploadSourceRequest, UploadSourceResult}
use sihkaromicro.Sources.Service.Upload.{submit, store, process, published}

-- The flag says whether there is a result, and the result has the id of the source.
pub record IsProper (source : Source) (a : Attempt UploadSourceResult) : Type 0 where
  pub on_ok :
      (res : UploadSourceResult)
      → a.result ≡ ok res
      → (res.source_id ≡ source.id) × (a.success ≡ true)
  pub on_err : (e : Error) → a.result ≡ err e → a.success ≡ false

failed-IsProper : (source : Source) (e : Error) → IsProper source (failed e)
failed-IsProper source e = record { on_ok = λ res h. cc; on_err = λ x h. refl }

module _ (E : Ports) (ctx : Context) (req : UploadSourceRequest) (source : Source) where
  published-IsProper :
      (src : Source) (job_id : String) (r : Result (Unit {0})) (w : World E)
      → src.id ≡ source.id
      → IsProper source (published E ctx src job_id r w).0
  published-IsProper src job_id (ok _) w same = record {
    on_ok = λ res h. ground arith;
    on_err = λ x h. cc;
  }
  published-IsProper src job_id (err _) w same = record {
    on_ok = λ res h. ground arith;
    on_err = λ x h. cc;
  }

  submit-IsProper :
      (src : Source) (w : World E) → src.id ≡ source.id → IsProper source (submit E ctx req src w).0
  unfolding submit
  submit-IsProper src w same =
      attempting_gives (IsProper source) (failed-IsProper source) _ _ _ w
        (λ _ t. published-IsProper src _ _ _ same)

  store-IsProper : (w : World E) → IsProper source (store E ctx req source w).0
  unfolding store
  store-IsProper w = attempting_gives (IsProper source) (failed-IsProper source) _ _ _ w (λ _ t.
      deferring_gives (IsProper source) _ _ t (
        attempting_gives (IsProper source) (failed-IsProper source) _ _ _ t
          (λ _ u. submit-IsProper _ u refl)))

  pub process-IsProper : (w : World E) → IsProper source (process E ctx req source w).0
  unfolding process
  process-IsProper w = elim (Bool-cases (str_eq req.kind type_url)) [
    | inl url ↦ deferring_gives (IsProper source) _ _ w (rw url (submit-IsProper source w refl))
    | inr file ↦ deferring_gives (IsProper source) _ _ w (rw file (store-IsProper w))
  ]
