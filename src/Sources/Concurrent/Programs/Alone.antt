-- ===== src/Sources/Concurrent/Programs/Alone.antt =====
-- The programs and the methods of the service.
use sihkaromicro.Prelude.{
  ℤ, ◌≡◌, refl, ◌∙◌, inl, inr, true, false, String, List, [], ◌∷◌, arith, Bool-cases,
}
use sihkaromicro.Runtime.Errors.{ok, err, Result-cases}
use sihkaromicro.Runtime.Context.{Context}
use sihkaromicro.Runtime.Calls.{Call, and_then}
use sihkaromicro.Sources.Model.{Source}
use sihkaromicro.Sources.Ports.{Ports, World, on_rows}
use sihkaromicro.Sources.Service as Service
use sihkaromicro.Sources.Service.{is_active, is_retryable}
use sihkaromicro.Sources.Concurrent.Programs.{
  Program, stop, invoke, call, run, ◌>>=◌, check_access, sign, sign_all, get_source, list_sources,
  cancel_job, delete_object, delete_source, resubmit, retry_job,
}

run-bind :
    {E : Ports} {A B : Type 0} (p : Program E A) (f : A → Program E B) (w : World E)
    → run (p >>= f) w ≡ and_then (run p w).0 (λ a. run (f a)) (run p w).1
unfolding run ◌>>=◌
run-bind (stop (ok a)) f w = refl
run-bind (stop (err e)) f w = refl
run-bind (call m k) f w = run-bind (k (m w).0) f (m w).1

-- A chain runs as its parts do.
run-chain :
    {E : Ports} {A B : Type 0} (p : Program E A) (f : A → Program E B) (m : Call (World E) A)
    (g : A → Call (World E) B) (w : World E)
    → run p w ≡ m w
    → ((a : A) (w' : World E) → run (f a) w' ≡ g a w')
    → run (p >>= f) w ≡ and_then (m w).0 g (m w).1
run-chain p f m g w same rest =
    run-bind p f w
    ∙ rw same (elim (Result-cases (m w).0) [
      | inl (a, done) ↦ rw done (rest a (m w).1)
      | inr (e, failed) ↦ rw failed refl
    ])

module _ (E : Ports) (ctx : Context) where
  run-check_access :
      (project_id : ℤ) (owner_id : String) (w : World E)
      → run (check_access E ctx project_id) w
        ≡ Service.check_project_access E ctx project_id owner_id w
  unfolding run ◌>>=◌ check_access Service.check_project_access
  run-check_access project_id owner_id w =
      elim (Result-cases (E.projects.check_access ctx project_id w.peer).0) [
        | inl (true, granted) ↦ ground arith
        | inl (false, denied) ↦ ground arith
        | inr (e, failed) ↦ ground arith
      ]

  run-sign :
      (source : Source) (w : World E)
      → let (d, w') = Service.sign E ctx source w in run (sign E ctx source) w ≡ (ok d, w')
  unfolding run sign Service.sign
  run-sign source w = ground arith

  run-sign_all :
      (sources : List Source) (w : World E)
      → let (ds, w') = Service.sign_all E ctx sources w in
        run (sign_all E ctx sources) w ≡ (ok ds, w')
  unfolding run ◌>>=◌ sign_all Service.sign_all
  run-sign_all [] w = refl
  run-sign_all (source ∷ sources) w =
      let (d, w') = Service.sign E ctx source w in
      let one = run-sign source w in
      let rest = run-sign_all sources w' in
      run-bind (sign E ctx source) _ w ∙ rw (one, run-bind (sign_all E ctx sources) _ w', rest) refl

  run-get_source :
      (id project_id : ℤ) (owner_id : String) (w : World E)
      → run (get_source E ctx id project_id owner_id) w
        ≡ Service.get_source E ctx id project_id owner_id w
  unfolding run ◌>>=◌ get_source Service.get_source
  run-get_source id project_id owner_id w =
      run-chain (check_access E ctx project_id) _
        (Service.check_project_access E ctx project_id owner_id) _ w
        (run-check_access project_id owner_id w)
        (λ u w₁.
          run-chain (invoke (on_rows E (E.repo.find ctx id project_id owner_id))) _
            (on_rows E (E.repo.find ctx id project_id owner_id)) _ w₁ refl
            (λ source w₂. run-sign source w₂))

  run-list_sources :
      (project_id : ℤ) (owner_id : String) (w : World E)
      → run (list_sources E ctx project_id owner_id) w
        ≡ Service.list_sources E ctx project_id owner_id w
  unfolding run ◌>>=◌ list_sources Service.list_sources
  run-list_sources project_id owner_id w =
      run-chain (check_access E ctx project_id) _
        (Service.check_project_access E ctx project_id owner_id) _ w
        (run-check_access project_id owner_id w)
        (λ u w₁.
          run-chain (invoke (on_rows E (E.repo.find_all ctx project_id owner_id))) _
            (on_rows E (E.repo.find_all ctx project_id owner_id)) _ w₁ refl
            (λ sources w₂. run-sign_all sources w₂))

  run-delete_rest :
      (owner_id : String) (source : Source) (w : World E)
      → run (cancel_job E ctx owner_id source >>= λ _. delete_object E source) w
        ≡ Service.delete_rest E ctx owner_id source w
  unfolding run ◌>>=◌ cancel_job delete_object Service.delete_rest
  run-delete_rest owner_id source w = ground arith

  run-delete_source :
      (id project_id : ℤ) (owner_id : String) (w : World E)
      → run (delete_source E ctx id project_id owner_id) w
        ≡ Service.delete_source E ctx id project_id owner_id w
  unfolding run ◌>>=◌ delete_source Service.delete_source
  run-delete_source id project_id owner_id w =
      run-chain (check_access E ctx project_id) _
        (Service.check_project_access E ctx project_id owner_id) _ w
        (run-check_access project_id owner_id w)
        (λ u w₁.
          run-chain (invoke (on_rows E (E.repo.find ctx id project_id owner_id))) _
            (on_rows E (E.repo.find ctx id project_id owner_id)) _ w₁ refl
            (λ source w₂.
              run-chain (invoke (on_rows E (E.repo.delete ctx id project_id owner_id))) _
                (on_rows E (E.repo.delete ctx id project_id owner_id)) _ w₂ refl
                (λ v w₃. run-delete_rest owner_id source w₃)))

  run-resubmit :
      (owner_id : String) (source : Source) (w : World E)
      → run (resubmit E ctx owner_id source) w ≡ Service.resubmit E ctx owner_id source w
  unfolding run ◌>>=◌ resubmit Service.resubmit
  run-resubmit owner_id source w =
      let (job_id, w₁) = (Service.new_job_id E w) in
      let sent =
        Service.publish_create_job E ctx (E.uuid.new w.ids).0 owner_id source.id source.minio_path
          source.kind source.source_url w₁ in
      elim (Result-cases sent.0) [ inl (u, out) ↦ ground arith | inr (e, failed) ↦ ground arith ]

  run-retry_job :
      (id project_id : ℤ) (owner_id : String) (w : World E)
      → run (retry_job E ctx id project_id owner_id) w
        ≡ Service.retry_job E ctx id project_id owner_id w
  unfolding run ◌>>=◌ retry_job Service.retry_job
  run-retry_job id project_id owner_id w =
      run-chain (check_access E ctx project_id) _
        (Service.check_project_access E ctx project_id owner_id) _ w
        (run-check_access project_id owner_id w)
        (λ u w₁.
          run-chain (invoke (on_rows E (E.repo.find ctx id project_id owner_id))) _
            (on_rows E (E.repo.find ctx id project_id owner_id)) _ w₁ refl
            (λ source w₂. elim (Bool-cases (is_retryable source)) [
              | inl can ↦ rw can (run-resubmit owner_id source w₂)
              | inr cannot ↦ rw cannot refl
            ]))

  -- A request that runs alone makes the calls of its program: it ends, with the result of the method
  -- of the service and the state that this method leaves. For the four methods other than
  -- UploadSource.
  pub run-methods :
      (id project_id : ℤ) (owner_id : String) (w : World E)
      → (run (get_source E ctx id project_id owner_id) w
          ≡ Service.get_source E ctx id project_id owner_id w)
        × (run (list_sources E ctx project_id owner_id) w
            ≡ Service.list_sources E ctx project_id owner_id w)
        × (run (delete_source E ctx id project_id owner_id) w
            ≡ Service.delete_source E ctx id project_id owner_id w)
        × (run (retry_job E ctx id project_id owner_id) w
            ≡ Service.retry_job E ctx id project_id owner_id w)
  run-methods id project_id owner_id w = (
    run-get_source id project_id owner_id w,
    run-list_sources project_id owner_id w,
    run-delete_source id project_id owner_id w,
    run-retry_job id project_id owner_id w,
  )
