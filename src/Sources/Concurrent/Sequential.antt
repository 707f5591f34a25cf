-- ===== src/Sources/Concurrent/Sequential.antt =====
-- A request that runs alone, in single calls and as `upload_source`.
use sihkaromicro.Prelude.{
  ℕ, ◌≤◌, suc, ◌≡◌, refl, inl, inr, true, false, leb, String, Option, none, some, arith, str_eq,
  Bool-cases,
}
use sihkaromicro.Runtime.Errors.{Error, ok, err, Result-cases}
use sihkaromicro.Runtime.Context.{Context}
use sihkaromicro.Runtime.Calls.{
  Attempt, attempting, deferring, failed, attempting-ok, attempting-err, Call,
}
use sihkaromicro.Sources.Apperr.{unavailable}
use sihkaromicro.Sources.Model.{Source, type_url, status_uploaded}
use sihkaromicro.Sources.Ports.{Ports, World, on_peer, on_rows, on_objects}
use sihkaromicro.Sources.Service.{
  UploadSourceRequest, UploadSourceResult, max_sources_per_project, check_project_access,
  check_limits, publish_create_job,
}
use sihkaromicro.Sources.Service.Upload.{
  new_source, remove_row, remove_object, submit, store, process, upload_saved, upload_source,
}
use sihkaromicro.Sources.Concurrent.{
  Phase, placed, saved, undo, asking, counting, saving, storing, linking, marking, deleting, ended,
  next, steps,
}
use sihkaromicro.Sources.Concurrent.Gets.{
  Gets, Gets-here, Gets-more, Gets-next, Does, Does-next, Does-deferring,
}

module _ (E : Ports) (ctx : Context) (req : UploadSourceRequest) where
  placed_id : (source : Source) (name : Option String) → (placed source name).id ≡ source.id
  placed_id source none = refl
  placed_id source (some name) = refl

  -- The rest after `marking`.
  Does-submit :
      (source : Source) (name : Option String) (w : World E)
      → Does E ctx req 4 1
          (marking source name)
          w
          (submit E ctx req (placed source name) w)
          (undo source name)
  unfolding steps next submit attempting publish_create_job
  Does-submit source name w =
      let same : (placed source name).id ≡ source.id = placed_id source name in
      elim (Result-cases
        (E.repo.update_status ctx (placed source name).id status_uploaded "" w.rows).0) [
          | inl (_, done) ↦
              inl (ground arith, record { calls = 4; few = omega arith; run = ground arith })
          | inr (e, bad) ↦ inr (
            unavailable "source repository",
            ground arith,
            record { calls = 1; few = omega arith; run = ground arith },
          )
        ]

  -- A call in a body that is the next call of the phase.
  Does-attempting :
      {k j : ℕ} (p : Phase) {p' : Phase} {w : World E} {undoing : Error → Phase}
      (m : Call (World E) (Unit {0})) (e : Error)
      (rest : World E → Attempt UploadSourceResult × World E)
      → ((m w).0 ≡ ok tt → next E ctx req p w ≡ (p', (m w).1))
      → ((x : Error) → (m w).0 ≡ err x → next E ctx req p w ≡ (undoing e, (m w).1))
      → Does E ctx req k j p' (m w).1 (rest (m w).1) undoing
      → Does E ctx req (suc k) (suc j) p w (attempting m e (λ _. rest) w) undoing
  Does-attempting p {p'} {w} m e rest on_ok on_err does = elim (Result-cases (m w).0) [
    | inl (_, done) ↦
        rw (attempting-ok m e (λ _. rest) w done) (Does-next E ctx req p w (on_ok done) does)
    | inr (x, bad) ↦ rw (attempting-err m e (λ _. rest) w bad) (
        inr (
          e,
          refl,
          Gets-more E ctx req (omega arith)
              (Gets-next E ctx req p w (on_err x bad) (Gets-here E ctx req _ _)),
        ))
  ]

  Does-store :
      (source : Source) (w : World E)
      → Does E ctx req 6 4 (storing source) w (store E ctx req source w) (deleting source)
  unfolding store next
  Does-store source w =
      let name = E.storage.object_name req.owner_id source.id req.name in
      Does-attempting (storing source)
        (on_objects E (E.storage.upload ctx name req.reader req.size req.content_type))
        (unavailable "storage")
        (deferring
          (attempting (on_rows E (E.repo.update_minio_path ctx source.id name))
            (unavailable "source repository")
            λ _. submit E ctx req (record source { minio_path = name }))
          (remove_object E name))
        (λ h. ground arith) (λ x h. ground arith)
        (Does-deferring E ctx req
          (attempting (on_rows E (E.repo.update_minio_path ctx source.id name))
            (unavailable "source repository")
            λ _. submit E ctx req (record source { minio_path = name }))
          (remove_object E name) (λ e w₁. refl)
          (Does-attempting (linking source name)
            (on_rows E (E.repo.update_minio_path ctx source.id name))
            (unavailable "source repository")
            (submit E ctx req (record source { minio_path = name })) (λ h. ground arith)
            (λ x h. ground arith) (Does-submit source (some name) _)))

  process-url :
      (source : Source) (w : World E)
      → str_eq req.kind type_url ≡ true
      → process E ctx req source w ≡ deferring (submit E ctx req source) (remove_row E source) w
  unfolding process deferring
  process-url source w url = ground arith

  process-file :
      (source : Source) (w : World E)
      → str_eq req.kind type_url ≡ false
      → process E ctx req source w ≡ deferring (store E ctx req source) (remove_row E source) w
  unfolding process deferring
  process-file source w file = ground arith

  Gets-result :
      {k j : ℕ} {p : Phase} {w : World E} (x : Attempt UploadSourceResult × World E)
      → j ≤ k
      → Does E ctx req k j p w x (λ e. ended (err e))
      → Gets E ctx req k p w (ended x.0.result) x.1
  Gets-result x h (inl (good, g)) = g
  Gets-result {k} {p} {w} x h (inr (e, bad, g)) = rw bad (Gets-more E ctx req h g)

  -- From the saved row on.
  Gets-process :
      (source : Source) (w : World E)
      → let (a, w') = process E ctx req source w in
        Gets E ctx req 6 (saved req (ok source)) w (ended a.result) w'
  unfolding next
  Gets-process source w = elim (Bool-cases (str_eq req.kind type_url)) [
    | inl url ↦
        rw (url, process-url source w url)
          (Gets-more E ctx req (omega arith) (
            Gets-result _ (omega arith) (
              Does-deferring E ctx req (submit E ctx req source) (remove_row E source)
                (λ e w₁. refl) (Does-submit source none w))))
    | inr file ↦
        rw (file, process-file source w file)
          (Gets-result _ (omega arith) (
            Does-deferring E ctx req (store E ctx req source) (remove_row E source) (λ e w₁. refl)
              (Does-store source w)))
  ]

  -- A request to upload that runs alone ends after at most nine calls of ports, with the result of
  -- `upload_source` and the state that it leaves.
  pub upload_source-Gets :
      (w : World E)
      → let (r, w') = upload_source E ctx req w in Gets E ctx req 9 asking w (ended r) w'
  unfolding steps next upload_source upload_saved check_project_access check_limits
  upload_source-Gets w =
      let w₁ = (on_peer E (E.projects.check_access ctx req.project_id) w).1 in
      let w₂ = (on_rows E (E.repo.count ctx req.project_id req.owner_id) w₁).1 in
      let w₃ = (on_rows E (E.repo.save ctx (new_source req)) w₂).1 in
      elim (Result-cases (E.projects.check_access ctx req.project_id w.peer).0) [
        | inr (e, failed) ↦ record { calls = 1; few = omega arith; run = ground arith }
        | inl (false, denied) ↦ record { calls = 1; few = omega arith; run = ground arith }
        | inl (true, granted) ↦
            elim (Result-cases (E.repo.count ctx req.project_id req.owner_id w₁.rows).0) [
              | inr (e, failed) ↦ record { calls = 2; few = omega arith; run = ground arith }
              | inl (n, known) ↦ elim (Bool-cases (leb max_sources_per_project n)) [
                | inl full ↦ record { calls = 2; few = omega arith; run = ground arith }
                | inr room ↦ elim (Result-cases (E.repo.save ctx (new_source req) w₂.rows).0) [
                  | inr (e, failed) ↦ record { calls = 3; few = omega arith; run = ground arith }
                  | inl (source, new) ↦
                      let (a, w') = process E ctx req source w₃ in
                      let up : upload_source E ctx req w ≡ (a.result, w') = ground arith in
                      rw up (
                        Gets-next E ctx req asking w (ground arith) (
                          Gets-next E ctx req counting w₁ (ground arith) (
                            Gets-next E ctx req saving w₂ (ground arith) (Gets-process source w₃))))
                ]
              ]
            ]
      ]
