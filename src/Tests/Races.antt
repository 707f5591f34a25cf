-- ===== src/Tests/Races.antt =====
-- Requests that meet, over the ports in memory.
use sihkaromicro.Prelude.{
  suc, zero, ℕ, arith, pos, ◌≡◌, refl, true, false, Bool, List, [], ◌∷◌, length, if◌then◌else◌,
}
use sihkaromicro.Runtime.Errors.{ok}
use sihkaromicro.Runtime.Context.{background}
use sihkaromicro.Sources.Model.{status_failed}
use sihkaromicro.Sources.Ports.{Ports, World}
use sihkaromicro.Sources.Service.Upload.{new_source}
use sihkaromicro.Sources.Concurrent.{ended, next}
use sihkaromicro.Sources.Concurrent.Programs.{
  run, ◌>>=◌, check_access, sign, sign_all, get_source, list_sources, cancel_job, delete_object,
  delete_source, resubmit, retry_job,
}
use sihkaromicro.Sources.Concurrent.Turns.{is_ended, turns}
use sihkaromicro.Sources.Concurrent.Turns.Ends.{begin_ends}
use sihkaromicro.Sources.Concurrent.Requests.{
  upload, delete, retry, Thread, uploading, begin, advance,
}
use sihkaromicro.Tests.Memory.{ports, bucket, start}
use sihkaromicro.Tests.Upload.{opened, request}

abbrev E : Ports
E = ports bucket true

-- Opens what these requests run.
unfoldable programs : Unit {0}
unfolding opened next begin advance ◌>>=◌ check_access sign sign_all get_source list_sources
    cancel_job delete_object delete_source resubmit retry_job run
programs = tt

-- The first request makes a call at `true`, the second one at `false`.
abbrev play : List Bool → Thread E × Thread E × World E → Thread E × Thread E × World E
play [] s = s
play (turn ∷ turns) (a, b, w) =
    if turn
    then (let (a', w') = advance E a w in play turns (a', b, w'))
    else (let (b', w') = advance E b w in play turns (a, b', w'))

-- A source is deleted after its file is stored and before the path of the file is in its row: the
-- upload succeeds, and leaves a file that no row names.
abbrev stored_then_deleted : Thread E × Thread E × World E
stored_then_deleted =
    play (true ∷ true ∷ true ∷ true ∷ false ∷ false ∷ false ∷ true ∷ true ∷ true ∷ true ∷ true ∷ [])
      (
        begin E (upload background request),
        begin E (delete background (pos 1) (pos 5) "ann"),
        start true,
      )

orphan_upload :
    stored_then_deleted.0
    ≡ uploading background request (ended (ok (record { source_id = pos 1; job_id = "job-0" })))
unfolding programs
orphan_upload = refl

orphan_rows : stored_then_deleted.2.rows ≡ []
unfolding programs
orphan_rows = refl

orphan_object : stored_then_deleted.2.objects ≡ ("ann/a.pdf", request.reader) ∷ []
unfolding programs
orphan_object = refl

-- A source whose job has failed.
abbrev with_failed : World E
with_failed = record (start true) {
  rows =
      (record (new_source request) { id = pos 1; status = status_failed; job_id = "job-x" }) ∷ [];
}

-- Two retries read the failed source before either writes the new status: there are two jobs.
abbrev retried_twice : Thread E × Thread E × World E
retried_twice =
    play (true ∷ true ∷ false ∷ false ∷ true ∷ true ∷ true ∷ false ∷ false ∷ false ∷ []) (
      begin E (retry background (pos 1) (pos 5) "ann"),
      begin E (retry background (pos 1) (pos 5) "ann"),
      with_failed,
    )

two_jobs : length retried_twice.2.topics ≡ 2
unfolding programs
two_jobs = refl

-- A retry finds the source, and then nothing: all that it meets later is empty.
abbrev vanishing : ℕ → World E
vanishing zero = with_failed
vanishing (suc zero) = with_failed
vanishing (suc (suc n)) = start true

begin_ends_example :
    is_ended (turns (begin E (retry background (pos 1) (pos 5) "ann")) vanishing 5) ≡ true
begin_ends_example = begin_ends E (retry background (pos 1) (pos 5) "ann") vanishing 5 (omega arith)
