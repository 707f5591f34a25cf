-- ===== src/Tests/Projects.antt =====
-- The projects service over a table in memory, and the sources service connected to it.
use mathlib.Core.List.{Perm}
use mathlib.Core.List.Perm
use sihkaromicro.Prelude.{
  leb, ◌-◌, if◌then◌else◌, pos, ◌≡◌, ◌≢◌, ◌↔◌, refl, ap, Bool, true, not, String, Option, none,
  some, List, [], ◌∷◌, ◌++◌, arith, length, select, find,
}
use sihkaromicro.Runtime.Errors.{Error, Result, ok, err, sentinel, gorm_record_not_found}
use sihkaromicro.Runtime.Context.{background, values_of}
use sihkaromicro.Runtime.Text.{trim_prefix}
use sihkaromicro.Sources.Interceptor.{authorize, with_user, must_user_id_from_ctx}
use sihkaromicro.Sources.Handler.Boundary.{as_user}
use sihkaromicro.Sources.Ports.{World}
use sihkaromicro.Sources.Service.Upload.{upload_source}
use sihkaromicro.Projects.Interceptor.{serve, unary, is_public}
use sihkaromicro.Projects.Handler.{check_access, access_response}
use sihkaromicro.Projects.Handler.Access.{check_access_method, check_access-has_access}
use sihkaromicro.Projects.Handler.Owned.{create_adds_row, delete_removes_row, list_is_page}
use sihkaromicro.Projects.Client.{Transport, projects_client, check_access_over, stub, connected}
use sihkaromicro.Projects.Client.Owner.{
  AgreeOnSubject, check_access_over-owned, upload_source-owned,
}
use sihkaromicro.Tests.Memory.{ports, bucket, table_view, repo_laws}
use sihkaromicro.Tests.Upload.{request, opened}
use sihkaromicro.Tests.Handler.{gate, ann, ann-IsUser}
use sihkaromicro.Projects.Model.{Project, PageWrapper, CheckAccessResponse}
use sihkaromicro.Projects.Database.{
  Database, DatabaseLaws, IsStored, chosen, owned, take, drop, skip, limit_to,
}
use sihkaromicro.Projects.Repository.{find_project, page}
use sihkaromicro.Projects.Service.{create, delete, list, can_manage}

abbrev numbered : Project → Project
numbered p = record p { id = pos 9; created_at = 7; updated_at = 7 }

abbrev first_of_rows : Option Project → Result Project
first_of_rows none = err (sentinel gorm_record_not_found)
first_of_rows (some r) = ok r

-- A table that keeps one order.
abbrev pub table : Database
table = record {
  State = List Project;
  create = λ ctx p s. (ok (numbered p), s ++ numbered p ∷ []);
  first = λ ctx p s. (first_of_rows (find p s), s);
  count_where = λ ctx p s. (ok (length (select p s)), s);
  page_where = λ ctx p offset limit s. (ok (limit_to limit (skip offset (select p s))), s);
  delete_where = λ ctx p s. (ok (length (select p s)), select (λ r. not (p r)) s);
}

abbrev rows : List Project → List Project
rows s = s

create_lem :
    (given r : Project) → ◌≡◌ {A = Result Project} (ok (numbered given)) (ok r) → IsStored given r
create_lem given r h = record { owner = ground arith; title = ground arith }

first_lem :
    (p : Project → Bool) (s : List Project) (r : Project)
    → first_of_rows (find p s) ≡ ok r
    → find p s ≡ some r
first_lem p s r h = ground arith

missing_lem :
    (p : Project → Bool) (s : List Project) (e : Error)
    → first_of_rows (find p s) ≡ err e
    → find p s ≡ none
missing_lem p s e h = ground arith

laws : DatabaseLaws table rows
laws = record {
  rows-create = λ ctx p s. refl;
  create_stored = λ ctx p r s h. create_lem p r h;
  rows-first = λ ctx p s. refl;
  first_sound = λ ctx p s r h. first_lem p s r h;
  first_missing = λ ctx p s e h nf. missing_lem p s e h;
  rows-count_where = λ ctx p s. refl;
  count_where_sound = λ ctx p s n h. cc;
  rows-page_where = λ ctx p o l s. refl;
  page_where_sound = λ ctx p o l s ps h. (select p s, Perm.refl (select p s), cc);
  rows-delete_where = λ ctx p s. refl;
  delete_where_affected = λ ctx p s n h. cc;
}

abbrev thesis : Project
thesis = record { id = pos 5; created_at = 7; updated_at = 7; owner_id = "ann"; title = "thesis" }

abbrev one : List Project
one = thesis ∷ []

create_adds_row_example :
    ((p : Project)
      → (create table background "ann" "thesis" []).0 ≡ ok p
      → (◌≢◌ {A = String} "thesis" "")
        × (p.owner_id ≡ "ann")
        × (p.title ≡ "thesis")
        × ((create table background "ann" "thesis" []).1 ≡ p ∷ []))
    × ((e : Error)
        → (create table background "ann" "thesis" []).0 ≡ err e
        → (create table background "ann" "thesis" []).1 ≡ [])
create_adds_row_example = create_adds_row table rows laws background "ann" [] "thesis"

delete_removes_row_example :
    ((delete table background "ann" (pos 5) one).0 ≡ ok tt
      → (find (chosen "ann" (pos 5)) one ≢ none)
        × ((delete table background "ann" (pos 5) one).1
            ≡ select (λ p. not (chosen "ann" (pos 5) p)) one))
    × ((e : Error)
        → (delete table background "ann" (pos 5) one).0 ≡ err e
        → (delete table background "ann" (pos 5) one).1 ≡ one)
delete_removes_row_example = delete_removes_row table rows laws background "ann" one (pos 5)

abbrev essay : Project
essay = record thesis { id = pos 6; title = "essay" }

abbrev two : List Project
two = thesis ∷ essay ∷ []

abbrev second_page : PageWrapper
second_page = record { total = 2; data_rows = essay ∷ [] }

listed : (list table background "ann" (pos 2) (pos 1) two).0 ≡ ok second_page
unfolding list page select take drop
listed = refl

list_is_page_example :
    let owned_rows = select (owned "ann") two in
    (2 ≡ length owned_rows)
    × ((order : List Project) × Perm order owned_rows × (essay ∷ [] ≡ take 1 (drop 1 order)))
    × (1 ≡ (if leb 1 (length owned_rows - 1) then 1 else length owned_rows - 1))
    × ((list table background "ann" (pos 2) (pos 1) two).1 ≡ two)
list_is_page_example =
    list_is_page table rows laws background "ann" two (pos 2) 1 second_page listed

abbrev granted : CheckAccessResponse
granted = record { has_access = true }

abbrev answered : Result CheckAccessResponse × List Project
answered =
    serve gate check_access_method (check_access table (record { project_id = pos 5 })) ann one

answered_granted : answered.0 ≡ ok granted
unfolding serve unary is_public authorize values_of trim_prefix check_access with_user
    must_user_id_from_ctx can_manage find_project find access_response
answered_granted = refl

check_access-has_access_example :
    ((true ≡ true) ↔ ((p : Project) × (find (chosen "ann" (pos 5)) one ≡ some p)))
    × (answered.1 ≡ one)
check_access-has_access_example =
    check_access-has_access gate table rows laws ann (pos 5) one "ann" granted ann-IsUser
      answered_granted

abbrev net : Transport
net = record { State = Unit; failure = λ ctx n. (none, n); headers = [] }

quiet : values_of "authorization" net.headers ≡ []
unfolding values_of
quiet = refl

gate-AgreeOnSubject : AgreeOnSubject gate gate
gate-AgreeOnSubject c c' raw t t' claims claims' h h' e e' = ap (λ x. x.sub) same
  where
    same : claims ≡ claims'
    same = cc

client_granted :
    ((projects_client net gate table).check_access (as_user gate ann "ann") (pos 5) (tt, one)).0
    ≡ ok true
unfolding check_access_over stub serve unary is_public authorize values_of trim_prefix check_access
    with_user must_user_id_from_ctx can_manage find_project find access_response
client_granted = refl

check_access_over-owned_example : (p : Project) × (find (chosen "ann" (pos 5)) one ≡ some p)
check_access_over-owned_example =
    check_access_over-owned net gate table rows laws quiet gate ann "ann" (pos 5) tt one
      gate-AgreeOnSubject ann-IsUser client_granted

abbrev both : World (connected net gate table (ports bucket true))
both = record { rows = []; peer = (tt, one); topics = []; objects = []; ids = 0 }

both_uploaded :
    (upload_source
      (connected net gate table (ports bucket true))
      (as_user gate ann "ann")
      request
      both).0
    ≡ ok (record { source_id = pos 1; job_id = "job-0" })
unfolding opened check_access_over stub serve unary is_public authorize values_of trim_prefix
    check_access with_user must_user_id_from_ctx can_manage find_project access_response
both_uploaded = refl

upload_source-owned_example : (p : Project) × (find (chosen "ann" (pos 5)) one ≡ some p)
upload_source-owned_example =
    upload_source-owned net gate table rows laws quiet (ports bucket true) table_view repo_laws gate
      ann "ann" request both (record { source_id = pos 1; job_id = "job-0" }) gate-AgreeOnSubject
      ann-IsUser both_uploaded
