-- ===== src/Tests/Memory.antt =====
-- Ports kept in memory, which show that the laws can be met: a table, an object store, a topic log,
-- a projects service that lets everybody in, and ids that count.
use mathlib.Core.List.{Perm}
use mathlib.Core.List.Perm
use sihkaromicro.Prelude.{
  ℕ, inr, pos, suc, ◌+◌, ◌≤◌, ◌≡◌, ◌≢◌, refl, ap, Bool, true, not, String, ◌<>◌, Option, none, some,
  List, [], ◌∷◌, ◌++◌, arith, length, select, find, update, All, pos_part, str_eq, if◌then◌else◌,
  eq_iff,
}
use sihkaromicro.Runtime.Errors.{
  Error, Result, ok, err, sentinel, plain, error_is, err_not_found, gorm_record_not_found,
}
use sihkaromicro.Runtime.Decimal.{show_ℕ}
use sihkaromicro.Sources.Model.{Source, status_or_default}
use sihkaromicro.Sources.Spec.{
  chosen, TableView, ObjectView, IsStored, StorageLaws, ProducerLaws, Message, RepositoryLaws,
}
use sihkaromicro.Sources.Database.{Database, DatabaseLaws, write_all}
use sihkaromicro.Sources.Repository.{source_repository, delete_by_project_id_and_owner_id}
use sihkaromicro.Sources.Service.Upload.Atomic.{DeletesWhatIsThere}
use sihkaromicro.Sources.Repository.Laws.{source_repository-RepositoryLaws}
use sihkaromicro.Sources.Ports.{
  Ports, World, StorageService, MessageProducer, ProjectsClient, IdSource,
}

abbrev total : List Source → ℕ
total [] = 0
total (r ∷ rows) = pos_part r.id + total rows

abbrev numbered : Source → List Source → Source
numbered source rows = record source {
  id = pos (suc (total rows));
  status = status_or_default source.status;
  created_at = 7;
  updated_at = 7;
}

abbrev first_of_rows : Option Source → Result Source
first_of_rows none = err (sentinel gorm_record_not_found)
first_of_rows (some r) = ok r

abbrev pub table : Database
table = record {
  State = List Source;
  create = λ ctx source s. (ok (numbered source s), s ++ numbered source s ∷ []);
  first = λ ctx p s. (first_of_rows (find p s), s);
  find_where = λ ctx p s. (ok (select p s), s);
  count_where = λ ctx p s. (ok (length (select p s)), s);
  updates = λ ctx p cs s. (ok tt, update p (write_all cs 8) s);
  delete_where = λ ctx p s. (ok (length (select p s)), select (λ r. not (p r)) s);
}

abbrev pub table_view : TableView (List Source)
table_view = record { rows = λ s. s; now = λ s. 8 }

fresh_above : (rows : List Source) (n : ℕ) → total rows ≤ n → All (λ x. x.id ≢ pos (suc n)) rows
fresh_above [] n h = tt
fresh_above (r ∷ rows) n h = (λ e. omega (arith, ap pos_part e), fresh_above rows n (omega arith))

create_fresh :
    (source r : Source) (s : List Source)
    → ◌≡◌ {A = Result Source} (ok (numbered source s)) (ok r)
    → All (λ x. x.id ≢ r.id) s
create_fresh source r s h = rw (← same) (fresh_above s (total s) (omega arith))
  where
    same : numbered source s ≡ r
    same = cc

first_sound :
    (p : Source → Bool) (s : List Source) (r : Source)
    → first_of_rows (find p s) ≡ ok r
    → find p s ≡ some r
first_sound p s r h = ground arith

first_missing :
    (p : Source → Bool) (s : List Source) (e : Error)
    → first_of_rows (find p s) ≡ err e
    → find p s ≡ none
first_missing p s e h = ground arith

first_foreign :
    (p : Source → Bool) (s : List Source) (e : Error)
    → first_of_rows (find p s) ≡ err e
    → error_is e err_not_found ≡ Bool.false
unfolding error_is
first_foreign p s e h = ground arith

create-IsStored :
    (source r : Source) (s : List Source)
    → ◌≡◌ {A = Result Source} (ok (numbered source s)) (ok r)
    → IsStored source r
create-IsStored source r s h = record { same = ground arith }

perm_of_ok : (xs rs : List Source) → ◌≡◌ {A = Result (List Source)} (ok xs) (ok rs) → Perm rs xs
perm_of_ok xs rs h = rw same (Perm.refl xs)
  where
    same : rs ≡ xs
    same = cc

pub table-DatabaseLaws : DatabaseLaws table table_view
table-DatabaseLaws = record {
  rows-create = λ ctx source s. refl;
  create_stored = λ ctx source r s h. create-IsStored source r s h;
  create_fresh = λ ctx source r s h. create_fresh source r s h;
  rows-first = λ ctx p s. refl;
  first_sound = λ ctx p s r h. first_sound p s r h;
  first_missing = λ ctx p s e h nf. first_missing p s e h;
  first_foreign = λ ctx p s e h. first_foreign p s e h;
  rows-find_where = λ ctx p s. refl;
  find_where_sound = λ ctx p s rs h. perm_of_ok _ _ h;
  rows-count_where = λ ctx p s. refl;
  count_where_sound = λ ctx p s n h. cc;
  rows-updates = λ ctx p cs s. refl;
  rows-delete_where = λ ctx p s. refl;
  delete_where_foreign = λ ctx p s e h. absurd cc;
  delete_where_affected = λ ctx p s n h. cc;
}

abbrev pub repo_laws : RepositoryLaws (source_repository table) table_view
repo_laws = source_repository-RepositoryLaws table table_view table-DatabaseLaws

abbrev pub Objects : Type 0
Objects = List (String × List ℕ)

unfoldable pub lookup : Objects → String → Option (List ℕ)
lookup [] key = none
lookup ((k, v) ∷ m) key = if str_eq k key then some v else lookup m key

unfoldable pub without : String → Objects → Objects
without key [] = []
without key ((k, v) ∷ m) = let rest = without key m in if str_eq k key then rest else (k, v) ∷ rest

abbrev pub bucket : StorageService
bucket = record {
  State = Objects;
  upload = λ ctx name bytes size kind s. (ok tt, (name, bytes) ∷ s);
  delete = λ ctx name s. (ok tt, without name s);
  object_name = λ owner id name. owner <> ("/" <> name);
  presigned_url = λ ctx name s. (ok ("https://store/" <> name), s);
}

-- A store that is down.
abbrev pub down : StorageService
down = record {
  State = Objects;
  upload = λ ctx name bytes size kind s. (err (plain "connection refused"), s);
  delete = λ ctx name s. (err (plain "connection refused"), s);
  object_name = λ owner id name. owner <> ("/" <> name);
  presigned_url = λ ctx name s. (err (plain "connection refused"), s);
}

abbrev pub object_view : ObjectView Objects
object_view = record { object = lookup; kept = λ bytes size. bytes }

lookup-without :
    (name : String) (s : Objects) (key : String)
    → lookup (without name s) key ≡ (if str_eq name key then none else lookup s key)
unfolding lookup without
lookup-without name [] key = ground arith
lookup-without name ((k, v) ∷ s) key =
    ground (arith, lookup-without name s key, eq_iff k name, eq_iff k key, eq_iff name key)

pub bucket-StorageLaws : StorageLaws bucket object_view
unfolding lookup
bucket-StorageLaws = record {
  object-upload = λ ctx name bytes size kind s key. refl;
  object-delete = λ ctx name s key. lookup-without name s key;
  object-presigned_url = λ ctx name s key. refl;
}

pub down-StorageLaws : StorageLaws down object_view
down-StorageLaws = record {
  object-upload = λ ctx name bytes size kind s key. refl;
  object-delete = λ ctx name s key. refl;
  object-presigned_url = λ ctx name s key. refl;
}

abbrev pub topic_log : MessageProducer
topic_log = record {
  State = List Message;
  publish = λ ctx topic key payload s.
      (ok tt, s ++ (record { topic = topic; key = key; payload = payload }) ∷ []);
}

pub topic_log-ProducerLaws : ProducerLaws topic_log (λ s. s)
topic_log-ProducerLaws = record {
  sent-publish = λ ctx m s h. refl;
  sent_at_most = λ ctx m s. inr refl;
}

abbrev pub doors : Bool → ProjectsClient
doors open_to_all = record { State = Unit; check_access = λ ctx project_id s. (ok open_to_all, s) }

abbrev pub counter : IdSource
counter = record { State = ℕ; new = λ n. ("job-" <> show_ℕ n, suc n) }

abbrev pub ports : StorageService → Bool → Ports
ports storage open_to_all = record {
  repo = source_repository table;
  projects = doors open_to_all;
  producer = topic_log;
  storage = storage;
  uuid = counter;
}

abbrev pub start : (open_to_all : Bool) → World (ports bucket open_to_all)
start open_to_all = record { rows = []; peer = tt; topics = []; objects = []; ids = 0 }

abbrev pub start_down : World (ports down true)
start_down = record { rows = []; peer = tt; topics = []; objects = []; ids = 0 }

find-none_of_length :
    (p : Source → Bool) (s : List Source) → length (select p s) ≡ 0 → find p s ≡ none
unfolding find select
find-none_of_length p [] h = refl
find-none_of_length p (r ∷ s) h = ground (arith, find-none_of_length p s)

pub deletes_what_is_there : DeletesWhatIsThere (source_repository table) table_view
unfolding delete_by_project_id_and_owner_id
deletes_what_is_there id project_id owner_id s e h =
    ground (arith, find-none_of_length (chosen id project_id owner_id) s)
