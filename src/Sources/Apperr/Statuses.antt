-- ===== src/Sources/Apperr/Statuses.antt =====
-- The statuses that errors of the database end in.
use sihkaromicro.Prelude.{◌≡◌, String, ◌||◌, arith, if◌then◌else◌}
use sihkaromicro.Runtime.Errors.{
  Error, status, Code, error_is, gorm_record_not_found, gorm_duplicated_key,
  gorm_foreign_key_violated, gorm_invalid_data,
}
use sihkaromicro.Sources.Apperr.{from_gorm_error, to_grpc}

-- An error of the database, named by `FromGORM` and mapped by `ToGRPC`, is the status of its kind,
-- whatever the entity; an error of another kind is mapped as if it had not been wrapped.
pub to_grpc-from_gorm_error :
    (e : Error) (entity : String)
    → to_grpc (from_gorm_error e entity) ≡ (
        if error_is e gorm_record_not_found
        then status Code.not_found "not found"
        else if error_is e gorm_duplicated_key
        then status Code.already_exists "already exists"
        else if error_is e gorm_foreign_key_violated || error_is e gorm_invalid_data
        then status Code.invalid_argument "invalid argument"
        else to_grpc e)
unfolding to_grpc from_gorm_error error_is
to_grpc-from_gorm_error e entity = ground arith
