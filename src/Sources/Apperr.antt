-- ===== src/Sources/Apperr.antt =====
-- sources/internal/apperr: the errors of the business logic, and how errors of the database become
-- these and these become status errors.
pub mod Statuses
use sihkaromicro.Prelude.{String, ◌<>◌, Option, none, some, if◌then◌else◌}
use sihkaromicro.Runtime.Errors.{
  Error, sentinel, wrap, status, error_is, err_not_found, err_already_exists, err_invalid_argument,
  err_permission_denied, err_limit_exceeded, err_unavailable, gorm_record_not_found,
  gorm_duplicated_key, gorm_foreign_key_violated, gorm_invalid_data,
}
use sihkaromicro.Runtime.Errors.{Code}

-- `fmt.Errorf("%w: %s", ErrX, msg)`
abbrev pub not_found : String → Error
not_found msg = wrap "" (sentinel err_not_found) (": " <> msg)

abbrev pub invalid_argument : String → Error
invalid_argument msg = wrap "" (sentinel err_invalid_argument) (": " <> msg)

abbrev pub limit_exceeded : String → Error
limit_exceeded msg = wrap "" (sentinel err_limit_exceeded) (": " <> msg)

abbrev pub already_exists : String → Error
already_exists msg = wrap "" (sentinel err_already_exists) (": " <> msg)

abbrev pub unavailable : String → Error
unavailable msg = wrap "" (sentinel err_unavailable) (": " <> msg)

-- The `switch` of `FromGORM`.
unfoldable pub from_gorm_error : Error → String → Error
from_gorm_error e entity =
    if error_is e gorm_record_not_found
    then not_found entity
    else if error_is e gorm_duplicated_key
    then already_exists entity
    else if error_is e gorm_foreign_key_violated
    then invalid_argument (entity <> " has invalid reference")
    else if error_is e gorm_invalid_data
    then invalid_argument (entity <> " has invalid data")
    else wrap "db: " e ""

-- `none` is a nil error.
unfoldable pub from_gorm : Option Error → String → Option Error
unfolding from_gorm_error
from_gorm none entity = none
from_gorm (some e) entity = some (from_gorm_error e entity)

-- The handlers call this with an error that is not nil.
unfoldable pub to_grpc : Error → Error
to_grpc e =
    if error_is e err_not_found
    then status Code.not_found "not found"
    else if error_is e err_already_exists
    then status Code.already_exists "already exists"
    else if error_is e err_invalid_argument
    then status Code.invalid_argument "invalid argument"
    else if error_is e err_permission_denied
    then status Code.permission_denied "permission denied"
    else if error_is e err_limit_exceeded
    then status Code.failed_precondition "limit exceeded"
    else if error_is e err_unavailable
    then status Code.unavailable "service unavailable"
    else status Code.internal "internal error"
