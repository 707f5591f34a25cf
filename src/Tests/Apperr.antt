-- ===== src/Tests/Apperr.antt =====
-- A source that is not in the table.
use sihkaromicro.Prelude.{◌≡◌}
use sihkaromicro.Runtime.Errors.{status, Code, sentinel, gorm_record_not_found, error_is}
use sihkaromicro.Sources.Apperr.{from_gorm_error, to_grpc}
use sihkaromicro.Sources.Apperr.Statuses.{to_grpc-from_gorm_error}

to_grpc-from_gorm_error_example :
    to_grpc (from_gorm_error (sentinel gorm_record_not_found) "source")
    ≡ status Code.not_found "not found"
unfolding error_is
to_grpc-from_gorm_error_example = to_grpc-from_gorm_error (sentinel gorm_record_not_found) "source"
