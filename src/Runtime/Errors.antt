-- ===== src/Runtime/Errors.antt =====
-- Go's `error` values, `errors.Is` and `fmt.Errorf` with one `%w`; the gRPC status errors.
-- The sentinels are those that the services compare with: the six of
-- sources/internal/apperr/apperr.go, and the four of gorm that sources/internal/apperr/gorm.go reads.
use sihkaromicro.Prelude.{ℕ, ◌≡◌, refl, Bool, false, String, ◌<>◌, ◌==◌, ◌⊎◌, inl, inr}

pub data Sentinel : Type 0 where
  err_not_found err_already_exists err_invalid_argument : Sentinel
  err_permission_denied err_limit_exceeded err_unavailable : Sentinel
  gorm_record_not_found gorm_duplicated_key gorm_foreign_key_violated gorm_invalid_data : Sentinel

-- The codes of google.golang.org/grpc/codes that occur.
pub data Code : Type 0 where
  canceled invalid_argument not_found already_exists permission_denied : Code
  failed_precondition unimplemented internal unavailable unauthenticated : Code

-- `wrap before e after` is an error that wraps `e`, with a text before and one after its message.
pub data Error : Type 0 where
  sentinel : Sentinel → Error
  wrap : String → Error → String → Error
  status : Code → String → Error
  plain : String → Error

abbrev pub tag : Sentinel → ℕ
tag err_not_found = 0
tag err_already_exists = 1
tag err_invalid_argument = 2
tag err_permission_denied = 3
tag err_limit_exceeded = 4
tag err_unavailable = 5
tag gorm_record_not_found = 6
tag gorm_duplicated_key = 7
tag gorm_foreign_key_violated = 8
tag gorm_invalid_data = 9

-- `errors.Is(e, target)` for a sentinel: some error of the chain is the target itself.
unfoldable pub error_is : Error → Sentinel → Bool
error_is (sentinel s) target = tag s == tag target
error_is (wrap _ e _) target = error_is e target
error_is (status _ _) target = false
error_is (plain _) target = false

abbrev text_of : Sentinel → String
text_of err_not_found = "not found"
text_of err_already_exists = "already exists"
text_of err_invalid_argument = "invalid argument"
text_of err_permission_denied = "permission denied"
text_of err_limit_exceeded = "limit exceeded"
text_of err_unavailable = "service unavailable"
text_of gorm_record_not_found = "record not found"
text_of gorm_duplicated_key = "duplicated key not allowed"
text_of gorm_foreign_key_violated = "violates foreign key constraint"
text_of gorm_invalid_data = "unsupported data"

abbrev code_text : Code → String
code_text canceled = "Canceled"
code_text invalid_argument = "InvalidArgument"
code_text not_found = "NotFound"
code_text already_exists = "AlreadyExists"
code_text permission_denied = "PermissionDenied"
code_text failed_precondition = "FailedPrecondition"
code_text unimplemented = "Unimplemented"
code_text internal = "Internal"
code_text unavailable = "Unavailable"
code_text unauthenticated = "Unauthenticated"

-- `e.Error()`.
unfoldable pub message : Error → String
message (sentinel s) = text_of s
message (wrap before e after) = before <> (message e <> after)
message (status c m) = "rpc error: code = " <> (code_text c <> (" desc = " <> m))
message (plain m) = m

-- A call that gives a value or an error.
pub data Result {ℓ} (A : Type ℓ) : Type ℓ where
  ok : A → Result A
  err : Error → Result A

-- A call may panic too; the services panic with an error value, or with a text as the runtime does.
pub data Panic : Type 0 where
  error_value : Error → Panic
  runtime_error : String → Panic

pub data Outcome {ℓ} (A : Type ℓ) : Type ℓ where
  returned : Result A → Outcome A
  panicked : Panic → Outcome A

pub Result-cases {ℓ} :
    {A : Type ℓ} (r : Result A) → ((a : A) × (r ≡ ok a)) ⊎ ((e : Error) × (r ≡ err e))
Result-cases (ok a) = inl (a, refl)
Result-cases (err e) = inr (e, refl)
