-- ===== src/Tests/Types.antt =====
-- A markdown file.
use sihkaromicro.Prelude.{pos, ◌≡◌, arith}
use sihkaromicro.Sources.Model.{source_type_to_proto}
use sihkaromicro.Sources.Handler.{proto_type_to_model}
use sihkaromicro.Sources.Handler.Types.{source_type_to_proto-proto_type_to_model}

source_type_to_proto-proto_type_to_model_example :
    source_type_to_proto (proto_type_to_model (pos 4)) ≡ pos 4
source_type_to_proto-proto_type_to_model_example =
    source_type_to_proto-proto_type_to_model 4 (omega arith) (omega arith)
