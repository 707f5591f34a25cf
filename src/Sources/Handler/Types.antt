-- ===== src/Sources/Handler/Types.antt =====
-- The types of sources, between the messages and the table.
use sihkaromicro.Prelude.{zero, suc, refl, ℕ, pos, ◌≤◌, ◌≡◌, arith}
use sihkaromicro.Sources.Model.{source_type_to_proto}
use sihkaromicro.Sources.Handler.{proto_type_to_model}

-- A type that a message may name, pdf to url, comes back from the table as it was sent.
pub source_type_to_proto-proto_type_to_model :
    (n : ℕ) → 1 ≤ n → n ≤ 5 → source_type_to_proto (proto_type_to_model (pos n)) ≡ pos n
unfolding source_type_to_proto proto_type_to_model
source_type_to_proto-proto_type_to_model zero low high = absurd (omega arith)
source_type_to_proto-proto_type_to_model (suc zero) low high = refl
source_type_to_proto-proto_type_to_model (suc (suc zero)) low high = refl
source_type_to_proto-proto_type_to_model (suc (suc (suc zero))) low high = refl
source_type_to_proto-proto_type_to_model (suc (suc (suc (suc zero)))) low high = refl
source_type_to_proto-proto_type_to_model (suc (suc (suc (suc (suc zero))))) low high = refl
source_type_to_proto-proto_type_to_model (suc (suc (suc (suc (suc (suc n)))))) low high =
    absurd (omega arith)
