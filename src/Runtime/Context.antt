-- ===== src/Runtime/Context.antt =====
-- `context.Context` as far as the services read it: the gRPC metadata of the incoming and of the
-- outgoing call, and the value under the key "user_id". Deadlines are not modelled: any call of an
-- external component may fail at any time.
use sihkaromicro.Prelude.{String, Option, none, List, [], ◌∷◌, str_eq, if◌then◌else◌}

abbrev pub Metadata : Type 0
Metadata = List (String × List String)

pub record Context : Type 0 where
  pub incoming : Option Metadata
  pub outgoing : Option Metadata
  pub user_id : Option String

-- `context.Background()`
abbrev pub background : Context
background = record { incoming = none; outgoing = none; user_id = none }

-- `md[key]`: the values under a key, none if it is not there.
unfoldable pub values_of : String → Metadata → List String
values_of key [] = []
values_of key ((k, vs) ∷ md) = if str_eq k key then vs else values_of key md
