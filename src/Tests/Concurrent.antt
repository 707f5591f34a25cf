-- ===== src/Tests/Concurrent.antt =====
-- Uploads at the same time, over the ports in memory.
use sihkaromicro.Prelude.{
  All, ℕ, zero, suc, pos, ◌+◌, ◌<◌, ◌≤◌, ◌≡◌, true, refl, arith, List, [], ◌∷◌, ◌++◌,
}
use sihkaromicro.Runtime.Context.{background}
use sihkaromicro.Sources.Model.{Source}
use sihkaromicro.Sources.Ports.{Ports, World}
use sihkaromicro.Sources.Service.{max_sources_per_project}
use sihkaromicro.Sources.Service.Upload.{new_source}
use sihkaromicro.Sources.Concurrent.{next}
use sihkaromicro.Sources.Concurrent.Counting.{held}
use sihkaromicro.Sources.Concurrent.Requests.{
  Request, upload, Thread, System, turn, Reach, here, later, begin, begin_all, advance,
}
use sihkaromicro.Sources.Concurrent.Limit.{rows_held, Reach-limit}
use sihkaromicro.Sources.Concurrent.Keys.{passes, either, listed, held_by}
use sihkaromicro.Sources.Concurrent.Orphans.Accounts.{Reach-accounted}
use sihkaromicro.Tests.Memory.{deletes_what_is_there, ports, bucket, start, table_view, repo_laws}
use sihkaromicro.Tests.Upload.{opened, request}

abbrev E : Ports
E = ports bucket true

-- A table that already has rows of the request's project and owner.
abbrev filled : ℕ → List Source
filled zero = []
filled (suc n) = filled n ++ (record (new_source request) { id = pos (suc n) }) ∷ []

abbrev almost_full : World E
almost_full = record (start true) { rows = filled 19 }

abbrev both : List Request
both = upload background request ∷ upload background request ∷ []

-- The two requests take turns.
abbrev round : Thread E × Thread E × World E → Thread E × Thread E × World E
round (a, b, w) = let (a', w₁) = advance E a w in let (b', w₂) = advance E b w₁ in (a', b', w₂)

abbrev system : Thread E × Thread E × World E → System E
system (a, b, w) = record { world = w; threads = a ∷ b ∷ [] }

Reach-round :
    (s : System E) (x : Thread E × Thread E × World E)
    → Reach E s (system x)
    → Reach E s (system (round x))
Reach-round s (a, b, w) r =
    let (a', w₁) = advance E a w in later (later r (turn [] (b ∷ []) a w)) (turn (a' ∷ []) [] b w₁)

abbrev rounds : ℕ → Thread E × Thread E × World E
rounds zero =
    (begin E (upload background request), begin E (upload background request), almost_full)
rounds (suc n) = round (rounds n)

Reach-rounds : (n : ℕ) → Reach E (system (rounds 0)) (system (rounds n))
Reach-rounds zero = here
Reach-rounds (suc n) = Reach-round (system (rounds 0)) (rounds n) (Reach-rounds n)

-- Both are counted before either saves: the limit is passed by one.
race : rows_held E table_view repo_laws (pos 5) "ann" (system (rounds 3)) ≡ 21
unfolding opened next advance begin
race = refl

few : held E table_view repo_laws (pos 5) "ann" (filled 19) ≤ max_sources_per_project
unfolding opened
few = ground arith

Reach-limit_example :
    rows_held E table_view repo_laws (pos 5) "ann" (system (rounds 3)) < max_sources_per_project + 2
unfolding begin_all
Reach-limit_example =
    Reach-limit E table_view repo_laws (pos 5) "ann" both almost_full (Reach-rounds 3) (omega arith)
      few

-- The table of the two uploads has the rows of the start and one row of each of them.
Reach-accounted_example :
    let (a, b, w) = rounds 3 in
    All (λ r. passes (either (listed (filled 19)) (held_by (a ∷ b ∷ []))) r ≡ true) w.rows
unfolding begin_all
Reach-accounted_example =
    Reach-accounted E table_view repo_laws deletes_what_is_there both almost_full (Reach-rounds 3)
