-- ===== src/Examples/Kernel.antt =====
-- The kernel's table read back: a tunnel's route that was removed, and reads that fail.
use riftroute.Base.{true, List, [], ◌∷◌, Option, none, some, ◌≡◌, refl}
use riftroute.Domain.{Route, Family}
use riftroute.Routing.Keys.{route_key}
use riftroute.Routing.Verify.{
  fate, fetch, is_tunnel_route, Check, looked_up, read_index, index_installed, has, outranked,
  verify_routes,
}
use riftroute.Routing.Verify.Partition.{IsPartition, verify_routes-IsPartition}
use riftroute.Examples.Data.{syntax, direct, tunneled, narrow}

-- A kernel that holds no route, or cannot be read.
abbrev empty_kernel : Family → Option (List Route)
empty_kernel f = some []

abbrev no_reads : Family → Option (List Route)
no_reads f = none

abbrev check : (Family → Option (List Route)) → Check
check read = record {
  syntax = syntax;
  desired = tunneled ∷ narrow ∷ [];
  read = read;
  held = λ k. true;
  only = none;
}

verify_test :
    (verify_routes (check empty_kernel) (tunneled ∷ narrow ∷ direct ∷ [])).missing ≡ tunneled ∷ []
unfolding verify_routes fate fetch looked_up route_key read_index has index_installed outranked
    is_tunnel_route
verify_test = refl

verify_routes-IsPartition_example :
    IsPartition
      (check empty_kernel)
      (tunneled ∷ narrow ∷ [])
      (verify_routes (check empty_kernel) (tunneled ∷ narrow ∷ []))
verify_routes-IsPartition_example =
    verify_routes-IsPartition (check empty_kernel) (tunneled ∷ narrow ∷ [])
