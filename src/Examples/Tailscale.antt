-- ===== src/Examples/Tailscale.antt =====
-- A Tailscale with an exit node beside a route of RiftRoute's, and a set that is aggregated.
use riftroute.Base.{◌≤◌, true, [], ◌∷◌, some, ◌≡◌, refl}
use riftroute.Routing.Aggregate.{aggregate}
use riftroute.Routing.Aggregate.Disjoint.{hits, hits-aggregate-le}
use riftroute.Netip.{addr, masked, contains}
use riftroute.Routing.Tailscale.{TailscaleInput, beside_tailscale, bypass_of}
use riftroute.Routing.Tailscale.Records.{upsert_owned-bypass_of}
use riftroute.Store.{upsert_owned}
use riftroute.Store.Rows.{find_row}
use riftroute.Examples.Data.{direct, net8, net16}

abbrev exit_node : TailscaleInput
exit_node = record {
  tailscale = net8 ∷ [];
  table = "52";
  exit_node = true;
  platform = "linux";
  now = 7;
}

beside_tailscale_test :
    (beside_tailscale exit_node (direct ∷ []) []).0 ≡ direct ∷ bypass_of direct ∷ []
unfolding beside_tailscale
beside_tailscale_test = refl

upsert_owned-bypass_of_example :
    (find_row direct (upsert_owned (bypass_of direct) (upsert_owned direct []))
      ≡ some (bypass_of direct))
    × (find_row (bypass_of direct) (upsert_owned direct (upsert_owned (bypass_of direct) []))
        ≡ some direct)
upsert_owned-bypass_of_example = upsert_owned-bypass_of direct []

aggregate_test : hits (aggregate (net8 ∷ net16 ∷ net8 ∷ [])) (addr net16) ≡ 1
unfolding aggregate masked contains
aggregate_test = refl

hits-aggregate-le_example : hits (aggregate (net8 ∷ net16 ∷ net8 ∷ [])) (addr net16) ≤ 1
hits-aggregate-le_example = hits-aggregate-le (net8 ∷ net16 ∷ net8 ∷ []) (addr net16)
