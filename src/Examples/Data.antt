-- ===== src/Examples/Data.antt =====
-- The data of the examples: a syntax that knows a few texts, and routes between two gateways.
use riftroute.Base.{String, str_eq, ◌==◌, if◌then◌else◌, true, false, none, some}
use riftroute.Netip.{Addr, Prefix}
use riftroute.Netip.Syntax.{Syntax}
use riftroute.Domain.{Route, ManagedRoute, family_v4, owner_riftroute}

abbrev pub net8 : Prefix
net8 = record { is4 = true; value = 0x0a000000; bits = 8 }

abbrev pub net16 : Prefix
net16 = record { is4 = true; value = 0x0a010000; bits = 16 }

abbrev pub router : Addr
router = record { is4 = true; value = 0xc0a80101; zone = "" }

abbrev pub syntax : Syntax
syntax = record {
  parse_prefix = λ s.
      if str_eq s "10.0.0.0/8"
      then some net8
      else if str_eq s "10.1.0.0/16"
      then some net16
      else none;
  parse_addr = λ s. if str_eq s "192.168.1.1" then some router else none;
  print_prefix = λ p. if p.bits == 8 then "10.0.0.0/8" else "10.1.0.0/16";
  print_addr = λ a. "192.168.1.1";
}

abbrev pub route : String → String → String → Route
route cidr gateway iface = record {
  dst_cidr = cidr;
  gateway = gateway;
  iface = iface;
  metric = 0;
  family = family_v4;
  owner = owner_riftroute;
  proto = "riftroute";
  table = "";
  profile = "";
  cloned = false;
  scoped = false;
  reject = false;
}

abbrev pub managed : String → Route → ManagedRoute
managed profile r = record { route = r; profile_id = profile; created_at = 0 }

-- 10/8 by the router, 10/8 into a tunnel, and 10.1/16 by the router.
abbrev pub direct : ManagedRoute
direct = managed "home" (route "10.0.0.0/8" "192.168.1.1" "en0")

abbrev pub tunneled : ManagedRoute
tunneled = managed "tunnel:work" (route "10.0.0.0/8" "" "utun4")

abbrev pub narrow : ManagedRoute
narrow = managed "home" (route "10.1.0.0/16" "192.168.1.1" "en0")
