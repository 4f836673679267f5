-- ===== src/Netip/Syntax.antt =====
-- The text syntax of net/netip, which the engine calls and does not compute with: its functions are
-- a parameter of the definitions that use them.
use riftroute.Base.{String, Option}
use riftroute.Netip.{Addr, Prefix}

-- ParsePrefix and ParseAddr (`none` for an error), and the String methods.
pub record Syntax : Type 0 where
  pub parse_prefix : String → Option Prefix
  pub parse_addr : String → Option Addr
  pub print_prefix : Prefix → String
  pub print_addr : Addr → String
