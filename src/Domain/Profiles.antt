-- ===== src/Domain/Profiles.antt =====
-- internal/domain/profile.go: the profiles that the user toggles, as the routing engine reads them.
use riftroute.Base.{ℕ, String, Bool, List}

-- Mode and RuleType are named strings in the source.
abbrev pub Mode : Type 0
Mode = String

abbrev pub mode_include : Mode
mode_include = "include"

abbrev pub mode_tunnel : Mode
mode_tunnel = "tunnel"

abbrev pub RuleType : Type 0
RuleType = String

abbrev pub rule_cidr : RuleType
rule_cidr = "cidr"

abbrev pub rule_ip : RuleType
rule_ip = "ip"

abbrev pub rule_domain : RuleType
rule_domain = "domain"

abbrev pub rule_app : RuleType
rule_app = "app"

-- Rule, without its comment.
pub record Rule : Type 0 where
  pub kind : RuleType
  pub value : String

-- Profile, without its name, description and IP versions. `priority` is the source's int with 2 ^ 63
-- added, which keeps the order.
pub record Profile : Type 0 where
  pub id : String
  pub enabled : Bool
  pub mode : Mode
  pub gateway : String
  pub priority : ℕ
  pub rules : List Rule
  pub lists : List String
  pub tunnel : String
