-- ===== src/Examples/Updates.antt =====
-- Versions compared, and the update rules at work.
use riftroute.Base.{true, false, [], ◌∷◌, some, ◌≡◌, ◌↔◌, refl}
use riftroute.Update.Version.{parse_semver, newer, newer_numbers, is_release}
use riftroute.Update.Decide.{pos, install, DecideInput, decide}
use riftroute.Update.Decide.Install.{Installs, decide_install_iff}

parse_semver_test :
    parse_semver " v1.10.2-rc1 " ≡ some (record { major = 1; minor = 10; patch = 2 })
unfolding parse_semver
parse_semver_test = refl

is_release_test : is_release "0.2.4-8-gd4501c1" ≡ false
unfolding is_release
is_release_test = refl

-- A release on its way out to half of the installs.
abbrev input : DecideInput
input = record {
  current = "1.2.3";
  mode = "auto";
  manifest = record {
    version = "1.3.0";
    min_from = "1.0.0";
    assets = record { os = "linux"; arch = "amd64"; kind = "tarball" } ∷ [];
  };
  advice = some (record { rollout_percent = pos 50; halt = false });
  bucket = 7;
  goos = "linux";
  goarch = "amd64";
  self_updatable = true;
  skip = "";
}

decide_test : (decide input).action ≡ install
unfolding decide newer newer_numbers parse_semver is_release
decide_test = refl

decide_install_iff_example : ((decide input).action ≡ install) ↔ Installs input
decide_install_iff_example = decide_install_iff input
