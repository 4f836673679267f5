-- ===== src/Update/Decide.antt =====
-- internal/update/manifest.go, `Decide`: whether an update is installed, offered, held back or ignored.
pub mod Install
use riftroute.Base.{
  ℕ, String, str_eq, ◌<>◌, decimal, ltb, leb, if◌then◌else◌, Bool, true, false, not, ◌&&◌, ◌||◌,
  List, [], ◌∷◌, Option, none, some,
}
use riftroute.Update.Version.{newer, is_release}

-- Of the rollout percent only what `clampPercent` keeps is read; a Go int may be negative.
pub data ℤ : Type 0 where
  pos negsuc : ℕ → ℤ

-- `ManifestAsset` and `Manifest`, by the fields that `Decide` reads.
pub record ManifestAsset : Type 0 where
  pub os : String
  pub arch : String
  pub kind : String

pub record Manifest : Type 0 where
  pub version : String
  pub min_from : String
  pub assets : List ManifestAsset

pub record Advice : Type 0 where
  pub rollout_percent : ℤ
  pub halt : Bool

-- `Action` and `Decision`; `stay` is ActionNone.
pub data Action : Type 0 where
  stay hold notify install : Action

pub record Decision : Type 0 where
  pub action : Action
  pub reason : String

-- `DecideInput`.
pub record DecideInput : Type 0 where
  pub current : String
  pub mode : String
  pub manifest : Manifest
  pub advice : Option Advice
  pub bucket : ℕ
  pub goos : String
  pub goarch : String
  pub self_updatable : Bool
  pub skip : String

-- `clampPercent`.
unfoldable pub clamp_percent : ℤ → ℕ
clamp_percent (pos p) = if ltb 100 p then 100 else p
clamp_percent (negsuc p) = 0

-- `Asset`.
abbrev pub asset : List ManifestAsset → String → String → String → Option ManifestAsset
asset [] goos goarch kind = none
asset (a ∷ others) goos goarch kind =
    let rest = asset others goos goarch kind in
    if str_eq a.os goos && (str_eq a.arch goarch && str_eq a.kind kind) then some a else rest

abbrev pub decision : Action → String → Decision
decision a why = record { action = a; reason = why }

-- The server's advice: it holds the update back, or says nothing.
abbrev pub paused : DecideInput → Decision
paused i = decision hold ("the rollout of " <> i.manifest.version <> " is paused")

abbrev pub gradual : DecideInput → ℕ → Decision
gradual i percent =
    decision hold (i.manifest.version <> " is rolling out gradually (" <> decimal percent <> "%)")

unfoldable pub advised : DecideInput → Advice → Option Decision
unfolding clamp_percent
advised i a =
    let percent = clamp_percent a.rollout_percent in
    if a.halt
    then some (paused i)
    else if leb percent i.bucket
    then some (gradual i percent)
    else none

-- Whether, and how, a newer version that nothing holds back is installed.
unfoldable pub offered : DecideInput → Decision
offered i =
    let v = i.manifest.version in
    elim (asset i.manifest.assets i.goos i.goarch "tarball") [
      | none ↦
          decision notify
            (v <> " is available (no automatic install for " <> i.goos <> "/" <> i.goarch <> ")")
      | some a ↦
          if not (str_eq i.mode "auto")
          then decision notify (v <> " is available")
          else if not (is_release i.current)
          then decision notify
              (v <> " is available (this is a development build; install it yourself)")
          else if not i.self_updatable
          then decision notify (
              v
              <> " is available (this install is managed elsewhere; update it the way you installed it)")
          else if not (str_eq i.manifest.min_from "") && newer i.current i.manifest.min_from
          then decision notify
              (v <> " is available (too big a jump from " <> i.current <> " to install on its own)")
          else decision install ("installing " <> v)
    ]

-- `Decide`.
unfoldable pub decide : DecideInput → Decision
unfolding advised offered
decide i =
    let v = i.manifest.version in
    let advice : Option Decision = elim i.advice [ none ↦ none | some a ↦ advised i a ] in
    if str_eq i.mode "off"
    then decision stay "updates are off"
    else if not (newer i.current v)
    then decision stay "up to date"
    else if not (str_eq i.skip "") && not (newer i.skip v)
    then decision stay
        (v <> " didn't work on this computer and is skipped; a newer release will be offered")
    else elim advice [ some d ↦ d | none ↦ offered i ]
