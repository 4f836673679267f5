-- ===== src/Update/Decide/Install.antt =====
-- When `Decide` installs, and what the server's advice can change.
use riftroute.Base.{
  String, str_eq, str_eq_iff, ltb, leb, Bool, true, false, not, ◌&&◌, ◌||◌, none, some, ◌≡◌, ◌↔◌,
  ◌⊎◌, refl, sym, ap, ◌∙◌, inl, inr, arith, Bool-cases, Option-cases,
}
use riftroute.Update.Version.{newer, is_release}
use riftroute.Update.Decide.{
  ManifestAsset, Advice, stay, hold, notify, install, Decision, DecideInput, clamp_percent, asset,
  paused, gradual, advised, offered, decide,
}

-- The advice, if there is one, neither halts the rollout nor leaves the install's bucket out.
abbrev pub lets_through : DecideInput → Bool
lets_through i = elim i.advice [
  | none ↦ true
  | some a ↦ not a.halt && ltb i.bucket (clamp_percent a.rollout_percent)
]

abbrev pub has_asset : DecideInput → Bool
has_asset i = elim (asset i.manifest.assets i.goos i.goarch "tarball") [
  | none ↦ false
  | some a ↦ true
]

-- What an install needs of the running version and the manifest.
pub record Installs (i : DecideInput) : Type 0 where
  pub auto : str_eq i.mode "auto" ≡ true
  pub is_newer : newer i.current i.manifest.version ≡ true
  pub not_skipped : (str_eq i.skip "" || newer i.skip i.manifest.version) ≡ true
  pub let_through : lets_through i ≡ true
  pub has_file : has_asset i ≡ true
  pub release : is_release i.current ≡ true
  pub own : i.self_updatable ≡ true
  pub near : (str_eq i.manifest.min_from "" || not (newer i.current i.manifest.min_from)) ≡ true

auto_not_off : (mode : String) → str_eq mode "auto" ≡ true → str_eq mode "off" ≡ false
auto_not_off mode h = ap (λ (m : String). str_eq m "off") ((str_eq_iff mode "auto").0 h)

-- The guards behind the advice, in their order.
abbrev ready : DecideInput → Bool
ready i =
    str_eq i.mode "auto"
    && (is_release i.current
        && (i.self_updatable
            && (str_eq i.manifest.min_from "" || not (newer i.current i.manifest.min_from))))

offered_file :
    (i : DecideInput) (a : ManifestAsset)
    → asset i.manifest.assets i.goos i.goarch "tarball" ≡ some a
    → ((offered i).action ≡ install) ↔ (ready i ≡ true)
unfolding offered
offered_file i a e = rw (offered, e) ((λ h. ground arith), (λ h. ground arith))

offered_no_file :
    (i : DecideInput)
    → asset i.manifest.assets i.goos i.goarch "tarball" ≡ none
    → (offered i).action ≡ notify
unfolding offered
offered_no_file i e = rw (offered, e) refl

-- What decides before the offer.
abbrev wanted : DecideInput → Bool
wanted i =
    not (str_eq i.mode "off")
    && (newer i.current i.manifest.version && (str_eq i.skip "" || newer i.skip i.manifest.version))

unwanted : (i : DecideInput) → wanted i ≡ false → (decide i).action ≡ stay
unfolding decide
unwanted i h = ground arith

unadvised : (i : DecideInput) → wanted i ≡ true → i.advice ≡ none → decide i ≡ offered i
unfolding decide
unadvised i h e = rw (decide, e) (ground arith)

advised_through :
    (i : DecideInput) (a : Advice)
    → wanted i ≡ true
    → i.advice ≡ some a
    → advised i a ≡ none
    → decide i ≡ offered i
unfolding decide
advised_through i a h e k = rw (decide, e, k) (ground arith)

advised_held :
    (i : DecideInput) (a : Advice) (d : Decision)
    → wanted i ≡ true
    → i.advice ≡ some a
    → advised i a ≡ some d
    → decide i ≡ d
unfolding decide
advised_held i a d h e k = rw (decide, e, k) (ground arith)

-- The advice's own answer.
advised-cases :
    (i : DecideInput) (a : Advice)
    → ((advised i a ≡ none)
        × ((not a.halt && ltb i.bucket (clamp_percent a.rollout_percent)) ≡ true))
      ⊎ ((d : Decision) × ((advised i a ≡ some d)
            × ((d.action ≡ hold)
                × ((not a.halt && ltb i.bucket (clamp_percent a.rollout_percent)) ≡ false))))
unfolding advised
advised-cases i a = elim (Bool-cases a.halt) [
  | inl y ↦ inr (paused i, (rw (advised, y) refl, (refl, rw y refl)))
  | inr n ↦ elim (Bool-cases (leb (clamp_percent a.rollout_percent) i.bucket)) [
    | inl y ↦ inr (
      gradual i (clamp_percent a.rollout_percent),
      (rw (advised, n, y) refl, (refl, ground arith)),
    )
    | inr m ↦ inl (rw (advised, n, m) refl, ground arith)
  ]
]

lets-through :
    (i : DecideInput) (a : Advice)
    → i.advice ≡ some a
    → lets_through i ≡ (not a.halt && ltb i.bucket (clamp_percent a.rollout_percent))
lets-through i a e = rw (lets_through, e) refl

lets_all : (i : DecideInput) → i.advice ≡ none → lets_through i ≡ true
lets_all i e = rw (lets_through, e) refl

has_asset-some :
    (i : DecideInput) (a : ManifestAsset)
    → asset i.manifest.assets i.goos i.goarch "tarball" ≡ some a
    → has_asset i ≡ true
has_asset-some i a e = rw (has_asset, e) refl

has_asset-none :
    (i : DecideInput)
    → asset i.manifest.assets i.goos i.goarch "tarball" ≡ none
    → has_asset i ≡ false
has_asset-none i e = rw (has_asset, e) refl

-- An update that nothing holds back is decided by the offer.
through : (i : DecideInput) → wanted i ≡ true → lets_through i ≡ true → decide i ≡ offered i
through i w l = elim (Option-cases i.advice) [
  | inl n ↦ unadvised i w n
  | inr (a, e) ↦ elim (advised-cases i a) [
    | inl (k, t) ↦ advised_through i a w e k
    | inr (d, (k, (h, t))) ↦ let eq = lets-through i a e in ground arith
  ]
]

held_back : (i : DecideInput) → wanted i ≡ true → lets_through i ≡ false → (decide i).action ≡ hold
held_back i w l = elim (Option-cases i.advice) [
  | inl n ↦ let eq = lets_all i n in ground arith
  | inr (a, e) ↦ elim (advised-cases i a) [
    | inl (k, t) ↦ let eq = lets-through i a e in ground arith
    | inr (d, (k, (h, t))) ↦ ap (λ (d : Decision). d.action) (advised_held i a d w e k) ∙ h
  ]
]

action_of : (i : DecideInput) → decide i ≡ offered i → (decide i).action ≡ (offered i).action
action_of i e = ap (λ (d : Decision). d.action) e

installs :
    (i : DecideInput)
    → wanted i ≡ true
    → lets_through i ≡ true
    → has_asset i ≡ true
    → ready i ≡ true
    → Installs i
installs i w l f r = record {
  auto = ground arith;
  is_newer = ground arith;
  not_skipped = ground arith;
  let_through = l;
  has_file = f;
  release = ground arith;
  own = ground arith;
  near = ground arith;
}

-- For any input, `Decide` installs exactly if updates are automatic, the release is newer than the
-- running version and than a skipped one, the advice, if there is one, lets it through, it has a file
-- for the platform, the running version is a release that may replace itself, and it is not older
-- than the oldest version that the release may be installed from.
pub decide_install_iff : (i : DecideInput) → ((decide i).action ≡ install) ↔ Installs i
decide_install_iff i = (to, from)
  where
    to : (decide i).action ≡ install → Installs i
    to e = elim (Bool-cases (wanted i)) [
      | inr n ↦ let no = unwanted i n in cc
      | inl w ↦ elim (Bool-cases (lets_through i)) [
        | inr n ↦ let no = held_back i w n in cc
        | inl l ↦
            let o = sym (action_of i (through i w l)) ∙ e in
            elim (Option-cases (asset i.manifest.assets i.goos i.goarch "tarball")) [
              | inl n ↦ let no = offered_no_file i n in cc
              | inr (a, f) ↦ installs i w l (has_asset-some i a f) ((offered_file i a f).0 o)
            ]
      ]
    ]

    from : Installs i → (decide i).action ≡ install
    from h =
        let w : wanted i ≡ true =
          ground (arith, auto_not_off i.mode h.auto, h.is_newer, h.not_skipped) in
        action_of i (through i w h.let_through)
        ∙ elim (Option-cases (asset i.manifest.assets i.goos i.goarch "tarball")) [
          | inl n ↦ let no = has_asset-none i n in let yes = h.has_file in ground arith
          | inr (a, f) ↦ (offered_file i a f).1 (ground (arith, h.auto, h.release, h.own, h.near))
        ]

unwanted_same :
    (i : DecideInput) → wanted i ≡ false → decide i ≡ decide (record i { advice = none })
unfolding decide
unwanted_same i h = ground arith

offered_same : (i : DecideInput) → offered i ≡ offered (record i { advice = none })
unfolding offered
offered_same i = refl

-- The server's unsigned advice only ever holds an update back: for any input, the decision is to hold,
-- or it is the one made with no advice at all.
pub decide_advice :
    (i : DecideInput)
    → ((decide i).action ≡ hold) ⊎ (decide i ≡ decide (record i { advice = none }))
decide_advice i = elim (Bool-cases (wanted i)) [
  | inr n ↦ inr (unwanted_same i n)
  | inl w ↦ elim (Bool-cases (lets_through i)) [
    | inr n ↦ inl (held_back i w n)
    | inl l ↦
        inr (through i w l ∙ offered_same i ∙ sym (unadvised (record i { advice = none }) w refl))
  ]
]
