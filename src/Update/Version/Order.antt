-- ===== src/Update/Version/Order.antt =====
-- `Newer` is a strict order on the versions that parse.
use riftroute.Base.{
  String, true, false, none, some, ◌≡◌, ◌⊎◌, refl, sym, ap, ◌∙◌, inl, inr, arith, Bool-cases,
  Option-cases,
}
use riftroute.Update.Version.{Semver, parse_semver, newer_numbers, newer}

newer_numbers_trans :
    (a b c : Semver)
    → newer_numbers a b ≡ true
    → newer_numbers b c ≡ true
    → newer_numbers a c ≡ true
unfolding newer_numbers
newer_numbers_trans a b c h k = ground arith

newer_numbers_apart :
    (a b : Semver)
    → newer_numbers a b ≡ false
    → newer_numbers b a ≡ false
    → (a.major ≡ b.major) × ((a.minor ≡ b.minor) × (a.patch ≡ b.patch))
unfolding newer_numbers
newer_numbers_apart a b h k = ground arith

newer_numbers_asym : (a b : Semver) → newer_numbers a b ≡ true → newer_numbers b a ≡ false
unfolding newer_numbers
newer_numbers_asym a b h = ground arith

-- What `Newer` computes, for versions that parse.
pub newer-parsed :
    (a b : String) (x y : Semver)
    → parse_semver a ≡ some x
    → parse_semver b ≡ some y
    → newer a b ≡ newer_numbers x y
unfolding newer
newer-parsed a b x y p q = rw (newer, p, q) refl

newer_unparsed_left : (a b : String) → parse_semver a ≡ none → newer a b ≡ false
unfolding newer
newer_unparsed_left a b p = rw (newer, p) refl

newer_unparsed_right :
    (a b : String) (x : Semver)
    → parse_semver a ≡ some x
    → parse_semver b ≡ none
    → newer a b ≡ false
unfolding newer
newer_unparsed_right a b x p q = rw (newer, p, q) refl

-- A newer version and the one that it is compared with both parse.
pub newer-parses :
    (a b : String)
    → newer a b ≡ true
    → (x : Semver) × ((y : Semver) × ((parse_semver a ≡ some x) × (parse_semver b ≡ some y)))
newer-parses a b h = elim (Option-cases (parse_semver a)) [
  | inl n ↦ let no = newer_unparsed_left a b n in ground arith
  | inr (x, p) ↦ elim (Option-cases (parse_semver b)) [
    | inl n ↦ let no = newer_unparsed_right a b x p n in ground arith
    | inr (y, q) ↦ (x, (y, (p, q)))
  ]
]

-- For any three texts: if the second is newer than the first and the third newer than the second, then
-- the third is newer than the first.
pub newer_trans : (a b c : String) → newer a b ≡ true → newer b c ≡ true → newer a c ≡ true
newer_trans a b c h k =
    let (x, (y, (p, q))) = newer-parses a b h in
    let (y', (z, (q', r))) = newer-parses b c k in
    let same : y ≡ y' = ground (arith, sym q ∙ q') in
    newer-parsed a c x z p r
    ∙ newer_numbers_trans x y z (sym (newer-parsed a b x y p q) ∙ h)
        (ap (λ (v : Semver). newer_numbers v z) same ∙ sym (newer-parsed b c y' z q' r) ∙ k)

-- For any two texts that parse as versions: exactly one of them is newer than the other and not the
-- other way round, or they are the same version and neither is newer.
pub newer_trichotomy :
    (a b : String) (x y : Semver)
    → parse_semver a ≡ some x
    → parse_semver b ≡ some y
    → ((newer a b ≡ true) × (newer b a ≡ false))
      ⊎ (((newer b a ≡ true) × (newer a b ≡ false))
          ⊎ ((x ≡ y) × ((newer a b ≡ false) × (newer b a ≡ false))))
newer_trichotomy a b x y p q =
    let ab = newer-parsed a b x y p q in
    let ba = newer-parsed b a y x q p in
    elim (Bool-cases (newer_numbers x y)) [
      | inl h ↦ inl (ab ∙ h, ba ∙ newer_numbers_asym x y h)
      | inr h ↦ elim (Bool-cases (newer_numbers y x)) [
        | inl k ↦ inr (inl (ba ∙ k, ab ∙ h))
        | inr k ↦
            let (m, (n, o)) = newer_numbers_apart x y h k in
            inr (inr (λ i. record { major = m i; minor = n i; patch = o i }, (ab ∙ h, ba ∙ k)))
      ]
    ]

newer_numbers_irrefl : (a : Semver) → newer_numbers a a ≡ false
unfolding newer_numbers
newer_numbers_irrefl a = ground arith

-- No text is newer than itself.
pub newer_irrefl : (a : String) → newer a a ≡ false
newer_irrefl a = elim (Option-cases (parse_semver a)) [
  | inl n ↦ newer_unparsed_left a a n
  | inr (x, p) ↦ newer-parsed a a x x p p ∙ newer_numbers_irrefl x
]
