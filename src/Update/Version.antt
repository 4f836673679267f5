-- ===== src/Update/Version.antt =====
-- internal/update/update.go, `Newer` and `parseSemver`, and `IsRelease` of manifest.go. A text is read
-- as the list of its code points.
pub mod Order
use Prim.Native.Char.{code}
use Prim.Native.String as Str
use riftroute.Base.{
  ℕ, ◌+◌, ◌-◌, ◌*◌, ◌^◌, String, ltb, leb, ◌==◌, if◌then◌else◌, Bool, true, false, not, ◌&&◌, ◌||◌,
  List, [], ◌∷◌, Option, none, some, any,
}

abbrev pub codes : String → List ℕ
codes Str.[] = []
codes (Str.◌∷◌ c s) = code c ∷ codes s

-- unicode.IsSpace.
abbrev pub is_space : ℕ → Bool
is_space c =
    leb 9 c && leb c 13
    || (c == 0x20
        || (c == 0x85
            || (c == 0xa0
                || (c == 0x1680
                    || (leb 0x2000 c && leb c 0x200a
                        || (c == 0x2028
                            || (c == 0x2029 || (c == 0x202f || (c == 0x205f || c == 0x3000)))))))))

-- strings.TrimSpace, from both ends.
abbrev pub trim_left : List ℕ → List ℕ
trim_left [] = []
trim_left (c ∷ cs) = let rest = trim_left cs in if is_space c then rest else c ∷ cs

abbrev pub trim_right : List ℕ → List ℕ
trim_right [] = []
trim_right (c ∷ cs) = elim (trim_right cs) [
  | [] ↦ if is_space c then [] else c ∷ []
  | d ∷ ds ↦ c ∷ d ∷ ds
]

abbrev pub trim_space : List ℕ → List ℕ
trim_space cs = trim_right (trim_left cs)

-- strings.TrimPrefix of "v".
abbrev pub trim_v : List ℕ → List ℕ
trim_v [] = []
trim_v (c ∷ cs) = if c == b'v' then cs else c ∷ cs

-- A pre-release or build suffix starts with one of these; it is cut off.
abbrev pub is_suffix_mark : ℕ → Bool
is_suffix_mark c = c == b'-' || c == b'+'

abbrev pub without_suffix : List ℕ → List ℕ
without_suffix [] = []
without_suffix (c ∷ cs) = let rest = without_suffix cs in if is_suffix_mark c then [] else c ∷ rest

-- strings.Split at the dots: at least one part.
abbrev pub split_dots : List ℕ → List ℕ × List (List ℕ)
split_dots [] = ([], [])
split_dots (c ∷ cs) =
    let (part, parts) = split_dots cs in if c == b'.' then ([], part ∷ parts) else (c ∷ part, parts)

-- strconv.Atoi of a part, which holds no sign here: decimal digits, at least one, and below 2 ^ 63.
abbrev pub is_digit : ℕ → Bool
is_digit c = leb b'0' c && leb c b'9'

abbrev pub digits_from : ℕ → List ℕ → Option ℕ
digits_from n [] = if ltb n (2 ^ 63) then some n else none
digits_from n (c ∷ cs) =
    let rest = digits_from (n * 10 + (c - b'0')) cs in if is_digit c then rest else none

abbrev pub atoi : List ℕ → Option ℕ
atoi [] = none
atoi (c ∷ cs) = digits_from 0 (c ∷ cs)

-- The array that `parseSemver` returns.
pub record Semver : Type 0 where
  pub major : ℕ
  pub minor : ℕ
  pub patch : ℕ

abbrev pub three_parts : List ℕ × List (List ℕ) → Option Semver
three_parts (a, []) = none
three_parts (a, b ∷ []) = none
three_parts (a, b ∷ c ∷ []) = elim (atoi a) [
  | none ↦ none
  | some x ↦ elim (atoi b) [
    | none ↦ none
    | some y ↦ elim (atoi c) [
      | none ↦ none
      | some z ↦ some (record { major = x; minor = y; patch = z })
    ]
  ]
]
three_parts (a, b ∷ c ∷ d ∷ ds) = none

-- `parseSemver`.
unfoldable pub parse_semver : String → Option Semver
parse_semver v = three_parts (split_dots (without_suffix (trim_v (trim_space (codes v)))))

-- The loop of `Newer` over the three numbers.
unfoldable pub newer_numbers : Semver → Semver → Bool
newer_numbers c n =
    if not (n.major == c.major)
    then ltb c.major n.major
    else if not (n.minor == c.minor)
    then ltb c.minor n.minor
    else if not (n.patch == c.patch)
    then ltb c.patch n.patch
    else false

-- `Newer`.
unfoldable pub newer : String → String → Bool
unfolding newer_numbers
newer current candidate = elim (parse_semver current) [
  | none ↦ false
  | some c ↦ elim (parse_semver candidate) [ none ↦ false | some n ↦ newer_numbers c n ]
]

-- `IsRelease`.
unfoldable pub is_release : String → Bool
unfolding parse_semver
is_release v =
    let s = trim_v (trim_space (codes v)) in
    if any is_suffix_mark s
    then false
    else elim (three_parts (split_dots (without_suffix (trim_v (trim_space s))))) [
      | none ↦ false
      | some n ↦ true
    ]
