-- ===== src/Base/Text.antt =====
-- Texts joined by a separator, as the engine's map keys are.
use Prim.Native.Char.{Char, code, nul}
use Prim.Native.String.{String}
use Prim.Native.String as Str
use Prim.Native.String.append
use mathlib.Core.Path.{◌≡◌, refl, sym, ap, ◌∙◌, subst}
use mathlib.Core.Bool.{Bool, true, ◌&&◌, not}
use native.Mathlib.Omega.{arith}
use riftroute.Base.Tests.{◌==◌}

infixr 65 ◌<>◌
abbrev pub ◌<>◌ : String → String → String
s <> t = Str.◌++◌ s t

-- Whether the separator of the keys, `|`, stands nowhere in the text.
abbrev pub no_bar : String → Bool
no_bar String.[] = true
no_bar (String.◌∷◌ c s) = not (code c == b'|') && no_bar s

head_of : String → Char
head_of String.[] = nul
head_of (String.◌∷◌ c s) = c

tail_of : String → String
tail_of String.[] = ""
tail_of (String.◌∷◌ c s) = s

cons-injective : (c d : Char) (s t : String) → String.◌∷◌ c s ≡ String.◌∷◌ d t → (c ≡ d) × (s ≡ t)
unfolding head_of tail_of
cons-injective c d s t e = (ap head_of e, ap tail_of e)

abbrev bar : Char
bar = "|"

bar-append : (x : String) → "|" <> x ≡ String.◌∷◌ bar x
bar-append x = append.cons bar String.[] x ∙ ap (String.◌∷◌ bar) (append.nil x)

not_bar : (c : Char) (s : String) → bar ≡ c → no_bar (String.◌∷◌ c s) ≡ true → ⊥
not_bar c s e h = subst (λ d. no_bar (String.◌∷◌ d s) ≡ true → ⊥) e (λ k. cc) h

-- Texts without the separator in front of it are determined by the joined text, and so is the rest.
pub bar-injective :
    (a b x y : String)
    → no_bar a ≡ true
    → no_bar b ≡ true
    → a <> "|" <> x ≡ b <> "|" <> y
    → (a ≡ b) × (x ≡ y)
bar-injective String.[] String.[] x y ha hb e = (
  refl,
  (cons-injective bar bar x y (
      sym (bar-append x)
      ∙ sym (append.nil ("|" <> x))
      ∙ e
      ∙ append.nil ("|" <> y)
      ∙ bar-append y)).1,
)
bar-injective String.[] (String.◌∷◌ d t) x y ha hb e = absurd (
    not_bar d t
      (cons-injective bar d x (t <> "|" <> y)
        (sym (bar-append x) ∙ sym (append.nil ("|" <> x)) ∙ e ∙ append.cons d t ("|" <> y))).0
      hb)
bar-injective (String.◌∷◌ c s) String.[] x y ha hb e = absurd (
    not_bar c s
      (cons-injective bar c y (s <> "|" <> x)
        (sym (bar-append y) ∙ sym (append.nil ("|" <> y)) ∙ sym e ∙ append.cons c s ("|" <> x))).0
      ha)
bar-injective (String.◌∷◌ c s) (String.◌∷◌ d t) x y ha hb e =
    let (heads, tails) =
      cons-injective c d (s <> "|" <> x) (t <> "|" <> y)
        (sym (append.cons c s ("|" <> x)) ∙ e ∙ append.cons d t ("|" <> y)) in
    let (rests, ends) = bar-injective s t x y (ground arith) (ground arith) tails in (cc, ends)
