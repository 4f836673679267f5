-- ===== src/Routing/Tailscale/Again.antt =====
-- internal/routing/engine.go, `BesideTailscale`: running on a set that it made before.
use mathlib.Core.List.{append-nil}
use riftroute.Base.{
  str_eq, if◌then◌else◌, Bool, true, false, not, ◌||◌, List, [], ◌∷◌, ◌++◌, select, select-append,
  ◌≡◌, refl, sym, ap, ◌∙◌, inl, inr, Bool-cases, arith,
}
use riftroute.Domain.{ManagedRoute, ManagedRule}
use riftroute.Routing.Tailscale.{
  TailscaleInput, is_copy, is_pass, without_copies, without_passes, pass_rules, bypass_of,
  in_main_table, copies, bypass_rules, beside_tailscale,
}

select_twice {ℓ} : {A : Type ℓ} (p : A → Bool) (xs : List A) → select p (select p xs) ≡ select p xs
select_twice p [] = refl
select_twice p (x ∷ xs) = elim (Bool-cases (p x)) [
  | inl y ↦ rw (y, y) (ap (λ l. x ∷ l) (select_twice p xs))
  | inr n ↦ rw n (select_twice p xs)
]

without_copies-copies : (rs : List ManagedRoute) → without_copies (copies rs) ≡ []
unfolding copies bypass_of is_copy
without_copies-copies [] = refl
without_copies-copies (r ∷ rs) = elim (Bool-cases (in_main_table r)) [
  | inl y ↦ rw y (without_copies-copies rs)
  | inr n ↦ rw n (without_copies-copies rs)
]

without_passes-pass_rules :
    (t : TailscaleInput) → str_eq t.table "" ≡ false → without_passes (pass_rules t) ≡ []
unfolding pass_rules is_pass
without_passes-pass_rules t e = ground arith

without_passes-bypass_rules :
    (t : TailscaleInput) (rs : List ManagedRoute) → without_passes (bypass_rules t rs) ≡ []
unfolding bypass_rules is_pass
without_passes-bypass_rules t rs = ground arith

without_copies_again :
    (rs : List ManagedRoute)
    → without_copies (without_copies rs ++ copies (without_copies rs)) ≡ without_copies rs
without_copies_again rs =
    select-append (λ r. not (is_copy r)) (without_copies rs) (copies (without_copies rs))
    ∙ ap (λ l. without_copies (without_copies rs) ++ l) (without_copies-copies (without_copies rs))
    ∙ append-nil (without_copies (without_copies rs))
    ∙ select_twice (λ r. not (is_copy r)) rs

without_passes_again :
    (ls more : List ManagedRule)
    → without_passes more ≡ []
    → without_passes (without_passes ls ++ more) ≡ without_passes ls
without_passes_again ls more e =
    select-append (λ r. not (is_pass r)) (without_passes ls) more
    ∙ ap (λ l. without_passes (without_passes ls) ++ l) e
    ∙ append-nil (without_passes (without_passes ls))
    ∙ select_twice (λ r. not (is_pass r)) ls

-- `BesideTailscale` with its tests given.
abbrev beside_when :
    Bool
    → Bool
    → TailscaleInput
    → List ManagedRoute
    → List ManagedRule
    → List ManagedRoute × List ManagedRule
beside_when true e t rs ls = (rs, ls)
beside_when false true t rs ls = (rs ++ copies rs, ls ++ (pass_rules t ++ bypass_rules t rs))
beside_when false false t rs ls = (rs, ls ++ pass_rules t)

abbrev off : TailscaleInput → Bool
off t = str_eq t.table "" || str_eq t.platform "darwin"

beside_tailscale_eq :
    (t : TailscaleInput) (rs : List ManagedRoute) (ls : List ManagedRule)
    → beside_tailscale t rs ls
      ≡ beside_when (off t) t.exit_node t (without_copies rs) (without_passes ls)
unfolding beside_tailscale
beside_tailscale_eq t rs ls = by_cases (off t) t.exit_node
  where
    by_cases :
        (a e : Bool)
        → (if a
            then (without_copies rs, without_passes ls)
            else if e
            then (
              without_copies rs ++ copies (without_copies rs),
              without_passes ls ++ (pass_rules t ++ bypass_rules t (without_copies rs)),
            )
            else (without_copies rs, without_passes ls ++ pass_rules t))
          ≡ beside_when a e t (without_copies rs) (without_passes ls)
    by_cases true e = refl
    by_cases false true = refl
    by_cases false false = refl

again_when :
    (a e : Bool) (t : TailscaleInput) (rs : List ManagedRoute) (ls : List ManagedRule)
    → (a ≡ false → str_eq t.table "" ≡ false)
    → let made = beside_when a e t (without_copies rs) (without_passes ls) in
      beside_when a e t (without_copies made.0) (without_passes made.1) ≡ made
again_when true e t rs ls h =
    rw
      (
        select_twice (λ (r : ManagedRoute). not (is_copy r)) rs,
        select_twice (λ (r : ManagedRule). not (is_pass r)) ls,
      )
      refl
again_when false false t rs ls h =
    rw
      (
        select_twice (λ (r : ManagedRoute). not (is_copy r)) rs,
        without_passes_again ls (pass_rules t) (without_passes-pass_rules t (h refl)),
      )
      refl
again_when false true t rs ls h =
    let none_left =
      select-append (λ (r : ManagedRule). not (is_pass r)) (pass_rules t)
        (bypass_rules t (without_copies rs))
      ∙ rw (without_passes-pass_rules t (h refl), without_passes-bypass_rules t (without_copies rs))
          refl in
    rw
      (
        without_copies_again rs,
        without_passes_again ls (pass_rules t ++ bypass_rules t (without_copies rs)) none_left,
      )
      refl

-- For any routes, rules and Tailscale: `BesideTailscale` on the set that it made changes nothing, so
-- it can run on every desired set, whatever an earlier apply left in it.
pub beside_tailscale_twice :
    (t : TailscaleInput) (rs : List ManagedRoute) (ls : List ManagedRule)
    → let made = beside_tailscale t rs ls in beside_tailscale t made.0 made.1 ≡ made
beside_tailscale_twice t rs ls =
    let e = beside_tailscale_eq t rs ls in
    let made = beside_tailscale t rs ls in
    beside_tailscale_eq t made.0 made.1
    ∙ ap
        (λ (m : List ManagedRoute × List ManagedRule).
          beside_when (off t) t.exit_node t (without_copies m.0) (without_passes m.1))
        e
    ∙ again_when (off t) t.exit_node t rs ls (λ q. ground arith)
    ∙ sym e
