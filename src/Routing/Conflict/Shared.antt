-- ===== src/Routing/Conflict/Shared.antt =====
-- No conflict is reported exactly when any two routes agree on every address that both contain.
use riftroute.Base.{
  ◌/◌, ◌^◌, ◌≤◌, ltb, bool_eq, true, List, [], ◌∷◌, ◌++◌, none, All, ◌≡◌, ◌↔◌, inl, inr, refl, sym,
  ap, ◌∙◌, arith, Bool-cases, Option-cases, bool_eq→eq, bool_eq_refl, ltb→lt,
}
use riftroute.Netip.{Addr, Prefix, width, addr, open_bits, contains, overlaps}
use riftroute.Netip.Syntax.{Syntax}
use riftroute.Netip.Blocks.{contains→Inside, Inside→contains, Inside-self, Inside-nested}
use riftroute.Domain.{ManagedRoute}
use riftroute.Routing.Conflict.{
  Conflict, Entry, entries, same_hop, conflict_of, conflicts_with, conflicts_among,
  detect_conflicts,
}

-- Two prefixes of fitting lengths that share an address overlap.
shared→overlaps :
    (p q : Prefix) (x : Addr) → contains p x ≡ true → contains q x ≡ true → overlaps p q ≡ true
unfolding overlaps
shared→overlaps p q x hp hq =
    let ip = contains→Inside p x hp in
    let iq = contains→Inside q x hq in
    elim (Bool-cases (ltb p.bits q.bits)) [
      | inl l ↦
          let e =
            (Inside-nested {p = q} {q = p} {a = x} (omega (arith, ltb→lt p.bits q.bits l)) ip
              iq).high in
          rw (l, ip.family, iq.family, bool_eq_refl x.is4)
            (ground (arith, ip.valid, iq.valid, ip.family, iq.family, e))
      | inr l ↦
          let e = (Inside-nested {p = p} {q = q} {a = x} (ground arith) iq ip).high in
          rw (l, ip.family, iq.family, bool_eq_refl x.is4)
            (ground (arith, ip.valid, iq.valid, ip.family, iq.family, e))
    ]

-- Of two overlapping prefixes, the longer one's address lies in both.
overlaps→shared :
    (p q : Prefix)
    → overlaps p q ≡ true
    → (x : Addr) × ((contains p x ≡ true) × (contains q x ≡ true))
unfolding overlaps
overlaps→shared p q h =
    let vp : p.bits ≤ width p.is4 = ground arith in
    let vq : q.bits ≤ width q.is4 = ground arith in
    let family : p.is4 ≡ q.is4 = bool_eq→eq p.is4 q.is4 (ground arith) in
    elim (Bool-cases (ltb p.bits q.bits)) [
      | inl l ↦
          let e : q.value / 2 ^ open_bits p ≡ p.value / 2 ^ open_bits p = ground (arith, l) in
          (
            addr q,
            (
              Inside→contains p (addr q)
                  (record { valid = vp; no_zone = refl; family = family; high = e }),
              Inside→contains q (addr q) (Inside-self q vq),
            ),
          )
      | inr l ↦
          let e : p.value / 2 ^ open_bits q ≡ q.value / 2 ^ open_bits q = ground (arith, l) in
          (
            addr p,
            (
              Inside→contains p (addr p) (Inside-self p vp),
              Inside→contains q (addr p)
                  (record { valid = vq; no_zone = refl; family = sym family; high = e }),
            ),
          )
    ]

-- Two routes send every address that both contain to the same next hop.
unfoldable pub Agree : Entry → Entry → Type 0
Agree a b =
    (x : Addr)
    → contains a.pfx x ≡ true
    → contains b.pfx x ≡ true
    → same_hop a.r.route b.r.route ≡ true

unfoldable pub AllAgree : List Entry → Type 0
unfolding Agree
AllAgree [] = Unit
AllAgree (a ∷ es) = All (Agree a) es × AllAgree es

none→Agree : (a b : Entry) → conflict_of a b ≡ none → Agree a b
unfolding conflict_of Agree
none→Agree a b h x ha hb =
    let o = shared→overlaps a.pfx b.pfx x ha hb in
    let f : a.pfx.is4 ≡ b.pfx.is4 =
      (contains→Inside a.pfx x ha).family ∙ sym (contains→Inside b.pfx x hb).family in
    elim (Bool-cases (same_hop a.r.route b.r.route)) [
      | inl e ↦ e
      | inr e ↦ ground (arith, ap (bool_eq a.pfx.is4) f, bool_eq_refl a.pfx.is4, o, e)
    ]

Agree→none : (a b : Entry) → Agree a b → conflict_of a b ≡ none
unfolding conflict_of Agree
Agree→none a b h = elim (Bool-cases (overlaps a.pfx b.pfx)) [
  | inr n ↦ ground arith
  | inl y ↦ let (x, (ha, hb)) = overlaps→shared a.pfx b.pfx y in let e = h x ha hb in ground arith
]

conflicts_with-none : (a : Entry) (es : List Entry) → (conflicts_with a es ≡ []) ↔ All (Agree a) es
unfolding conflicts_with
conflicts_with-none a [] = ((λ e. tt), (λ h. refl))
conflicts_with-none a (b ∷ es) = elim (Option-cases (conflict_of a b)) [
  | inl n ↦ (
    (λ e. (none→Agree a b n, (conflicts_with-none a es).0 (ground arith))),
    (λ h. rw (n, (conflicts_with-none a es).1 h.1) refl),
  )
  | inr (c, n) ↦ ((λ e. ground arith), (λ h. let m = Agree→none a b h.0 in ground arith))
]

append-none : (xs ys : List Conflict) → xs ++ ys ≡ [] → (xs ≡ []) × (ys ≡ [])
append-none [] ys e = (refl, e)
append-none (x ∷ xs) ys e = cc

conflicts_among-none : (es : List Entry) → (conflicts_among es ≡ []) ↔ AllAgree es
unfolding conflicts_among AllAgree
conflicts_among-none [] = ((λ e. tt), (λ h. refl))
conflicts_among-none (a ∷ es) = (
  (λ e.
      let (x, y) = append-none (conflicts_with a es) (conflicts_among es) e in
      ((conflicts_with-none a es).0 x, (conflicts_among-none es).0 y)),
  (λ h. rw ((conflicts_with-none a es).1 h.0, (conflicts_among-none es).1 h.1) refl),
)

-- For any syntax and any routes, `DetectConflicts` reports nothing exactly when any two of the routes
-- whose destinations parse send every address that both destinations contain to the same next hop.
pub detect_conflicts_none :
    (syntax : Syntax) (routes : List ManagedRoute)
    → (detect_conflicts syntax routes ≡ []) ↔ AllAgree (entries syntax routes)
unfolding detect_conflicts
detect_conflicts_none syntax routes = conflicts_among-none (entries syntax routes)
