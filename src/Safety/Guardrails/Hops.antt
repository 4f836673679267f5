-- ===== src/Safety/Guardrails/Hops.antt =====
-- The rule on pairs of routes, when it reports nothing.
use riftroute.Base.{
  String, str_eq, str_eq_iff, if◌then◌else◌, Bool, true, false, not, ◌&&◌, ◌||◌, List, [], ◌∷◌,
  Option, none, some, All, ◌≡◌, ◌≢◌, refl, sym, ap, ◌∙◌, inl, inr, arith, Bool-cases, Option-cases,
}
use riftroute.Domain.{ManagedRoute}
use riftroute.Routing.Plan.{dst}
use riftroute.Safety.Guardrails.{Violation, Hop, hop_of, conflicts}

module _ (vet : ManagedRoute → Bool) where
  -- Two routes to one destination, one of them vetted, have one next hop.
  abbrev pub SameHop : ManagedRoute → ManagedRoute → Type 0
  SameHop a b = dst a ≡ dst b → (vet a || vet b) ≡ true → hop_of a.route ≡ hop_of b.route

  abbrev pub AllSameHop : List ManagedRoute → Type 0
  AllSameHop [] = Unit
  AllSameHop (a ∷ ds) = All (SameHop a) ds × AllSameHop ds

  -- Whether a route is vetted depends on its destination and next hop.
  abbrev pub IsVettedBy : (String → String → Bool) → List ManagedRoute → Type 0
  IsVettedBy v = All (λ d. vet d ≡ v (dst d) (hop_of d.route))

  abbrev Hops : Type 0
  Hops = String → Option Hop

  IsMapOf : (String → String → Bool) → Hops → Type 0
  IsMapOf v hops = (k : String) (h : Hop) → hops k ≡ some h → h.vetted ≡ v k h.nh

  -- A route agrees with what the map holds for its destination.
  Fits : Hops → ManagedRoute → Type 0
  Fits hops d =
      (h : Hop) → hops (dst d) ≡ some h → (h.vetted || vet d) ≡ true → h.nh ≡ hop_of d.route

  abbrev put : String → Hop → Hops → Hops
  put k h hops j = if str_eq j k then some h else hops j

  put-IsMapOf :
      (v : String → String → Bool) (k : String) (h : Hop) (hops : Hops)
      → h.vetted ≡ v k h.nh
      → IsMapOf v hops
      → IsMapOf v (put k h hops)
  unfolding IsMapOf
  put-IsMapOf v k h hops e m j x p = elim (Bool-cases (str_eq j k)) [
    | inr n ↦ m j x (ground arith)
    | inl y ↦ let same : h ≡ x = ground arith in rw ((str_eq_iff j k).0 y, ← same) e
  ]

  -- What fits the map with an entry put in it, fits the entry.
  Fits-put :
      (d e : ManagedRoute) (h : Hop) (hops : Hops)
      → Fits (put (dst d) h hops) e
      → dst d ≡ dst e
      → (h.vetted || vet e) ≡ true
      → h.nh ≡ hop_of e.route
  unfolding Fits
  Fits-put d e h hops f s w = f h (ground (arith, (str_eq_iff (dst e) (dst d)).1 (sym s))) w

  fresh_entry : ManagedRoute → Hop
  fresh_entry d = record { nh = hop_of d.route; vetted = vet d }

  joined_entry : Hop → ManagedRoute → Hop
  joined_entry prev d = record prev { vetted = prev.vetted || vet d }

  clash : Hop → ManagedRoute → Bool
  clash prev d = not (str_eq prev.nh (hop_of d.route)) && (prev.vetted || vet d)

  conflicts-fresh :
      (hops : Hops) (d : ManagedRoute) (ds : List ManagedRoute)
      → hops (dst d) ≡ none
      → conflicts vet hops (d ∷ ds) ≡ conflicts vet (put (dst d) (fresh_entry d) hops) ds
  unfolding conflicts fresh_entry
  conflicts-fresh hops d ds e = rw (conflicts, e) refl

  conflicts-joined :
      (hops : Hops) (d : ManagedRoute) (ds : List ManagedRoute) (prev : Hop)
      → hops (dst d) ≡ some prev
      → clash prev d ≡ false
      → conflicts vet hops (d ∷ ds) ≡ conflicts vet (put (dst d) (joined_entry prev d) hops) ds
  unfolding conflicts joined_entry clash
  conflicts-joined hops d ds prev e c = rw (conflicts, e, c) refl

  conflicts-clash :
      (hops : Hops) (d : ManagedRoute) (ds : List ManagedRoute) (prev : Hop)
      → hops (dst d) ≡ some prev
      → clash prev d ≡ true
      → conflicts vet hops (d ∷ ds) ≢ []
  unfolding conflicts clash
  conflicts-clash hops d ds prev e c =
      rw (conflicts, e, c) (λ (q : ◌≡◌ {A = List Violation} (◌∷◌ _ _) []). ground arith)

  Fits-fresh :
      (hops : Hops) (d : ManagedRoute) (ds : List ManagedRoute)
      → hops (dst d) ≡ none
      → All (Fits (put (dst d) (fresh_entry d) hops)) ds
      → All (SameHop d) ds × All (Fits hops) ds
  unfolding Fits fresh_entry
  Fits-fresh hops d [] e f = (tt, tt)
  Fits-fresh hops d (x ∷ ds) e f =
      let (same, fits) = Fits-fresh hops d ds e f.1 in
      ((Fits-put d x (fresh_entry d) hops f.0, same), (kept, fits))
    where
      kept : Fits hops x
      kept h p w = elim (Bool-cases (str_eq (dst x) (dst d))) [
        | inr n ↦ f.0 h (ground arith) w
        | inl y ↦ let no = sym (ap hops ((str_eq_iff (dst x) (dst d)).0 y) ∙ e) ∙ p in cc
      ]

  Fits-joined :
      (v : String → String → Bool) (hops : Hops) (d : ManagedRoute) (ds : List ManagedRoute)
      (prev : Hop)
      → hops (dst d) ≡ some prev
      → clash prev d ≡ false
      → prev.vetted ≡ v (dst d) prev.nh
      → IsVettedBy v ds
      → All (Fits (put (dst d) (joined_entry prev d) hops)) ds
      → All (SameHop d) ds × All (Fits hops) ds
  unfolding Fits joined_entry clash
  Fits-joined v hops d [] prev e c m u f = (tt, tt)
  Fits-joined v hops d (x ∷ ds) prev e c m u f =
      let (same, fits) = Fits-joined v hops d ds prev e c m u.1 f.1 in ((pair, same), (kept, fits))
    where
      joined : dst d ≡ dst x → ((prev.vetted || vet d) || vet x) ≡ true → prev.nh ≡ hop_of x.route
      joined = Fits-put d x (joined_entry prev d) hops f.0

      pair : SameHop d x
      pair s w =
          let n = joined s (ground arith) in
          let vx : vet x ≡ v (dst d) prev.nh =
            u.0 ∙ sym (ap (v (dst d)) n ∙ ap (λ k. v k (hop_of x.route)) s) in
          let one : (prev.vetted || vet d) ≡ true = ground (arith, vx, m, w) in
          let hop = (str_eq_iff prev.nh (hop_of d.route)).0 (ground (arith, one, c)) in sym hop ∙ n

      kept : Fits hops x
      kept h p w = elim (Bool-cases (str_eq (dst x) (dst d))) [
        | inr n ↦ f.0 h (ground arith) w
        | inl y ↦
            let s = (str_eq_iff (dst x) (dst d)).0 y in
            let same : prev ≡ h = ground (arith, sym e ∙ sym (ap hops s) ∙ p) in
            sym (ap (λ (h : Hop). h.nh) same)
            ∙ joined (sym s) (ground (arith, w, ap (λ (h : Hop). h.vetted) same))
      ]

  joined-vetted :
      (v : String → String → Bool) (d : ManagedRoute) (prev : Hop)
      → clash prev d ≡ false
      → prev.vetted ≡ v (dst d) prev.nh
      → vet d ≡ v (dst d) (hop_of d.route)
      → (prev.vetted || vet d) ≡ v (dst d) prev.nh
  unfolding clash
  joined-vetted v d prev c m u = elim (Bool-cases (str_eq prev.nh (hop_of d.route))) [
    | inr n ↦ ground (arith, m)
    | inl y ↦
        let same = (str_eq_iff prev.nh (hop_of d.route)).0 y in
        let both : vet d ≡ v (dst d) prev.nh = u ∙ ap (v (dst d)) (sym same) in
        rw (both, m) (ground arith)
  ]

  conflicts-none :
      (v : String → String → Bool) (hops : Hops) (ds : List ManagedRoute)
      → IsMapOf v hops
      → IsVettedBy v ds
      → conflicts vet hops ds ≡ []
      → All (Fits hops) ds × AllSameHop ds
  unfolding Fits IsMapOf clash fresh_entry joined_entry
  conflicts-none v hops [] m u e = (tt, tt)
  conflicts-none v hops (d ∷ ds) m u e = elim (Option-cases (hops (dst d))) [
    | inl n ↦
        let (fits, pairs) =
          conflicts-none v (put (dst d) (fresh_entry d) hops) ds
            (put-IsMapOf v (dst d) (fresh_entry d) hops u.0 m) u.1
            (sym (conflicts-fresh hops d ds n) ∙ e) in
        let (same, kept) = Fits-fresh hops d ds n fits in ((λ h p w. cc, kept), (same, pairs))
    | inr (prev, p) ↦ elim (Bool-cases (clash prev d)) [
      | inl c ↦ absurd (conflicts-clash hops d ds prev p c e)
      | inr c ↦
          let known = m (dst d) prev p in
          let (fits, pairs) =
            conflicts-none v (put (dst d) (joined_entry prev d) hops) ds
              (put-IsMapOf v (dst d) (joined_entry prev d) hops (joined-vetted v d prev c known u.0)
                m)
              u.1 (sym (conflicts-joined hops d ds prev p c) ∙ e) in
          let (same, kept) = Fits-joined v hops d ds prev p c known u.1 fits in
          ((λ h q w. fit prev h p q c w, kept), (same, pairs))
    ]
  ]
    where
      fit :
          (prev h : Hop)
          → hops (dst d) ≡ some prev
          → hops (dst d) ≡ some h
          → clash prev d ≡ false
          → (h.vetted || vet d) ≡ true
          → h.nh ≡ hop_of d.route
      fit prev h p q c w =
          let same : prev ≡ h = ground arith in
          (str_eq_iff h.nh (hop_of d.route)).0 (ground (arith, w, c, ap clash same))

  pub conflicts-AllSameHop :
      (v : String → String → Bool) (ds : List ManagedRoute)
      → IsVettedBy v ds
      → conflicts vet (λ k. none) ds ≡ []
      → AllSameHop ds
  unfolding IsMapOf
  conflicts-AllSameHop v ds u e = (conflicts-none v (λ k. none) ds (λ k h p. cc) u e).1
