-- ===== src/Ocpp/StatusCheck/Spacing.antt =====
-- The time between triggers of internal/ocpp/statuscheck.go.
use grosz.Prelude.{
  ℕ, ◌+◌, ◌-◌, ◌≤◌, ◌≡◌, refl, sym, ap, ◌∙◌, true, false, none, some, List, [], ◌∷◌, ◌++◌, arith,
  ltb, ◌==◌, All, Ordered, All-map, some_eq, ◌⊎◌, Bool-cases, inl, inr, Option-cases,
}
use grosz.Ocpp.StatusCheck.{
  ChargePoint, LastFire, is_due, fired_at, allow_fire, visit, visit_all, Tick, tick, run,
}

append_assoc : (xs ys zs : List (ℕ × ℕ)) → ((xs ++ ys) ++ zs) ≡ (xs ++ (ys ++ zs))
append_assoc [] ys zs = refl
append_assoc (x ∷ xs) ys zs = ap (x ∷◌) (append_assoc xs ys zs)

module _ (distance : ℕ) where
  -- A trigger comes long enough after the one that the map remembers.
  abbrev Ready : LastFire → List (ℕ × ℕ) → Type 0
  Ready last_fire log = All (λ e. (l : ℕ) → last_fire e.0 ≡ some l → l + distance ≤ e.1) log

  -- Of two triggers of one charge point, the later comes by `distance` after the earlier.
  abbrev pub Spaced : List (ℕ × ℕ) → Type 0
  Spaced log = Ordered (λ a b. a.0 ≡ b.0 → a.1 + distance ≤ b.1) log

  later : (l now t : ℕ) → l + distance ≤ now → now + distance ≤ t → l + distance ≤ t
  later l now t h k = omega arith

  ready_behind :
      (id now : ℕ) (last_fire : LastFire) (e : ℕ × ℕ)
      → ((l : ℕ) → last_fire id ≡ some l → l + distance ≤ now)
      → ((l : ℕ) → fired_at id now last_fire e.0 ≡ some l → l + distance ≤ e.1)
      → (l : ℕ) → last_fire e.0 ≡ some l
      → l + distance ≤ e.1
  ready_behind id now last_fire e before h l q = elim (Bool-cases (e.0 == id)) [
    | inl i ↦
        let same : e.0 ≡ id = ground arith in
        later l now e.1 (before l (ap last_fire (sym same) ∙ q)) (h now (rw i))
    | inr i ↦ h l (rw i q)
  ]

  -- One trigger in front.
  fire_first :
      (id now : ℕ) (last_fire : LastFire) (log : List (ℕ × ℕ))
      → ((l : ℕ) → last_fire id ≡ some l → l + distance ≤ now)
      → Ready (fired_at id now last_fire) log × Spaced log
      → Ready last_fire ((id, now) ∷ log) × Spaced ((id, now) ∷ log)
  fire_first id now last_fire log before (r, s) = (
    (before, All-map (λ e h. ready_behind id now last_fire e before h) log r),
    (All-map (λ e h same. h now (again e.0 same)) log r, s),
  )
    where
      self : (k : ℕ) → (k == k) ≡ true
      self k = ground arith

      again : (k : ℕ) → id ≡ k → fired_at id now last_fire k ≡ some now
      again k same = rw (sym same) (rw (self id))

  -- One round triggers nothing, or it triggers late enough.
  visit_cases :
      (threshold now : ℕ) (cp : ChargePoint) (last_fire : LastFire)
      → distance ≤ threshold
      → (visit threshold now cp last_fire ≡ ([], last_fire))
        ⊎ (((l : ℕ) → last_fire cp.id ≡ some l → l + distance ≤ now)
            × (visit threshold now cp last_fire
                ≡ ((cp.id, now) ∷ [], fired_at cp.id now last_fire)))
  unfolding visit allow_fire
  visit_cases threshold now cp last_fire d = elim (Bool-cases (is_due (now - threshold) cp)) [
    | inr e ↦ inl (rw (e, visit))
    | inl e ↦ elim (Option-cases (last_fire cp.id)) [
      | inl n ↦ inr ((λ l q. absurd (none≢some l (sym n ∙ q))), rw (e, visit, n, allow_fire))
      | inr (l, n) ↦ elim (Bool-cases (ltb now (l + threshold))) [
        | inl b ↦ inl (rw (e, visit, n, allow_fire, b))
        | inr b ↦
            inr ((λ k q. late l k b (some_eq _ _ (sym n ∙ q))), rw (e, visit, n, allow_fire, b))
      ]
    ]
  ]
    where
      none≢some : (l : ℕ) → none ≡ some l → ⊥
      none≢some l h = cc

      late : (l k : ℕ) → ltb now (l + threshold) ≡ false → l ≡ k → k + distance ≤ now
      late l k b q = ground arith

  -- One round, with the log of what comes behind it.
  visit-Spaced :
      (threshold now : ℕ) (cp : ChargePoint) (last_fire : LastFire) (log : List (ℕ × ℕ))
      → distance ≤ threshold
      → Ready (visit threshold now cp last_fire).1 log × Spaced log
      → Ready last_fire ((visit threshold now cp last_fire).0 ++ log)
        × Spaced ((visit threshold now cp last_fire).0 ++ log)
  visit-Spaced threshold now cp last_fire log d h =
      elim (visit_cases threshold now cp last_fire d) [
        | inl e ↦ rw e (rw e at h)
        | inr (before, e) ↦ rw e (fire_first cp.id now last_fire log before (rw e at h))
      ]

  visit_all-Spaced :
      (threshold now : ℕ) (cps : List ChargePoint) (last_fire : LastFire) (log : List (ℕ × ℕ))
      → distance ≤ threshold
      → Ready (visit_all threshold now cps last_fire).1 log × Spaced log
      → Ready last_fire ((visit_all threshold now cps last_fire).0 ++ log)
        × Spaced ((visit_all threshold now cps last_fire).0 ++ log)
  unfolding visit_all
  visit_all-Spaced threshold now [] last_fire log d h = h
  visit_all-Spaced threshold now (cp ∷ cps) last_fire log d h =
      let one = visit threshold now cp last_fire in
      let rest = visit_all threshold now cps one.1 in
      rw (append_assoc one.0 rest.0 log) (
        visit-Spaced threshold now cp last_fire (rest.0 ++ log) d
          (visit_all-Spaced threshold now cps one.1 log d h))

  tick-Spaced :
      (t : Tick) (last_fire : LastFire) (log : List (ℕ × ℕ))
      → distance ≤ t.threshold
      → Ready (tick t last_fire).1 log × Spaced log
      → Ready last_fire ((tick t last_fire).0 ++ log) × Spaced ((tick t last_fire).0 ++ log)
  unfolding tick
  tick-Spaced t last_fire log d h = elim (Bool-cases (t.threshold == 0)) [
    | inl e ↦ rw e (rw e at h)
    | inr e ↦ elim (Bool-cases t.has_store) [
      | inr s ↦ rw (e, s) (rw (e, s) at h)
      | inl s ↦
          rw (e, s)
            (visit_all-Spaced t.threshold t.now t.charge_points last_fire log d (rw (e, s) at h))
    ]
  ]

  run-Ready :
      (ts : List Tick) (last_fire : LastFire)
      → All (λ t. distance ≤ t.threshold) ts
      → Ready last_fire (run ts last_fire) × Spaced (run ts last_fire)
  unfolding run
  run-Ready [] last_fire h = (tt, tt)
  run-Ready (t ∷ ts) last_fire h =
      tick-Spaced t last_fire (run ts (tick t last_fire).1) h.0
        (run-Ready ts (tick t last_fire).1 h.1)

  -- However often the check runs, at whatever times and on whatever charge points, it triggers a
  -- charge point again only when at least `distance` has passed, if the interval of the settings was
  -- never below it.
  pub run-Spaced :
      (ts : List Tick) (last_fire : LastFire)
      → All (λ t. distance ≤ t.threshold) ts
      → Spaced (run ts last_fire)
  run-Spaced ts last_fire h = (run-Ready ts last_fire h).1
