-- ===== src/Scheduler/Profile/Meaning.antt =====
-- What a profile of BuildProfile (internal/scheduler/profile.go) means to a charger.
use grosz.Prelude.{
  ℕ, ◌+◌, ◌*◌, ◌≤◌, ◌<◌, ◌%◌, ◌-◌, ◌/◌, ◌≡◌, refl, subst, ◌∙◌, some_eq, lt→ltb, ltb→lt, ◌⊎◌, inl,
  inr, true, false, ◌&&◌, Option, none, some, List, [], ◌∷◌, arith, ltb, leb, if◌then◌else◌,
  Bool-cases,
}
use grosz.Prelude.Int.{ℤ, pos, sub_ℕ, ltb_ℤ}
use grosz.Std.{Float64, second}
use grosz.Scheduler.Schedule.{Period, Schedule, active_periods}
use grosz.Scheduler.Profile.{
  LimitPeriod, Profile, limit_from, continues, limit_periods, profile_of, build_profile,
}

le→ltb_false : (a b : ℕ) → b ≤ a → ltb a b ≡ false
le→ltb_false a b h = ground arith

le→leb : (a b : ℕ) → a ≤ b → leb a b ≡ true
le→leb a b h = ground arith

lt_of_lt_le : (a b c : ℕ) → a < b → b ≤ c → a < c
lt_of_lt_le a b c h k = omega arith

module _ (fl : Float64) where
  open fl use {Float, num, lt, eq, int_seconds, int_seconds_whole}

  -- OCPP 1.6, ChargingSchedulePeriod: a period's limit holds from its start until the next period's.
  -- `x` is the number of seconds since StartSchedule, and `held` the limit that held before.
  abbrev pub limit_at : ℤ → Option Float → List (LimitPeriod fl) → Option Float
  limit_at x held [] = held
  limit_at x held (p ∷ ps) =
      let rest = limit_at x (some p.limit) ps in if ltb_ℤ x p.start_period then held else rest

  -- The power that the schedule wants at an instant.
  abbrev pub planned : ℕ → List (Period fl) → Float
  planned t [] = num (pos 0)
  planned t (p ∷ ps) =
      let rest = planned t ps in if leb p.start t && ltb t p.stop then p.power else rest

  -- The same float, or one that Go's == does not tell from it.
  abbrev pub Agrees : Option Float → Float → Type 0
  Agrees none b = ⊥
  Agrees (some a) b = (b ≡ a) ⊎ (eq b a ≡ true)

  -- From `t` on, the periods are proper, come one after the other, and start and end at whole
  -- seconds after `earliest`.
  abbrev pub Follows : ℕ → ℕ → List (Period fl) → Type 0
  Follows earliest t [] = Unit
  Follows earliest t (p ∷ ps) =
      (t ≤ p.start)
      × (p.start < p.stop)
      × (p.start % second ≡ earliest % second)
      × (p.stop % second ≡ earliest % second)
      × Follows earliest p.stop ps

  int_seconds_since :
      (earliest t x : ℕ)
      → earliest ≤ t
      → t % second ≡ earliest % second
      → ltb_ℤ (pos x) (int_seconds (sub_ℕ t earliest)) ≡ ltb (earliest + x * second) t
  int_seconds_since e t x h m =
      let k : ℕ = (t - e) / second in
      let exact : t ≡ e + k * second = omega arith in
      let gap : sub_ℕ t e ≡ pos (k * second) = ground arith in
      let whole : int_seconds (sub_ℕ t e) ≡ pos k = rw gap (int_seconds_whole k) in
      rw whole (rw exact (ground arith))

  module _ (e x : ℕ) where
    abbrev now : ℕ
    now = e + x * second

    -- One emitted period: its limit counts from its start on.
    limit_at-cons :
        (t : ℕ) (limit : Float) (held : Option Float) (ps : List (LimitPeriod fl))
        → e ≤ t
        → t % second ≡ e % second
        → limit_at (pos x) held (limit_from fl e t limit ∷ ps)
          ≡ (if ltb now t then held else limit_at (pos x) (some limit) ps)
    limit_at-cons t limit held ps h m = rw (int_seconds_since e t x h m)

    limit_at_soon :
        (t : ℕ) (limit : Float) (held : Option Float) (ps : List (LimitPeriod fl))
        → e ≤ t
        → t % second ≡ e % second
        → now < t
        → limit_at (pos x) held (limit_from fl e t limit ∷ ps) ≡ held
    limit_at_soon t limit held ps h m b = limit_at-cons t limit held ps h m ∙ rw (lt→ltb now t b)

    limit_at_late :
        (t : ℕ) (limit : Float) (held : Option Float) (ps : List (LimitPeriod fl))
        → e ≤ t
        → t % second ≡ e % second
        → t ≤ now
        → limit_at (pos x) held (limit_from fl e t limit ∷ ps) ≡ limit_at (pos x) (some limit) ps
    limit_at_late t limit held ps h m b =
        limit_at-cons t limit held ps h m ∙ rw (le→ltb_false now t b)

    -- What is emitted for a period that does not continue the last one.
    abbrev emitted : Period fl → List (Period fl) → List (LimitPeriod fl)
    emitted p ps = limit_from fl e p.start p.power ∷ limit_periods fl e (some p.power) p.stop ps

    -- The three ways in which the loop takes a period.
    data Round (last : Option Float) (le : ℕ) (p : Period fl) (ps : List (Period fl)) : Type 0 where
      merged :
          (limit : Float)
          → last ≡ some limit
          → p.start ≡ le
          → eq p.power limit ≡ true
          → limit_periods fl e last le (p ∷ ps) ≡ limit_periods fl e last p.stop ps
          → Round last le p ps
      after_gap :
          le < p.start
          → limit_periods fl e last le (p ∷ ps) ≡ limit_from fl e le (num (pos 0)) ∷ emitted p ps
          → Round last le p ps
      adjacent :
          p.start ≤ le → limit_periods fl e last le (p ∷ ps) ≡ emitted p ps → Round last le p ps

    merged_from :
        (last : Option Float) (le : ℕ) (p : Period fl)
        → continues fl last le p ≡ true
        → (limit : Float) × (last ≡ some limit) × (p.start ≡ le) × (eq p.power limit ≡ true)
    unfolding continues
    merged_from none le p c = cc
    merged_from (some limit) le p c = (limit, refl, ground arith, ground arith)

    round :
        (last : Option Float) (le : ℕ) (p : Period fl) (ps : List (Period fl)) → Round last le p ps
    unfolding limit_periods
    round last le p ps = elim (Bool-cases (continues fl last le p)) [
      | inl c ↦ let (limit, l, s, q) = merged_from last le p c in merged limit l s q (rw c)
      | inr c ↦ elim (Bool-cases (ltb le p.start)) [
        | inl g ↦ after_gap (ltb→lt le p.start g) (rw (c, g))
        | inr g ↦ adjacent (ground arith) (rw (c, g))
      ]
    ]

    -- Before the end of what was emitted, the rest does not count.
    limit_at_early :
        (last held : Option Float) (le : ℕ) (ps : List (Period fl))
        → e ≤ le
        → le % second ≡ e % second
        → Follows e le ps
        → now < le
        → limit_at (pos x) held (limit_periods fl e last le ps) ≡ held
    limit_at_early last held le [] h m f b =
        unfold limit_periods in limit_at_soon le (num (pos 0)) held [] h m b
    limit_at_early last held le (p ∷ ps) h m f b = elim (round last le p ps) [
      | merged limit l s q r ↦
          rw r (limit_at_early last held p.stop ps (omega arith) f.3 f.4 (omega arith))
      | after_gap g r ↦ rw r (limit_at_soon le (num (pos 0)) held (emitted p ps) h m b)
      | adjacent g r ↦ rw r (
          limit_at_soon p.start p.power held (limit_periods fl e (some p.power) p.stop ps)
            (omega arith) f.2 (omega arith))
    ]

    planned_before :
        (last_end : ℕ) (ps : List (Period fl))
        → Follows e last_end ps
        → now < last_end
        → planned now ps ≡ num (pos 0)
    planned_before le [] f b = refl
    planned_before le (p ∷ ps) f b = ground (arith, planned_before p.stop ps f.4)

    Agrees-of_eq :
        (a : Option Float) (b c : Float) → a ≡ some c → (b ≡ c) ⊎ (eq b c ≡ true) → Agrees a b
    Agrees-of_eq a b c e h = rw e h

    -- The plan at an instant from the period's start on.
    within {ℓ} :
        (p : Period fl) (ps : List (Period fl)) (P : Float → Type ℓ)
        → (now < p.stop → P p.power)
        → (p.stop ≤ now → P (planned now ps))
        → p.start ≤ now
        → P (planned now (p ∷ ps))
    within p ps P inside behind h = elim (Bool-cases (ltb now p.stop)) [
      | inl i ↦ rw (le→leb p.start now h, i) (inside (ltb→lt now p.stop i))
      | inr i ↦ rw (le→leb p.start now h, i) (behind (ground arith))
    ]

    -- A period that was emitted, from its start on, given what holds behind it.
    emitted-Agrees :
        (held : Option Float) (p : Period fl) (ps : List (Period fl))
        → e ≤ p.start
        → p.start < p.stop
        → p.start % second ≡ e % second
        → p.stop % second ≡ e % second
        → Follows e p.stop ps
        → p.start ≤ now
        → (p.stop ≤ now
            → Agrees
                (limit_at (pos x) (some p.power) (limit_periods fl e (some p.power) p.stop ps))
                (planned now ps))
        → Agrees (limit_at (pos x) held (emitted p ps)) (planned now (p ∷ ps))
    emitted-Agrees held p ps h l m n f b behind =
        rw (limit_at_late p.start p.power held (limit_periods fl e (some p.power) p.stop ps) h m b)
          (within p ps
            (Agrees (limit_at (pos x) (some p.power) (limit_periods fl e (some p.power) p.stop ps)))
            (λ i.
              Agrees-of_eq _ _ p.power
                (limit_at_early (some p.power) (some p.power) p.stop ps (omega arith) n f i)
                (inl refl))
            behind b)

    limit_at-Agrees :
        (last : Option Float) (last_end : ℕ) (ps : List (Period fl))
        → e ≤ last_end
        → last_end % second ≡ e % second
        → Follows e last_end ps
        → last_end ≤ now
        → Agrees (limit_at (pos x) last (limit_periods fl e last last_end ps)) (planned now ps)
    limit_at-Agrees last le [] h m f b =
        unfold limit_periods in
        Agrees-of_eq _ _ (num (pos 0)) (limit_at_late le (num (pos 0)) last [] h m b) (inl refl)
    limit_at-Agrees last le (p ∷ ps) h m f b =
        let start_from : e ≤ p.start = omega arith in
        let stop_from : e ≤ p.stop = omega arith in
        let behind = λ (l : Option Float) (i : p.stop ≤ now).
          limit_at-Agrees l p.stop ps stop_from f.3 f.4 i in
        elim (round last le p ps) [
          | merged limit l s q r ↦ rw r (
              within p ps (Agrees (limit_at (pos x) last (limit_periods fl e last p.stop ps)))
                (λ i.
                  Agrees-of_eq _ _ limit
                    (limit_at_early last last p.stop ps stop_from f.3 f.4 i ∙ l) (inr q))
                (behind last) (omega arith))
          | after_gap g r ↦
              rw (r, limit_at_late le (num (pos 0)) last (emitted p ps) h m b)
                (elim (Bool-cases (ltb now p.start)) [
                  | inl i ↦
                      Agrees-of_eq _ _ (num (pos 0))
                        (limit_at_soon p.start p.power (some (num (pos 0))) _ start_from f.2
                          (ltb→lt now p.start i))
                        (inl (
                          planned_before p.start (p ∷ ps) (omega arith, f.1, f.2, f.3, f.4)
                            (ltb→lt now p.start i)))
                  | inr i ↦
                      emitted-Agrees (some (num (pos 0))) p ps start_from f.1 f.2 f.3 f.4
                        (ground arith) (behind (some p.power))
                ])
          | adjacent g r ↦ rw r (
              emitted-Agrees last p ps start_from f.1 f.2 f.3 f.4 (omega arith)
                (behind (some p.power)))
        ]

  -- The first period starts the schedule.
  abbrev pub FollowsFirst : List (Period fl) → Type 0
  FollowsFirst [] = Unit
  FollowsFirst (p ∷ ps) = Follows p.start p.start (p ∷ ps)

  profile_of-Agrees :
      (ps : List (Period fl)) (profile : Profile fl) (x : ℕ)
      → profile_of fl ps ≡ some profile
      → FollowsFirst ps
      → Agrees
          (limit_at (pos x) none profile.periods)
          (planned (profile.start_schedule + x * second) ps)
  unfolding profile_of
  profile_of-Agrees [] profile x h f = cc
  profile_of-Agrees (p ∷ ps) profile x h f =
      subst
        (λ (q : Profile fl).
          Agrees (limit_at (pos x) none q.periods)
            (planned (q.start_schedule + x * second) (p ∷ ps)))
        (some_eq _ _ h)
        (limit_at-Agrees p.start x none p.start (p ∷ ps) (omega arith) refl f (omega arith))

  -- What a charger holds to at `x` seconds after the profile's StartSchedule is what the schedule's
  -- active periods plan for that instant, a power within the period that holds it and 0 in the gaps
  -- and after the last. The active periods follow one another, and start and end at whole seconds
  -- from the first one.
  pub limit_at-build_profile :
      (sched : Option (Schedule fl)) (profile : Profile fl) (x : ℕ)
      → build_profile fl sched ≡ some profile
      → FollowsFirst (active_periods fl sched)
      → Agrees
          (limit_at (pos x) none profile.periods)
          (planned (profile.start_schedule + x * second) (active_periods fl sched))
  unfolding build_profile
  limit_at-build_profile sched profile x h f =
      profile_of-Agrees (active_periods fl sched) profile x h f
