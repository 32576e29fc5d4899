-- ===== src/Scheduler/Recompute/Apply.antt =====
-- applyProfile of internal/scheduler/scheduler.go and ScheduleHash of internal/scheduler/profile.go.
use grosz.Prelude.{
  ℕ, ◌+◌, ◌*◌, ◌≡◌, false, not, ◌&&◌, none, some, List, [], ◌∷◌, map, ltb, ◌==◌, if◌then◌else◌,
  select,
}
use grosz.Std.{Float64, TimeText, second}
use grosz.Scheduler.Schedule.{Period, Schedule, active_periods}
use grosz.Scheduler.Profile.{build_profile}
use grosz.Scheduler.State.{Surroundings, State, Effect, set_charging_profile}

-- profileCmdCooldown.
abbrev profile_cmd_cooldown : ℕ
profile_cmd_cooldown = 30 * second

-- SHA-256 of the printed periods, whose start, end and power are printed; never the empty text.
pub record Digest (fl : Float64) : Type 0 where
  pub digest : List (ℕ × ℕ × fl.Float) → ℕ
  pub digest_ne_empty : (ps : List (ℕ × ℕ × fl.Float)) → (digest ps == 0) ≡ false

module _ (fl : Float64) (text : TimeText) (d : Digest fl) where
  -- Of the active periods that have not ended; the empty text if there is none.
  unfoldable pub schedule_hash : ℕ → Schedule fl → ℕ
  schedule_hash now sched = elim (select (λ p. ltb now p.stop) (active_periods fl (some sched))) [
    | [] ↦ 0
    | p ∷ ps ↦ d.digest (map (λ (q : Period fl). (q.start, q.stop, q.power)) (p ∷ ps))
  ]

  unfoldable pub apply_profile :
      Surroundings fl text → Schedule fl → State fl text → State fl text × List (Effect fl text)
  unfolding schedule_hash
  apply_profile env sched st =
      let hash = schedule_hash env.now sched in
      let unchanged = hash == st.last_profile_hash in
      let cooldown =
        not (st.last_profile_sent == 0)
        && ltb env.now (st.last_profile_sent + profile_cmd_cooldown) in
      if not env.has_charge_box
      then (st, [])
      else if hash == 0
      then (st, [])
      else elim (build_profile fl (some sched)) [
        | none ↦ (st, [])
        | some profile ↦
            if unchanged
            then (st, [])
            else if cooldown
            then (st, [])
            else if env.profile_taken
            then (
              record st { last_profile_hash = hash; last_profile_sent = env.now },
              set_charging_profile profile ∷ [],
            )
            else (st, set_charging_profile profile ∷ [])
      ]
