-- ===== src/Ocpp/StatusCheck.antt =====
-- internal/ocpp/statuscheck.go: the charger is asked for its status when its last report is too old.
-- The id of a charge point, a text that is only compared, is a number.
pub mod Spacing
pub mod Stale
use grosz.Prelude.{
  ℕ, ◌+◌, ◌-◌, Bool, true, false, not, ◌&&◌, ◌||◌, Option, none, some, List, [], ◌∷◌, ◌++◌, ltb,
  ◌==◌, if◌then◌else◌,
}

-- A charge point with, for each of its connectors, the time of the last status notification that the
-- store has; `none` is an error of the store or no row.
pub record ChargePoint : Type 0 where
  pub id : ℕ
  pub connected : Bool
  pub connectors : List (Option ℕ)

-- The map lastFire.
abbrev pub LastFire : Type 0
LastFire = ℕ → Option ℕ

-- The loop over the connectors, with its `break`: any_stale and any_known.
unfoldable pub scan : ℕ → Bool → Bool → List (Option ℕ) → Bool × Bool
scan cutoff any_stale any_known [] = (any_stale, any_known)
scan cutoff any_stale any_known (none ∷ cs) = scan cutoff true any_known cs
scan cutoff any_stale any_known (some last ∷ cs) =
    let rest = scan cutoff any_stale true cs in
    if last == 0 || ltb last cutoff then (true, true) else rest

-- The point is connected, and not known to be fresh.
pub is_due : ℕ → ChargePoint → Bool
unfolding scan
is_due cutoff cp =
    let (any_stale, any_known) = scan cutoff false false cp.connectors in
    cp.connected && not (not any_stale && any_known)

abbrev pub fired_at : ℕ → ℕ → LastFire → LastFire
fired_at id now last_fire = λ k. if k == id then some now else last_fire k

-- allowFire: whether it may fire, and the map that it leaves.
pub allow_fire : ℕ → ℕ → ℕ → LastFire → Bool × LastFire
allow_fire id now cooldown last_fire = elim (last_fire id) [
  | none ↦ (true, fired_at id now last_fire)
  | some last ↦
      if ltb now (last + cooldown) then (false, last_fire) else (true, fired_at id now last_fire)
]

-- One round of the loop of tick: what is triggered, with its time.
pub visit : ℕ → ℕ → ChargePoint → LastFire → List (ℕ × ℕ) × LastFire
unfolding is_due allow_fire
visit threshold now cp last_fire =
    let (allowed, last_fire') = allow_fire cp.id now threshold last_fire in
    if is_due (now - threshold) cp
    then (if allowed then (cp.id, now) ∷ [] else [], last_fire')
    else ([], last_fire)

pub visit_all : ℕ → ℕ → List ChargePoint → LastFire → List (ℕ × ℕ) × LastFire
unfolding visit
visit_all threshold now [] last_fire = ([], last_fire)
visit_all threshold now (cp ∷ cps) last_fire =
    let (fired, last_fire') = visit threshold now cp last_fire in
    let (rest, last_fire'') = visit_all threshold now cps last_fire' in (fired ++ rest, last_fire'')

-- What one tick is told; a threshold below 0 counts like 0.
pub record Tick : Type 0 where
  pub threshold : ℕ
  pub now : ℕ
  pub has_store : Bool
  pub charge_points : List ChargePoint

pub tick : Tick → LastFire → List (ℕ × ℕ) × LastFire
unfolding visit_all
tick t last_fire =
    let result = visit_all t.threshold t.now t.charge_points last_fire in
    if t.threshold == 0
    then ([], last_fire)
    else if not t.has_store
    then ([], last_fire)
    else result

-- The loop of run: what its ticks trigger.
unfoldable pub run : List Tick → LastFire → List (ℕ × ℕ)
unfolding tick
run [] last_fire = []
run (t ∷ ts) last_fire = let (fired, last_fire') = tick t last_fire in fired ++ run ts last_fire'
