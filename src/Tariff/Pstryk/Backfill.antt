-- ===== src/Tariff/Pstryk/Backfill.antt =====
-- fetchConsumptionAndStore of internal/tariff/pstryk.go: the hours that the store misses are fetched
-- in chunks, and the idle energy of the days that they touch is computed again.
pub mod Chunks
use grosz.Prelude.{
  ℕ, suc, zero, ◌+◌, ◌-◌, ◌*◌, Bool, true, false, not, ◌&&◌, Option, none, some, List, [], ◌∷◌,
  ◌++◌, map, ltb, leb, ◌==◌, if◌then◌else◌, length, any,
}
use grosz.Std.{Sorting, TimeText, Float64, Calendar, hour}
use grosz.Window.{Window}
use grosz.Store.Idle.{SessionRow}
use grosz.Store.Idle.Daily.{DailyIdle, rebuild_daily_idle}
use grosz.Store.Rates.{RateRow}
use grosz.Store.PstrykConsumption.{
  PstrykConsumption, ConsumptionRow, top_of_hour, upsert_pstryk_consumption, latest_pstryk_hour,
  earliest_pstryk_hour,
}

abbrev pub consumption_bootstrap : ℕ
consumption_bootstrap = 48 * hour

abbrev pub consumption_cap : ℕ
consumption_cap = 30 * 24 * hour

abbrev pub consumption_chunk : ℕ
consumption_chunk = 7 * 24 * hour

-- `since`, from the earliest and the latest hour in the store.
pub since_of : ℕ → Option ℕ → Option ℕ → ℕ
since_of now earliest latest =
    let desired = top_of_hour now - consumption_bootstrap in
    let since : ℕ = elim earliest [
      | none ↦ desired
      | some e ↦ if leb e desired then elim latest [ none ↦ desired | some l ↦ l ] else desired
    ] in
    let floor = now - consumption_cap in if ltb since floor then floor else since

-- The end of the chunk that starts at an instant.
abbrev pub chunk_end : ℕ → ℕ → ℕ
chunk_end start until =
    if ltb until (start + consumption_chunk) then until else start + consumption_chunk

module _ (fl : Float64) (text : TimeText) where
  open fl use {Float}

  -- What a cycle leaves: the table, the windows that it asked for, the frames that it stored, and
  -- whether no request failed.
  pub record Cycle : Type 0 where
    pub rows : List (ConsumptionRow fl text)
    pub requests : List Window
    pub frames : List (PstrykConsumption fl)
    pub completed : Bool

  -- The loop over the chunks, on fuel; `fetch` is FetchConsumption, and `none` its error.
  unfoldable pub fetch_chunks :
      (ℕ → ℕ → Option (List (PstrykConsumption fl)))
      → ℕ
      → ℕ
      → ℕ
      → List (ConsumptionRow fl text)
      → Option Cycle
  fetch_chunks fetch zero start until rows = none
  fetch_chunks fetch (suc fuel) start until rows =
      let stop = chunk_end start until in
      elim (ltb start until) [
        | false ↦ some (record { rows = rows; requests = []; frames = []; completed = true })
        | true ↦ elim (fetch start stop) [
          | none ↦ some (record {
            rows = rows;
            requests = record { start = start; stop = stop } ∷ [];
            frames = [];
            completed = false;
          })
          | some frames ↦
              elim (fetch_chunks fetch fuel stop until
                (upsert_pstryk_consumption fl text frames rows)) [
                  | none ↦ none
                  | some c ↦ some (record c {
                    requests = record { start = start; stop = stop } ∷ c.requests;
                    frames = frames ++ c.frames;
                  })
                ]
        ]
      ]

  -- The map affectedDates: the local midnights of the frames, each once.
  pub affected_dates : Calendar → List (PstrykConsumption fl) → List ℕ → List ℕ
  affected_dates calendar [] days = days
  affected_dates calendar (f ∷ fs) days =
      let day = calendar.at_clock f.hour 0 0 in
      affected_dates calendar fs (if any (λ d. d == day) days then days else days ++ day ∷ [])

  -- What the loop over the days reads.
  pub record Surroundings : Type 1 where
    pub order_by : Sorting
    pub calendar : Calendar
    pub rates : List (RateRow fl text)
    pub sessions : List (SessionRow text)

  pub rebuild_days :
      Surroundings
      → ℕ
      → List (ConsumptionRow fl text)
      → List ℕ
      → List (DailyIdle fl)
      → List (DailyIdle fl)
  rebuild_days w now rows [] idle = idle
  rebuild_days w now rows (d ∷ ds) idle =
      rebuild_days w now rows ds
        (rebuild_daily_idle fl text w.order_by w.rates w.calendar now d rows w.sessions idle)

  -- The end of fetchConsumptionAndStore: a request that failed has returned before it. Go ranges over
  -- the map of the days in any order.
  pub idle_after : Surroundings → ℕ → Cycle → List (DailyIdle fl) → List (DailyIdle fl)
  unfolding affected_dates rebuild_days
  idle_after w now c idle =
      let days = w.order_by.sort ℕ (λ a b. false) (affected_dates w.calendar c.frames []) in
      if c.completed then rebuild_days w now c.rows days idle else idle

  -- fetchConsumptionAndStore, with a token: the cycle, and the table of the idle days.
  pub fetch_consumption_and_store :
      (ℕ → ℕ → Option (List (PstrykConsumption fl)))
      → Surroundings
      → ℕ
      → List (ConsumptionRow fl text)
      → List (DailyIdle fl)
      → Option (Cycle × List (DailyIdle fl))
  unfolding since_of idle_after
  fetch_consumption_and_store fetch w now rows idle =
      let until = top_of_hour now in
      let since =
        since_of now (earliest_pstryk_hour fl text w.order_by rows)
          (latest_pstryk_hour fl text w.order_by rows) in
      elim (fetch_chunks fetch 6 since until rows) [
        | none ↦ none
        | some c ↦ some (c, idle_after w now c idle)
      ]
