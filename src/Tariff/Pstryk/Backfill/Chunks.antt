-- ===== src/Tariff/Pstryk/Backfill/Chunks.antt =====
-- The loop over the chunks in fetchConsumptionAndStore of internal/tariff/pstryk.go.
use grosz.Prelude.{
  ℕ, suc, zero, ◌+◌, ◌*◌, ◌≤◌, ◌<◌, ◌≡◌, ◌⊎◌, refl, ap, ◌∙◌, Bool, true, false, Option, none, some,
  List, [], ◌∷◌, ◌++◌, arith, ltb, length, inl, inr, Bool-cases, Option-cases,
}
use grosz.Std.{TimeText, Float64, hour}
use grosz.Window.{Window}
use grosz.Store.Idle.Daily.{DailyIdle}
use grosz.Store.PstrykConsumption.{
  PstrykConsumption, ConsumptionRow, top_of_hour, upsert_pstryk_consumption, latest_pstryk_hour,
  earliest_pstryk_hour,
}
use grosz.Tariff.Pstryk.Backfill.{
  consumption_cap, consumption_chunk, since_of, chunk_end, Cycle, fetch_chunks, Surroundings,
  idle_after, fetch_consumption_and_store,
}

-- Each request starts where the one before it ended, is not empty and is not longer than a chunk. The
-- last one reaches the end of the window, or has failed.
abbrev pub Chain : ℕ → ℕ → Bool → List Window → Type 0
Chain start until completed [] = (until ≤ start) × (completed ≡ true)
Chain start until completed (w ∷ ws) =
    (w.start ≡ start)
    × (start < w.stop)
    × (w.stop ≤ until)
    × (w.stop ≤ start + consumption_chunk)
    × (((ws ≡ []) × (completed ≡ false)) ⊎ Chain w.stop until completed ws)

since_of_lem : (now : ℕ) (e l : Option ℕ) → now ≤ since_of now e l + consumption_cap
unfolding since_of
since_of_lem now e l = ground arith

module _ (fl : Float64) (text : TimeText)
    (fetch : ℕ → ℕ → Option (List (PstrykConsumption fl))) where
  -- What the requests were answered; an error is no frames.
  abbrev pub answered : List Window → List (PstrykConsumption fl)
  answered [] = []
  answered (w ∷ ws) =
      let rest = answered ws in elim (fetch w.start w.stop) [ none ↦ rest | some fs ↦ fs ++ rest ]

  -- A cycle from an instant to another over a table, of so many requests at most.
  pub record IsCycle (start until most : ℕ) (rows : List (ConsumptionRow fl text))
      (c : Cycle fl text) : Type 0 where
    pub chain : Chain start until c.completed c.requests
    pub few : length c.requests ≤ most
    pub frames_answered : c.frames ≡ answered c.requests
    pub frames_stored : c.rows ≡ upsert_pstryk_consumption fl text c.frames rows

  upsert-append :
      (xs ys : List (PstrykConsumption fl)) (rows : List (ConsumptionRow fl text))
      → upsert_pstryk_consumption fl text ys (upsert_pstryk_consumption fl text xs rows)
        ≡ upsert_pstryk_consumption fl text (xs ++ ys) rows
  unfolding upsert_pstryk_consumption
  upsert-append [] ys rows = refl
  upsert-append (x ∷ xs) ys rows = upsert-append xs ys _

  abbrev first_of : ℕ → ℕ → Window
  first_of start until = record { start = start; stop = chunk_end start until }

  abbrev finished : List (ConsumptionRow fl text) → Cycle fl text
  finished rows = record { rows = rows; requests = []; frames = []; completed = true }

  abbrev failed : ℕ → ℕ → List (ConsumptionRow fl text) → Cycle fl text
  failed start until rows = record {
    rows = rows;
    requests = first_of start until ∷ [];
    frames = [];
    completed = false;
  }

  abbrev went_on : ℕ → ℕ → List (PstrykConsumption fl) → Cycle fl text → Cycle fl text
  went_on start until frames c = record c {
    requests = first_of start until ∷ c.requests;
    frames = frames ++ c.frames;
  }

  module _ (fuel start until : ℕ) (rows : List (ConsumptionRow fl text)) where
    fetch_chunks-finished :
        ltb start until ≡ false
        → fetch_chunks fl text fetch (suc fuel) start until rows ≡ some (finished rows)
    unfolding fetch_chunks
    fetch_chunks-finished e = rw (fetch_chunks, e)

    fetch_chunks-failed :
        ltb start until ≡ true
        → fetch start (chunk_end start until) ≡ none
        → fetch_chunks fl text fetch (suc fuel) start until rows ≡ some (failed start until rows)
    unfolding fetch_chunks
    fetch_chunks-failed e f = rw (fetch_chunks, e, f)

    fetch_chunks-went_on :
        (frames : List (PstrykConsumption fl)) (c : Cycle fl text)
        → ltb start until ≡ true
        → fetch start (chunk_end start until) ≡ some frames
        → fetch_chunks fl text fetch fuel
            (chunk_end start until)
            until
            (upsert_pstryk_consumption fl text frames rows)
          ≡ some c
        → fetch_chunks fl text fetch (suc fuel) start until rows
          ≡ some (went_on start until frames c)
    unfolding fetch_chunks
    fetch_chunks-went_on frames c e f h = rw (fetch_chunks, e, f, h)

  finished-IsCycle :
      (start until most : ℕ) (rows : List (ConsumptionRow fl text))
      → ltb start until ≡ false
      → IsCycle start until most rows (finished rows)
  unfolding upsert_pstryk_consumption
  finished-IsCycle start until most rows e = record {
    chain = (ground arith, refl);
    few = omega arith;
    frames_answered = refl;
    frames_stored = refl;
  }

  failed-IsCycle :
      (start until most : ℕ) (rows : List (ConsumptionRow fl text))
      → ltb start until ≡ true
      → fetch start (chunk_end start until) ≡ none
      → IsCycle start until (suc most) rows (failed start until rows)
  unfolding upsert_pstryk_consumption
  failed-IsCycle start until most rows e f = record {
    chain = (refl, ground arith, ground arith, ground arith, inl (refl, refl));
    few = omega arith;
    frames_answered = rw f;
    frames_stored = refl;
  }

  went_on-IsCycle :
      (start until most : ℕ) (rows : List (ConsumptionRow fl text))
      (frames : List (PstrykConsumption fl)) (c : Cycle fl text)
      → ltb start until ≡ true
      → fetch start (chunk_end start until) ≡ some frames
      → IsCycle (chunk_end start until) until most (upsert_pstryk_consumption fl text frames rows) c
      → IsCycle start until (suc most) rows (went_on start until frames c)
  went_on-IsCycle start until most rows frames c e f is = record {
    chain = (refl, ground arith, ground arith, ground arith, inr is.chain);
    few = omega (arith, is.few);
    frames_answered = rw f (ap (λ fs. frames ++ fs) is.frames_answered);
    frames_stored = is.frames_stored ∙ upsert-append frames c.frames rows;
  }

  -- With fuel for one request more than the window has chunks, the loop ends, and what it leaves is a
  -- cycle over the window.
  pub fetch_chunks-IsCycle :
      (most start until : ℕ) (rows : List (ConsumptionRow fl text))
      → until ≤ start + most * consumption_chunk
      → (c : Cycle fl text) × (fetch_chunks fl text fetch (suc most) start until rows ≡ some c)
        × IsCycle start until most rows c
  fetch_chunks-IsCycle zero start until rows h =
      let e : ltb start until ≡ false = ground arith in
      (
        finished rows,
        fetch_chunks-finished 0 start until rows e,
        finished-IsCycle start until 0 rows e,
      )
  fetch_chunks-IsCycle (suc most) start until rows h = elim (Bool-cases (ltb start until)) [
    | inr e ↦ (
      finished rows,
      fetch_chunks-finished (suc most) start until rows e,
      finished-IsCycle start until (suc most) rows e,
    )
    | inl e ↦ elim (Option-cases (fetch start (chunk_end start until))) [
      | inl f ↦ (
        failed start until rows,
        fetch_chunks-failed (suc most) start until rows e f,
        failed-IsCycle start until most rows e f,
      )
      | inr (frames, f) ↦
          let (c, found, is) =
            fetch_chunks-IsCycle most (chunk_end start until) until
              (upsert_pstryk_consumption fl text frames rows) (ground arith) in
          (
            went_on start until frames c,
            fetch_chunks-went_on (suc most) start until rows frames c e f found,
            went_on-IsCycle start until most rows frames c e f is,
          )
    ]
  ]

  -- A backfill always comes to an end. From `since`, which is at most 30 days before now, to the last
  -- full hour it asks for at most 5 windows, each of at most 7 days and right after the one before it;
  -- they cover the whole time unless a request fails, which is then the last. Exactly the frames that
  -- the requests were answered are in the table, those before a failure included.
  pub fetch_consumption_and_store-IsCycle :
      (w : Surroundings fl text) (now : ℕ) (rows : List (ConsumptionRow fl text))
      (idle : List (DailyIdle fl))
      → let since =
          since_of now
            (earliest_pstryk_hour fl text w.order_by rows)
            (latest_pstryk_hour fl text w.order_by rows) in
        (now ≤ since + 30 * 24 * hour)
        × ((c : Cycle fl text) × (idle' : List (DailyIdle fl)) × (fetch_consumption_and_store fl
                text fetch w now rows idle
              ≡ some (c, idle'))
            × IsCycle since (top_of_hour now) 5 rows c)
  unfolding fetch_consumption_and_store
  fetch_consumption_and_store-IsCycle w now rows idle =
      let e = earliest_pstryk_hour fl text w.order_by rows in
      let l = latest_pstryk_hour fl text w.order_by rows in
      let capped = since_of_lem now e l in
      let (c, found, is) =
        fetch_chunks-IsCycle 5 (since_of now e l) (top_of_hour now) rows (omega arith) in
      (capped, (c, idle_after fl text w now c idle, rw (fetch_consumption_and_store, found), is))
