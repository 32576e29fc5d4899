-- ===== src/Lib.antt =====
-- Grosz: a charging scheduler for an OCPP 1.6 charger, with dynamic tariffs.
--
-- The program keeps the tariff's rates, the user's overrides and the charging sessions in an SQLite
-- store (internal/store), plans the cheapest hours before a deadline (internal/scheduler), sends the
-- plan to the charger as a charging profile, and starts and stops transactions through its OCPP
-- server (internal/ocpp). The scheduler's loop calls recompute and then controlCharging; recompute
-- reads the settings, the rates (internal/tariff) and the overrides, and writes the schedule that
-- controlCharging and the profile are made from.
--
-- Files, from the repository's root:
--   Tariff               internal/tariff/tariff.go, Rate; Pstryk is fetchAndStore and FetchConsumption of
--                        internal/tariff/pstryk.go, Placeholders filterPlaceholders, and Backfill
--                        fetchConsumptionAndStore with its loop over chunks
--   Window               the half-open windows of internal/store/idle.go
--   Store/Idle           nonChargingWindows of internal/store/idle.go; Merge and Invert are mergeWindows
--                        and invertWindows, Exact what they amount to; Daily is computeDailyIdle and RebuildDailyIdle
--   Store/Sessions       internal/store/sessions.go, with the table of internal/store/store.go:
--                        StartSession, StopSession with its metrics, SessionsOverlapping, ActiveSession;
--                        Invariant, Closed, Count and Transactions describe runs of them
--   Store/Odometer       internal/store/odometer.go
--   Store/Meter          the readings of internal/store/meter.go
--   Store/ConnectorState internal/store/connector_state.go
--   Store/Rates          internal/store/rates.go
--   Store/PstrykConsumption  internal/store/pstryk_consumption.go
--   Store/Overrides      internal/store/schedule_overrides.go, with the table of internal/store/store.go:
--                        InsertOverride, DeleteOverride, LoadOverrides, PurgeOldOverrides; Invariant
--                        describes runs of them
--   Scheduler/Schedule   SchedulePeriod, ScheduleSlot, Schedule and ActivePeriods of
--                        internal/scheduler/scheduler.go
--   Scheduler/Totals     recalcSlotTotals, nextDeadlineAfter (internal/scheduler/overrides.go),
--                        priceOverPeriod (internal/scheduler/fragment.go), the sums over slots
--   Scheduler/Fragment   fragmentRates of internal/scheduler/fragment.go; Cut holds its inner loops
--   Scheduler/Forces     splitOverrides, buildForcePeriods, totalForceEnergy and
--                        mergeForcesIntoSchedule of internal/scheduler/overrides.go
--   Scheduler/Compute    ComputeSchedule and computeSlot of internal/scheduler/scheduler.go
--   Scheduler/InProgress preservedSchedule, mergeInProgressSlot, mergeActiveSlotPreservingActive
--   Scheduler/State      the fields of Scheduler, and what a call of recompute is told
--   Scheduler/Recompute  recompute, configFromStore, detectMissedPeriods, preserveActiveSlot; Apply is
--                        applyProfile with ScheduleHash
--   Scheduler/Control    controlChargingInternal, isVehiclePlugBlocked, sendStartForced, sendStop
--   Scheduler/Profile    BuildProfile, IsChargeTime and activeSlot of internal/scheduler/profile.go
--   Scheduler/Actions    CancelSlot, RestoreSlot, ClearSchedule, ResetProfileState, SetConfig, ReloadConfig,
--                        UpdateLivePower and loadPersistedSchedule
--   Scheduler/ModeChange RequestModeChange, applyPendingMode, OnModeChanged
--   Ocpp/Status          the status texts of a connector
--   Ocpp/Connector       internal/ocpp/connector.go: Connector with its measurements
--   Ocpp/Server          internal/ocpp/chargepoint.go, and the state of internal/ocpp/server.go: NewServer
--                        with the hydration from the store, the handlers of a connection, allocateTxnID
--   Ocpp/Handler         internal/ocpp/handler.go: Handler has finalizeSessionOnStop, Messages a function
--                        for each On-handler and runs of them
--   Ocpp/StatusCheck     internal/ocpp/statuscheck.go: tick, allowFire, and the ticks of run
--   Ocpp/Requests        internal/ocpp/requests.go: the requests to a charge point; Retry is withRetry
--   Vehicle/Renault      internal/vehicle/renault.go: what Renault keeps, and ensureAuth
--   Vehicle/SocLevel     getSocLevel, putSocLevel, and what pollTierB does with the charge limits
--   Vehicle/SocTarget    SetSocTarget
--   Vehicle/Poll         pollOnce and pollTierB; Frame is buildABRPTelemetry
--   Vehicle/Loop         loop, with the intervals of its polls; Turns and Cadence are about its runs
--   Vehicle/Sound        runs of polls and of changes of the charge limit
--   Meter                internal/meter/meter.go: poll; Monotonic is about adjustEnergy, Rows,
--                        Kept and Series about the readings that runs store
--   Web/Texts            the texts of instants that Go and SQLite write, as bytes
--   Web/Sessions         internal/web/sessions.go
--   Tests                concrete models of the parameters, and the theorems at concrete inputs
--
-- Conventions. An instant is a number of nanoseconds since Go's zero time, a duration a difference of
-- two, `End` of the source is `stop`, a date's text is the number of its day. A call of an operation is
-- a function from the state to the state and what it sends. A call is told the instant that timeNow
-- or time.Now would give, and one call sees one instant; where an answer of another machine comes
-- between two readings of the clock, each reading is told. The source's mutexes make the calls of the
-- scheduler follow one another.
--
-- Parameters, for code that is not in the repository: Float64 for float64 and Duration's conversions,
-- TimeText for RFC 3339 texts, Sorting for sort.Slice and for ORDER BY (neither promises to be stable),
-- Calendar for the local time zone, Digest for SHA-256, NanoText for the texts with nanoseconds of the
-- connectors' states, Sums for SQL's SUM, DayText for the texts of days and times. Their laws are what the documentation of Go and
-- SQLite says. IsExact, which only Meter uses, says that float64 computes exactly with whole numbers
-- up to 2^53. A database call fails only where the model says so.
--
-- Durations that the model lets wrap around as an int64 does: the intervals of the Renault client, the
-- greatest age in the scheduler's check of the plug, and the lifetime of a session.
--
-- Bounds. All loops are recursion on the list that they run over. The loop of ComputeSchedule over
-- deadline windows runs at most twice, as its constant says, so its fuel is that constant. The loop
-- of fetchConsumptionAndStore has fuel 6, for at most 5 chunks of 7 days in the 30 days of its cap,
-- and is proved never to run out of it.
--
-- Not modelled: the log, the text of events, the JSON of the saved schedule and the settings' texts;
-- the OCPP transport and the contents of its requests; the HTTP requests to Pstryk, Renault, ABRP and
-- the meter, whose answers are inputs; the link of a Renault account with a second factor, the car's
-- name and image, the report of costs, and the handlers of the web server. Of the OCPP profile only
-- the fields that depend on the schedule are kept.
pub mod Prelude
pub mod Std
pub mod Window
pub mod Store
pub mod Tariff
pub mod Scheduler
pub mod Ocpp
pub mod Web
pub mod Meter
pub mod Vehicle
pub mod Tests
