-- ===== src/Vehicle/SocLevel.antt =====
-- The charge limits of the car in internal/vehicle/renault.go: getSocLevel, putSocLevel, and the part
-- of pollTierB that reads the limits.
pub mod Backoff
use grosz.Prelude.{
  ℕ, ◌+◌, ◌*◌, Bool, true, false, not, ◌&&◌, ◌||◌, Option, none, some, List, [], ◌∷◌, ltb, leb,
  ◌==◌, if◌then◌else◌,
}
use grosz.Prelude.Int.{ℤ, pos, negsuc}
use grosz.Std.{TimeText, Float64, hour}
use grosz.Vehicle.Renault.{State, is_positive}

-- socLevelBackoff and socLevelRefresh.
abbrev pub soc_level_backoff : ℕ
soc_level_backoff = hour

abbrev pub soc_level_refresh : ℕ
soc_level_refresh = 6 * hour

-- SocLevel, without its timestamp.
pub record SocLevel : Type 0 where
  pub soc_min : ℤ
  pub soc_target : ℤ

-- "ev/soc-levels" and "ev/soc-level".
pub data EndPoint : Type 0 where
  plural singular : EndPoint

abbrev pub paths : List EndPoint
paths = plural ∷ singular ∷ []

-- A request for the limits, or to change them.
pub data Request : Type 0 where
  read_level : EndPoint → Request
  write_level : EndPoint → ℤ → ℤ → Request

-- What a request is answered: nothing, a status that is not 200, or 200 with a body, which is what
-- json.Unmarshal makes of it at the top level and under data.attributes.
pub data LevelAnswer : Type 0 where
  unreached : LevelAnswer
  status : ℕ → LevelAnswer
  body : Option SocLevel → Option SocLevel → LevelAnswer

pub data LevelResult : Type 0 where
  level : SocLevel → LevelResult
  rate_limited unavailable : LevelResult

abbrev is_zero : ℤ → Bool
is_zero (pos n) = n == 0
is_zero (negsuc n) = false

abbrev is_blank : SocLevel → Bool
is_blank l = is_zero l.soc_min && is_zero l.soc_target

-- parseSocLevel.
unfoldable pub parse_soc_level : Option SocLevel → Option SocLevel → LevelResult
parse_soc_level none wrapped = unavailable
parse_soc_level (some flat) none = level flat
parse_soc_level (some flat) (some w) =
    if is_blank flat && not (is_blank w) then level w else level flat

-- The loop of getSocLevel: the result, and the requests that were sent.
unfoldable pub read_levels : (EndPoint → LevelAnswer) → List EndPoint → LevelResult × List Request
unfolding parse_soc_level
read_levels answer [] = (unavailable, [])
read_levels answer (p ∷ ps) =
    let next = read_levels answer ps in
    let again : LevelResult × List Request = (next.0, read_level p ∷ next.1) in
    elim (answer p) [
      | unreached ↦ again
      | status n ↦
          if n == 429
          then (rate_limited, read_level p ∷ [])
          else if n == 404
          then again
          else (unavailable, read_level p ∷ [])
      | body flat wrapped ↦ (parse_soc_level flat wrapped, read_level p ∷ [])
    ]

-- getSocLevel.
unfoldable pub get_soc_level : (EndPoint → LevelAnswer) → LevelResult × List Request
unfolding read_levels
get_soc_level answer = read_levels answer paths

-- The loop of putSocLevel: whether it succeeded; a write is answered nothing, `none`, or a status.
unfoldable pub write_levels : (EndPoint → Option ℕ) → ℤ → ℤ → List EndPoint → Bool × List Request
write_levels answer soc_min soc_target [] = (false, [])
write_levels answer soc_min soc_target (p ∷ ps) =
    let request = write_level p soc_min soc_target in
    let next = write_levels answer soc_min soc_target ps in
    let again : Bool × List Request = (next.0, request ∷ next.1) in
    elim (answer p) [
      | none ↦ again
      | some n ↦
          if n == 200 || n == 204
          then (true, request ∷ [])
          else if n == 404
          then again
          else (false, request ∷ [])
    ]

-- putSocLevel.
unfoldable pub put_soc_level : (EndPoint → Option ℕ) → ℤ → ℤ → Bool × List Request
unfolding write_levels
put_soc_level answer soc_min soc_target = write_levels answer soc_min soc_target paths

module _ (fl : Float64) (text : TimeText) where
  open text use {Text, format, parse}

  -- setSocLevelCache.
  unfoldable pub set_soc_level_cache : SocLevel → State fl text → State fl text
  set_soc_level_cache l s =
      let s1 : State fl text =
        if is_positive l.soc_min
        then record s { soc_min = l.soc_min; soc_level_known = true }
        else s in
      if is_positive l.soc_target then record s1 { soc_target = l.soc_target } else s1

  -- setCachedSocTarget.
  unfoldable pub set_cached_soc_target : ℤ → State fl text → State fl text
  set_cached_soc_target target s =
      if is_positive target then record s { soc_target = target } else s

  -- socLevelBackedOff.
  unfoldable pub soc_level_backed_off : ℕ → State fl text → Bool
  soc_level_backed_off now s = elim s.soc_level_backoff_until [
    | none ↦ false
    | some ts ↦ elim (parse ts) [ none ↦ false | some until ↦ ltb now until ]
  ]

  -- shouldFetchSocLevel.
  unfoldable pub should_fetch_soc_level : ℕ → State fl text → Bool
  should_fetch_soc_level now s = if not s.soc_level_known then true else elim s.soc_level_read_at [
    | none ↦ true
    | some ts ↦ elim (parse ts) [ none ↦ true | some t ↦ leb (t + soc_level_refresh) now ]
  ]

  -- What a read of the limits stores.
  unfoldable pub stored_level : ℕ → SocLevel → State fl text → State fl text
  unfolding set_soc_level_cache
  stored_level now l s = set_soc_level_cache l (record s {
    soc_level_backoff_until = none;
    soc_level_read_at = some (format now);
    stored_soc_target = if is_positive l.soc_target then some l.soc_target else s.stored_soc_target;
    stored_soc_min = if is_positive l.soc_min then some l.soc_min else s.stored_soc_min;
  })

  -- The first part of pollTierB: the state, and the requests that were sent.
  unfoldable pub poll_soc_level :
      ℕ → (EndPoint → LevelAnswer) → State fl text → State fl text × List Request
  unfolding should_fetch_soc_level soc_level_backed_off stored_level get_soc_level
  poll_soc_level now answer s =
      let (result, requests) = get_soc_level answer in
      let polled : State fl text = elim result [
        | rate_limited ↦ record s {
          soc_level_backoff_until = some (format (now + soc_level_backoff));
        }
        | unavailable ↦ s
        | level l ↦ stored_level now l s
      ] in
      if not (should_fetch_soc_level now s)
      then (s, [])
      else if soc_level_backed_off now s
      then (s, [])
      else (polled, requests)
