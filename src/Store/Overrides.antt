-- ===== src/Store/Overrides.antt =====
-- internal/store/schedule_overrides.go, with the schedule_overrides table of internal/store/store.go:
-- the user's charging windows and blocks.
pub mod Invariant
use grosz.Prelude.{
  ◌≡◌, ◌⊎◌, refl, inl, inr, ℕ, suc, ◌*◌, ◌/◌, String, Bool, true, false, not, ◌&&◌, ◌||◌, Option,
  none, some, List, [], ◌∷◌, ◌++◌, map, ltb, ◌==◌, if◌then◌else◌, select, any,
}
use grosz.Prelude.Int.{pos}
use grosz.Std.{Sorting, TimeText, Float64, second}
use grosz.Window.{Window}

-- The text of a kind: "force", "block", or anything else that a client may send.
pub data Kind : Type 0 where
  force block : Kind
  other : String → Kind

pub data StoreError : Type 0 where
  end_not_after_start invalid_kind force_without_power overlap insert_failed no_rows : StoreError

pub data Result {ℓ} (A : Type ℓ) : Type ℓ where
  ok : A → Result A
  err : StoreError → Result A

pub Result-cases {ℓ} :
    {A : Type ℓ} (r : Result A) → ((e : StoreError) × (r ≡ err e)) ⊎ ((a : A) × (r ≡ ok a))
Result-cases (ok a) = inr (a, refl)
Result-cases (err e) = inl (e, refl)

pub is_force : Kind → Bool
is_force force = true
is_force _ = false

pub is_known : Kind → Bool
is_known (other _) = false
is_known _ = true

module _ (fl : Float64) where
  pub record ScheduleOverride : Type 0 where
    pub id : ℕ
    pub kind : Kind
    pub start : ℕ
    pub stop : ℕ
    pub power_w : fl.Float
    pub created_at : ℕ

  unfoldable pub window_of : ScheduleOverride → Window
  window_of o = record { start = o.start; stop = o.stop }

  module _ (text : TimeText) where
    open text use {Text, before, format, parse}

    pub record OverrideRow : Type 0 where
      pub id : ℕ
      pub kind : Kind
      pub start_time : Text
      pub end_time : Text
      pub power_w : fl.Float
      pub created_at : ℕ

    -- The table, and the next value of its AUTOINCREMENT key.
    pub record Table : Type 0 where
      pub rows : List OverrideRow
      pub next_id : ℕ

    -- The WHERE clause of the overlap check.
    pub overlaps : Text → Text → OverrideRow → Bool
    overlaps start_str end_str row = before row.start_time end_str && before start_str row.end_time

    -- The table with one more row; `now` is the clock of the database, for the column's default.
    pub with_row : Table → ScheduleOverride → ℕ → Text → Text → Table
    with_row t o now start_str end_str = record t {
      rows =
          t.rows
          ++ record {
            id = t.next_id;
            kind = o.kind;
            start_time = start_str;
            end_time = end_str;
            power_w = o.power_w;
            created_at = now / second * second;
          }
            ∷ [];
      next_id = suc t.next_id;
    }

    -- INSERT, with the table's CHECK(end_time > start_time): a window within one second is refused.
    pub insert_row : Table → ScheduleOverride → ℕ → Text → Text → Table × Result ℕ
    insert_row t o now start_str end_str =
        if before start_str end_str
        then (with_row t o now start_str end_str, ok t.next_id)
        else (t, err insert_failed)

    pub insert_override : Table → ScheduleOverride → ℕ → Table × Result ℕ
    unfolding insert_row overlaps is_known is_force
    insert_override t o now =
        let start_str = format o.start in
        let end_str = format o.stop in
        if not (ltb o.start o.stop)
        then (t, err end_not_after_start)
        else if not (is_known o.kind)
        then (t, err invalid_kind)
        else if is_force o.kind && fl.le o.power_w (fl.num (pos 0))
        then (t, err force_without_power)
        else if any (overlaps start_str end_str) t.rows
        then (t, err overlap)
        else insert_row t o now start_str end_str

    pub delete_override : Table → ℕ → Table × Result (Unit {0})
    delete_override t id =
        if any (λ row. row.id == id) t.rows
        then (record t { rows = select (λ row. not (row.id == id)) t.rows }, ok tt)
        else (t, err no_rows)

    pub purge_old_overrides : Table → ℕ → Table
    purge_old_overrides t cutoff = record t {
      rows = select (λ row. not (before row.end_time (format cutoff))) t.rows;
    }

    -- A text that does not parse gives the zero time.
    pub parsed : Text → ℕ
    parsed s = elim (parse s) [ none ↦ 0 | some t ↦ t ]

    pub scan_override : OverrideRow → ScheduleOverride
    unfolding parsed
    scan_override row = record {
      id = row.id;
      kind = row.kind;
      start = parsed row.start_time;
      stop = parsed row.end_time;
      power_w = row.power_w;
      created_at = row.created_at;
    }

    pub load_overrides : Sorting → Table → ℕ → List ScheduleOverride
    unfolding scan_override
    load_overrides order_by t after = map scan_override (
        order_by.sort OverrideRow (λ a b. before a.start_time b.start_time)
          (select (λ row. before (format after) row.end_time) t.rows))
