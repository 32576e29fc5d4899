-- ===== src/Store/Overrides/Invariant.antt =====
-- What holds of the schedule_overrides table between two calls.
use grosz.Prelude.{
  ℕ, suc, ◌<◌, ◌≡◌, ◌⊎◌, not, ◌==◌, inl, inr, Bool, true, false, ◌&&◌, List, [], ◌∷◌, arith, select,
  any, All, Ordered, All-append, All-select, All-map, All-any-false, Ordered-select, Ordered-snoc,
  Bool-cases,
}
use grosz.Std.{TimeText, Float64}
use grosz.Store.Overrides.{
  ScheduleOverride, OverrideRow, Table, is_known, with_row, overlaps, insert_row, insert_override,
  delete_override, purge_old_overrides,
}

module _ (fl : Float64) (text : TimeText) where
  open text use {Text, before, format}

  abbrev Row : Type 0
  Row = OverrideRow fl text

  -- Two rows share no instant.
  abbrev pub Disjoint : Row → Row → Type 0
  Disjoint a b = (before a.start_time b.end_time && before b.start_time a.end_time) ≡ false

  -- The constraints on one row.
  abbrev pub IsWindow : Row → Type 0
  IsWindow r = (before r.start_time r.end_time ≡ true) × (is_known r.kind ≡ true)

  pub record IsValid (t : Table fl text) : Type 0 where
    pub windows : All IsWindow t.rows
    pub disjoint : Ordered Disjoint t.rows
    pub ids_grow : Ordered (λ a b. a.id < b.id) t.rows
    pub ids_used : All (λ r. r.id < t.next_id) t.rows

  -- A call on the table.
  pub data Call : Type 0 where
    insert : ScheduleOverride fl → ℕ → Call
    delete : ℕ → Call
    purge : ℕ → Call

  unfoldable pub apply : Table fl text → Call → Table fl text
  apply t (insert o now) = (insert_override fl text t o now).0
  apply t (delete id) = (delete_override fl text t id).0
  apply t (purge cutoff) = purge_old_overrides fl text t cutoff

  unfoldable pub apply_all : Table fl text → List Call → Table fl text
  unfolding apply
  apply_all t [] = t
  apply_all t (c ∷ cs) = apply_all (apply t c) cs

  -- An insert changes nothing, or adds a row that keeps the constraints and overlaps none.
  abbrev Grows : Table fl text → ScheduleOverride fl → ℕ → Type 0
  Grows t o now =
      ((insert_override fl text t o now).0
        ≡ with_row fl text t o now (format o.start) (format o.stop))
      × (before (format o.start) (format o.stop) ≡ true)
      × (is_known o.kind ≡ true)
      × (any (overlaps fl text (format o.start) (format o.stop)) t.rows ≡ false)

  insert_cases :
      (t : Table fl text) (o : ScheduleOverride fl) (now : ℕ)
      → ((insert_override fl text t o now).0 ≡ t) ⊎ Grows t o now
  unfolding insert_override insert_row
  insert_cases t o now = ground arith

  with_row-IsValid :
      (t : Table fl text) (o : ScheduleOverride fl) (now : ℕ)
      → IsValid t
      → before (format o.start) (format o.stop) ≡ true
      → is_known o.kind ≡ true
      → any (overlaps fl text (format o.start) (format o.stop)) t.rows ≡ false
      → IsValid (with_row fl text t o now (format o.start) (format o.stop))
  unfolding with_row overlaps
  with_row-IsValid t o now v p q n = record {
    windows = All-append IsWindow t.rows _ v.windows ((p, q), tt);
    disjoint = Ordered-snoc Disjoint t.rows _ v.disjoint (All-any-false _ t.rows n);
    ids_grow = Ordered-snoc (λ a b. a.id < b.id) t.rows _ v.ids_grow v.ids_used;
    ids_used =
        All-append (λ r. r.id < suc t.next_id) t.rows _
          (All-map (λ r (h : r.id < t.next_id). omega arith) t.rows v.ids_used) (omega arith, tt);
  }

  insert-IsValid :
      (t : Table fl text) (o : ScheduleOverride fl) (now : ℕ)
      → IsValid t
      → IsValid (insert_override fl text t o now).0
  insert-IsValid t o now v = elim (insert_cases t o now) [
    | inl same ↦ rw same v
    | inr (grown, p, q, n) ↦ rw grown (with_row-IsValid t o now v p q n)
  ]

  select-IsValid :
      (t : Table fl text) (p : Row → Bool)
      → IsValid t
      → IsValid (record t { rows = select p t.rows })
  select-IsValid t p v = record {
    windows = All-select IsWindow p t.rows v.windows;
    disjoint = Ordered-select Disjoint p t.rows v.disjoint;
    ids_grow = Ordered-select (λ a b. a.id < b.id) p t.rows v.ids_grow;
    ids_used = All-select (λ r. r.id < t.next_id) p t.rows v.ids_used;
  }

  delete-IsValid :
      (t : Table fl text) (id : ℕ) → IsValid t → IsValid (delete_override fl text t id).0
  unfolding delete_override
  delete-IsValid t id v = elim (Bool-cases (any (λ row. row.id == id) t.rows)) [
    | inl e ↦ rw e (select-IsValid t (λ row. not (row.id == id)) v)
    | inr e ↦ rw e v
  ]

  purge-IsValid :
      (t : Table fl text) (cutoff : ℕ) → IsValid t → IsValid (purge_old_overrides fl text t cutoff)
  unfolding purge_old_overrides
  purge-IsValid t cutoff v = select-IsValid t _ v

  -- Every call keeps the table's windows proper and disjoint and its ids distinct.
  pub apply-IsValid : (t : Table fl text) (c : Call) → IsValid t → IsValid (apply t c)
  unfolding apply
  apply-IsValid t (insert o now) v = insert-IsValid t o now v
  apply-IsValid t (delete id) v = delete-IsValid t id v
  apply-IsValid t (purge cutoff) v = purge-IsValid t cutoff v

  -- From a valid table, no sequence of inserts, deletes and purges reaches a table with two
  -- overlapping overrides, an empty one, one of an unknown kind, or an id used twice.
  pub apply_all-IsValid :
      (t : Table fl text) (cs : List Call) → IsValid t → IsValid (apply_all t cs)
  unfolding apply_all
  apply_all-IsValid t [] v = v
  apply_all-IsValid t (c ∷ cs) v = apply_all-IsValid (apply t c) cs (apply-IsValid t c v)
