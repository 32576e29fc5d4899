-- ===== src/Ocpp/StatusCheck/Stale.antt =====
-- The scan of the connectors in tick of internal/ocpp/statuscheck.go.
use grosz.Prelude.{
  ℕ, ◌≡◌, ap, Bool, true, false, not, ◌&&◌, ◌||◌, Option, none, some, List, [], ◌∷◌, arith, ltb,
  ◌==◌, any, Bool-cases, inl, inr,
}
use grosz.Ocpp.StatusCheck.{ChargePoint, scan, is_due}

-- The connector's last report is too old, or not known.
abbrev pub is_stale : ℕ → Option ℕ → Bool
is_stale cutoff none = true
is_stale cutoff (some last) = last == 0 || ltb last cutoff

abbrev pub has_connector : List (Option ℕ) → Bool
has_connector [] = false
has_connector (_ ∷ _) = true

scan_lem :
    (cutoff : ℕ) (stale known : Bool) (cs : List (Option ℕ))
    → let r = scan cutoff stale known cs in
      not (not r.0 && r.1)
      ≡ ((stale || any (is_stale cutoff) cs) || not (known || has_connector cs))
unfolding scan
scan_lem cutoff stale known [] = ground arith
scan_lem cutoff stale known (none ∷ cs) = ground (arith, scan_lem cutoff true known cs)
scan_lem cutoff stale known (some last ∷ cs) = elim (Bool-cases (last == 0 || ltb last cutoff)) [
  | inl e ↦ ground arith
  | inr e ↦ ground (arith, scan_lem cutoff stale true cs)
]

-- A charge point is due exactly if it is connected, and a connector's last report is too old or not
-- known, or it has no connector; so the order in which the connectors are visited, and that the loop
-- may stop early, play no part.
pub is_due_lem :
    (cutoff : ℕ) (cp : ChargePoint)
    → is_due cutoff cp
      ≡ (cp.connected && (any (is_stale cutoff) cp.connectors || not (has_connector cp.connectors)))
unfolding is_due
is_due_lem cutoff cp = ap (cp.connected &&◌) (scan_lem cutoff false false cp.connectors)
