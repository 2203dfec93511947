-- ===== src/Heartbeat/Laws.antt =====
-- When the system counts as healthy.
use autonomous_quant_tra.Base.{
  ℕ, ◌+◌, ◌≤◌, ◌≡◌, refl, String, false, some, [], ◌∷◌, map, contains, string_eq, arith, eq_iff,
}
use autonomous_quant_tra.Dict.{Dict, lookup, keys}
use autonomous_quant_tra.Heartbeat.{
  service_ok, service_warning, service_error, status_eq, Heartbeat, HeartbeatRegistry, status_at,
  status_of, or_error, overall,
}

all_ok :
    (now : ℕ) (r : HeartbeatRegistry) (service : String) (d : Dict String Heartbeat)
    (hb : Heartbeat)
    → contains service_error (map (λ s. status_of s now r) (keys d)) ≡ false
    → contains service_warning (map (λ s. status_of s now r) (keys d)) ≡ false
    → lookup service d ≡ some hb
    → status_of service now r ≡ service_ok
unfolding lookup
all_ok now r service [] hb e w found = absurd (cc)
all_ok now r service ((k, h) ∷ d) hb e w found =
    ground (arith, eq_iff service k, all_ok now r service d hb)

some_reported :
    (now : ℕ) (r : HeartbeatRegistry) (service : String) (d : Dict String Heartbeat)
    (hb : Heartbeat)
    → lookup service d ≡ some hb
    → or_error (map (λ s. status_of s now r) (keys d)) ≡ map (λ s. status_of s now r) (keys d)
unfolding lookup
some_reported now r service [] hb found = absurd (cc)
some_reported now r service ((k, h) ∷ d) hb found = refl

one_ok :
    (now stale_after : ℕ) (hb : Heartbeat)
    → status_at now stale_after (some hb) ≡ service_ok
    → (hb.status ≡ service_ok) × (now ≤ hb.at + stale_after)
one_ok now stale_after hb h = ground arith

-- If the whole is reported OK, then each service that has ever reported is OK and reported no longer
-- ago than the limit.
pub overall_ok :
    (now : ℕ) (r : HeartbeatRegistry) (service : String) (hb : Heartbeat)
    → overall now r ≡ service_ok
    → lookup service r.latest ≡ some hb
    → (hb.status ≡ service_ok) × (now ≤ hb.at + r.stale_after)
unfolding overall status_of
overall_ok now r service hb fine found =
    let same = some_reported now r service r.latest hb found in
    let e : contains service_error (map (λ s. status_of s now r) (keys r.latest)) ≡ false =
      rw (← same) (ground arith) in
    let w : contains service_warning (map (λ s. status_of s now r) (keys r.latest)) ≡ false =
      rw (← same) (ground arith) in
    one_ok now r.stale_after hb (rw found at (all_ok now r service r.latest hb e w found))
