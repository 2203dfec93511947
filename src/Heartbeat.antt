-- ===== src/Heartbeat.antt =====
-- Heartbeats of the services (services/supervisor/heartbeat.py). Instants and durations are numbers of
-- microseconds; the figures of a heartbeat that nothing reads are left out.
pub mod Laws
use autonomous_quant_tra.Base.{
  ℕ, ◌+◌, String, Bool, true, false, Option, none, some, List, [], ◌∷◌, map, contains, ltb, Eq, eqb,
  if◌then◌else◌, string_eq, ◌≡◌, ◌↔◌, arith,
}
use autonomous_quant_tra.Dict.{Dict, lookup, insert, keys}

pub data ServiceStatus : Type 0 where
  service_ok service_warning service_error : ServiceStatus

abbrev status_index : ServiceStatus → ℕ
status_index service_ok = 0
status_index service_warning = 1
status_index service_error = 2

pub status_iff : (a b : ServiceStatus) → (eqb (status_index a) (status_index b) ≡ true) ↔ (a ≡ b)
status_iff a b = ground arith

instance abbrev pub status_eq : Eq ServiceStatus
status_eq = record { beq = λ a b. eqb (status_index a) (status_index b); beq_iff = status_iff }

pub record Heartbeat : Type 0 where
  pub service : String
  pub at : ℕ
  pub status : ServiceStatus

pub record HeartbeatRegistry : Type 0 where
  pub stale_after : ℕ
  pub latest : Dict String Heartbeat

unfoldable pub report : Heartbeat → HeartbeatRegistry → HeartbeatRegistry
report hb r = record r { latest = insert hb.service hb r.latest }

abbrev pub status_at : ℕ → ℕ → Option Heartbeat → ServiceStatus
status_at now stale_after none = service_error
status_at now stale_after (some hb) =
    if ltb (hb.at + stale_after) now then service_error else hb.status

unfoldable pub status_of : String → ℕ → HeartbeatRegistry → ServiceStatus
status_of service now r = status_at now r.stale_after (lookup service r.latest)

-- `statuses or [ServiceStatus.ERROR]`
abbrev pub or_error : List ServiceStatus → List ServiceStatus
or_error [] = service_error ∷ []
or_error (s ∷ ss) = s ∷ ss

unfoldable pub overall : ℕ → HeartbeatRegistry → ServiceStatus
overall now r =
    let statuses = or_error (map (λ s. status_of s now r) (keys r.latest)) in
    if contains service_error statuses
    then service_error
    else if contains service_warning statuses
    then service_warning
    else service_ok
