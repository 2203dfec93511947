-- ===== src/Settlement.antt =====
-- The settlement manager (packages/common/settlement.py): sale proceeds are spendable a day later.
pub mod Laws
use autonomous_quant_tra.Base.{
  ℕ, ◌+◌, ◌*◌, String, Bool, true, false, ◌&&◌, List, [], ◌∷◌, ◌++◌, map, leb, if◌then◌else◌,
}
use autonomous_quant_tra.Exec.{Exec, raise_if, modify, ◌>>◌}
use autonomous_quant_tra.Float.{Float, ◌⊕◌, ◌⊖◌, ◌<?◌, ◌≤?◌, nought, tiny, max, abs, sum}

-- SETTLEMENT_LAG, in microseconds.
abbrev pub settlement_lag : ℕ
settlement_lag = 24 * 60 * 60 * 1_000_000

pub record PendingSettlement (F : Type 0) : Type 0 where
  pub amount : F
  pub settles_at : ℕ

pub record SettlementManager (F : Type 0) : Type 0 where
  pub settled_cash : F
  pub pending : List (PendingSettlement F)

-- `BrokerCashBalance`, in packages/schemas/core.py.
pub record BrokerCashBalance (F : Type 0) : Type 0 where
  pub settled_cash : F
  pub unsettled_cash : F

pub data SettlementError : Type 0 where
  exceeds_settled : SettlementError

module _ {F : Type 0} ⦃fl : Float F⦄ where
  unfoldable pub on_buy : F → Exec SettlementError (SettlementManager F) Unit
  on_buy cost m =
      (raise_if (m.settled_cash ⊕ tiny <? cost) exceeds_settled
          >> modify (λ s. record s { settled_cash = s.settled_cash ⊖ cost }))
        m

  unfoldable pub on_sell : F → ℕ → SettlementManager F → SettlementManager F
  on_sell proceeds at m = record m {
    pending = m.pending ++ record { amount = proceeds; settles_at = at + settlement_lag } ∷ [];
  }

  -- The loop of `process_settlements`: what settles, and what is kept.
  unfoldable pub settle_loop :
      ℕ
      → List (PendingSettlement F)
      → F
      → List (PendingSettlement F)
      → F × List (PendingSettlement F)
  settle_loop now [] settled kept = (settled, kept)
  settle_loop now (p ∷ ps) settled kept =
      let due = leb p.settles_at now in
      settle_loop now ps (if due then settled ⊕ p.amount else settled)
        (if due then kept else kept ++ p ∷ [])

  unfoldable pub process_settlements : ℕ → SettlementManager F → F × SettlementManager F
  process_settlements now m =
      let (settled, kept) = settle_loop now m.pending nought [] in
      (settled, record m { settled_cash = m.settled_cash ⊕ settled; pending = kept })

  unfoldable pub unsettled_cash : SettlementManager F → F
  unsettled_cash m = sum (map (λ p. p.amount) m.pending)

  unfoldable pub buying_power : SettlementManager F → F
  buying_power m = m.settled_cash

  unfoldable pub balance : SettlementManager F → BrokerCashBalance F
  unfolding unsettled_cash
  balance m = record { settled_cash = max nought m.settled_cash; unsettled_cash = unsettled_cash m }

  unfoldable pub reconcile_against_broker : BrokerCashBalance F → F → SettlementManager F → Bool
  unfolding unsettled_cash
  reconcile_against_broker broker tolerance m =
      (abs (broker.settled_cash ⊖ m.settled_cash) ≤? tolerance)
      && (abs (broker.unsettled_cash ⊖ unsettled_cash m) ≤? tolerance)
