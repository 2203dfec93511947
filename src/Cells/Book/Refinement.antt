-- ===== src/Cells/Book/Refinement.antt =====
-- A cell's ledger against the master's (packages/common/ledger.py).
use autonomous_quant_tra.Base.{
  ℕ, ◌≡◌, ap, refl, inl, inr, String, true, false, Option, none, some, arith, Bool-cases, string_eq,
}
use autonomous_quant_tra.Dict.{lookup}
use autonomous_quant_tra.Exec.{Result, ok, err, Result-cases}
use autonomous_quant_tra.Float.{
  Float, IsFloat, ◌≼◌, nought, ◌⊖◌, ◌<?◌, ◌⊕◌, ◌⊗◌, minus, minus_tiny, truthy,
}
use autonomous_quant_tra.Float.Order.{le_of_not_lt}
use autonomous_quant_tra.Ledger.{
  Ledger, LedgerError, negative_cash, short_selling, PositionLot, Planned, plan, plan_buy,
  plan_sell, record_fill, store_lot,
}
use autonomous_quant_tra.Ledger.Fill.{record_fill-filled, filled}
use autonomous_quant_tra.Cells.{CellError, short_sell, overdraw, zero_division}
use autonomous_quant_tra.Cells.Book.{
  CellEntryKind, CellLedger, new_lot, bought_lot, sold_lot, apply_fill, commit_trade, commit_fees,
}

-- What a cell raises where the master raises; a fill raises none of the last three.
unfoldable pub same_error : LedgerError → CellError
same_error negative_cash = overdraw
same_error short_selling = short_sell
same_error LedgerError.zero_division = zero_division
same_error LedgerError.not_positive = CellError.not_positive
same_error LedgerError.no_approver = CellError.not_positive
same_error LedgerError.no_mark = CellError.not_positive

abbrev pub same_result : {A : Type 0} → Result LedgerError A → Result CellError A
same_result (ok a) = ok a
same_result (err e) = err (same_error e)

module _ {F : Type 0} ⦃fl : Float F⦄ where
  -- The cell's ledger has the numbers of the other.
  pub record Mirrors (l : Ledger F) (c : CellLedger F) : Type 0 where
    pub same_cash : c.cash ≡ l.cash
    pub same_positions : c.positions ≡ l.positions
    pub same_pnl : c.virtual_realized_pnl ≡ l.realized_pnl

  new_lot-plan :
      (symbol : String) (side_qty price : F) (lot : Option (PositionLot F))
      → new_lot symbol side_qty price lot ≡ same_result (plan symbol side_qty price lot)
  unfolding new_lot bought_lot sold_lot plan plan_buy plan_sell same_error
  new_lot-plan symbol side_qty price none = ground arith
  new_lot-plan symbol side_qty price (some lot) = ground arith

  module _ (kind : CellEntryKind) (symbol : String) (side_qty price fees : F) (at : ℕ)
      (note : String) (l : Ledger F) (c : CellLedger F) where
    -- Both calls raise, the one's error for the other's, and change nothing; or both return, and the cell's
    -- ledger still has the numbers of the other.
    pub data Agrees
        : Result LedgerError (Unit {0}) × Ledger F
          → Result CellError (Unit {0}) × CellLedger F
          → Type 0 where
      both_refuse : (e : LedgerError) → Agrees (err e, l) (err (same_error e), c)
      both_book :
          (l' : Ledger F) (c' : CellLedger F) → Mirrors l' c' → Agrees (ok tt, l') (ok tt, c')

    booked-Mirrors :
        (planned : Planned F)
        → IsFloat F
        → Mirrors l c
        → Mirrors (filled symbol side_qty price fees at note l planned) (
            commit_fees kind symbol side_qty price fees at note
              (commit_trade kind symbol side_qty price fees at note planned.0 planned.1 c))
    unfolding commit_fees commit_trade
    booked-Mirrors planned laws m = elim (Bool-cases (truthy fees)) [
      | inr free ↦ rw free (record {
        same_cash = cc;
        same_positions = ap (store_lot symbol planned.0) m.same_positions;
        same_pnl = cc;
      })
      | inl charged ↦ rw charged (record {
        same_cash = rw (laws.sub-eq-add_minus (c.cash ⊕ minus side_qty ⊗ price) fees) (cc);
        same_positions = ap (store_lot symbol planned.0) m.same_positions;
        same_pnl = rw (laws.add_nought (l.realized_pnl ⊕ planned.1)) (cc);
      })
    ]

    record_fill-refused :
        (e : LedgerError)
        → plan symbol side_qty price (lookup symbol l.positions) ≡ err e
        → record_fill symbol side_qty price fees at note l ≡ (err e, l)
    unfolding record_fill
    record_fill-refused e bad = rw bad refl

    record_fill-short :
        (planned : Planned F)
        → plan symbol side_qty price (lookup symbol l.positions) ≡ ok planned
        → (l.cash ⊕ minus side_qty ⊗ price ⊖ fees <? minus_tiny) ≡ true
        → record_fill symbol side_qty price fees at note l ≡ (err negative_cash, l)
    unfolding record_fill
    record_fill-short planned good short = rw (good, short) refl

    planned_alike :
        Mirrors l c
        → {r : Result LedgerError (Planned F)}
        → plan symbol side_qty price (lookup symbol l.positions) ≡ r
        → new_lot symbol side_qty price (lookup symbol c.positions) ≡ same_result r
    planned_alike m h =
        rw (m.same_positions, new_lot-plan symbol side_qty price (lookup symbol l.positions), h)
          refl

    apply_fill-refused :
        Mirrors l c
        → (e : LedgerError) → plan symbol side_qty price (lookup symbol l.positions) ≡ err e
        → apply_fill kind symbol side_qty price fees at note c ≡ (err (same_error e), c)
    unfolding apply_fill
    apply_fill-refused m e bad = rw (planned_alike m bad) refl

    apply_fill-short :
        Mirrors l c
        → (planned : Planned F)
        → plan symbol side_qty price (lookup symbol l.positions) ≡ ok planned
        → (l.cash ⊕ minus side_qty ⊗ price ⊖ fees <? minus_tiny) ≡ true
        → apply_fill kind symbol side_qty price fees at note c ≡ (err overdraw, c)
    unfolding apply_fill
    apply_fill-short m planned good short = rw (planned_alike m good, m.same_cash, short) refl

    apply_fill-booked :
        Mirrors l c
        → (planned : Planned F)
        → plan symbol side_qty price (lookup symbol l.positions) ≡ ok planned
        → (l.cash ⊕ minus side_qty ⊗ price ⊖ fees <? minus_tiny) ≡ false
        → apply_fill kind symbol side_qty price fees at note c ≡ (
          ok tt,
          commit_fees kind symbol side_qty price fees at note
              (commit_trade kind symbol side_qty price fees at note planned.0 planned.1 c),
        )
    unfolding apply_fill
    apply_fill-booked m planned good covered =
        rw (planned_alike m good, m.same_cash) (rw covered refl)

    -- A cell books a fill as the master's ledger does: with the same cash, positions and realized profit and a
    -- fee that is not negative, `_apply_fill` raises exactly when `record_fill` does, and the corresponding
    -- error, with both ledgers left as they were; and when both return, cash, positions and realized profit
    -- are the same again.
    pub apply_fill-Agrees :
        IsFloat F
        → nought ≼ fees
        → Mirrors l c
        → Agrees
            (record_fill symbol side_qty price fees at note l)
            (apply_fill kind symbol side_qty price fees at note c)
    unfolding same_error
    apply_fill-Agrees laws fees_nonneg m =
        elim (Result-cases (plan symbol side_qty price (lookup symbol l.positions))) [
          | inr (e, bad) ↦
              rw (record_fill-refused e bad, apply_fill-refused m e bad) (both_refuse e)
          | inl (planned, good) ↦
              elim (Bool-cases (l.cash ⊕ minus side_qty ⊗ price ⊖ fees <? minus_tiny)) [
                | inl short ↦
                    rw (record_fill-short planned good short, apply_fill-short m planned good short)
                      (both_refuse negative_cash)
                | inr covered ↦
                    let h =
                      le_of_not_lt (l.cash ⊕ minus side_qty ⊗ price ⊖ fees) minus_tiny covered in
                    rw
                      (
                        record_fill-filled symbol side_qty price fees at note l laws fees_nonneg
                            planned good h,
                        apply_fill-booked m planned good covered,
                      )
                      (both_book _ _ (booked-Mirrors planned laws m))
              ]
        ]
