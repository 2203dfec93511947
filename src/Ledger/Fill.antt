-- ===== src/Ledger/Fill.antt =====
-- A fill is booked whole or not at all.
use autonomous_quant_tra.Base.{
  ℕ, ◌≡◌, ◌⊎◌, true, refl, inl, inr, String, false, [], ◌∷◌, ◌++◌, arith, if◌then◌else◌, string_eq,
  Bool-cases,
}
use autonomous_quant_tra.Dict.{lookup}
use autonomous_quant_tra.Exec.{Result, ok, err, Result-cases}
use autonomous_quant_tra.Float.{
  Float, IsFloat, ◌⊕◌, ◌⊖◌, ◌⊗◌, minus, ◌≼◌, ◌<?◌, truthy, nought, tiny, minus_tiny,
}
use autonomous_quant_tra.Float.Order.{sub_le, not_lt_of_le, le_of_not_lt}
use autonomous_quant_tra.Ledger.{
  Ledger, LedgerEntry, LedgerError, negative_cash, Planned, plan, plan_sell, position_qty, fee_of,
  append_entry, record_fill, trade_entry, fee_entry, store_lot,
}

module _ {F : Type 0} ⦃fl : Float F⦄ where
  -- The ledger with one more entry booked.
  abbrev pub booked : LedgerEntry F → Ledger F → Ledger F
  booked en l = record l {
    entries = l.entries ++ en ∷ [];
    cash = l.cash ⊕ en.amount;
    fees_paid = l.fees_paid ⊕ fee_of en;
    realized_pnl = l.realized_pnl ⊕ en.realized_pnl;
  }

  abbrev pub with_lot : String → Planned F → Ledger F → Ledger F
  with_lot symbol planned l = record l { positions = store_lot symbol planned.0 l.positions }

  append_entry-booked :
      (en : LedgerEntry F) (l : Ledger F)
      → minus_tiny ≼ l.cash ⊕ en.amount
      → append_entry en l ≡ (ok tt, booked en l)
  unfolding append_entry
  append_entry-booked en l h = rw (not_lt_of_le (l.cash ⊕ en.amount) minus_tiny h)

  abbrev pub trade_amount : F → F → F
  trade_amount side_qty price = minus side_qty ⊗ price

  module _ (symbol : String) (side_qty price fees : F) (at : ℕ) (note : String) (l : Ledger F) where
    abbrev pub traded : Planned F → Ledger F
    traded planned =
        booked (trade_entry at symbol side_qty price (trade_amount side_qty price) planned.1 note)
          (with_lot symbol planned l)

    abbrev pub filled : Planned F → Ledger F
    filled planned =
        if truthy fees
        then booked (fee_entry at symbol fees note) (traded planned)
        else traded planned

    pub data Outcome : Result LedgerError (Unit {0}) × Ledger F → Type 0 where
      refused : (e : LedgerError) → Outcome (err e, l)
      done :
          (planned : Planned F)
          → plan symbol side_qty price (lookup symbol l.positions) ≡ ok planned
          → minus_tiny ≼ l.cash ⊕ trade_amount side_qty price ⊖ fees
          → Outcome (ok tt, filled planned)

    module _ (laws : IsFloat F) (fees_nonneg : nought ≼ fees) where
      pub trade_covered :
          minus_tiny ≼ l.cash ⊕ trade_amount side_qty price ⊖ fees
          → minus_tiny ≼ l.cash ⊕ trade_amount side_qty price
      trade_covered h =
          let left = sub_le laws (l.cash ⊕ trade_amount side_qty price) fees fees_nonneg in
          omega arith

      pub fee_covered :
          minus_tiny ≼ l.cash ⊕ trade_amount side_qty price ⊖ fees
          → minus_tiny ≼ l.cash ⊕ trade_amount side_qty price ⊕ minus fees
      fee_covered h = rw (laws.sub-eq-add_minus (l.cash ⊕ trade_amount side_qty price) fees) at h

      pub record_fill-filled :
          (planned : Planned F)
          → plan symbol side_qty price (lookup symbol l.positions) ≡ ok planned
          → minus_tiny ≼ l.cash ⊕ trade_amount side_qty price ⊖ fees
          → record_fill symbol side_qty price fees at note l ≡ (ok tt, filled planned)
      unfolding record_fill
      record_fill-filled planned good h = ground (arith, trade_covered h, fee_covered h)

      pub record_fill-Outcome : Outcome (record_fill symbol side_qty price fees at note l)
      unfolding record_fill
      record_fill-Outcome =
          elim (Result-cases (plan symbol side_qty price (lookup symbol l.positions))) [
            | inr (e, bad) ↦ rw bad (refused e)
            | inl (planned, good) ↦
                elim (Bool-cases (l.cash ⊕ trade_amount side_qty price ⊖ fees <? minus_tiny)) [
                  | inl short ↦ rw (good, short) (refused negative_cash)
                  | inr covered ↦
                      let h =
                        le_of_not_lt (l.cash ⊕ trade_amount side_qty price ⊖ fees) minus_tiny
                          covered in
                      rw (record_fill-filled planned good h) (done planned good h)
                ]
          ]

  -- A sale that is planned is covered by the lot.
  plan-covered :
      (symbol : String) (side_qty price : F) (l : Ledger F) {planned : Planned F}
      → plan symbol side_qty price (lookup symbol l.positions) ≡ ok planned
      → (nought <? side_qty) ≡ false
      → minus side_qty ≼ position_qty symbol l ⊕ tiny
  unfolding plan plan_sell position_qty
  plan-covered symbol side_qty price l good sale = ground arith

  module _ (symbol : String) (side_qty price fees : F) (at : ℕ) (note : String) (l : Ledger F)
      (laws : IsFloat F) (fees_nonneg : nought ≼ fees) where
    -- What the caller is told: an exception has changed nothing, and a fill that is booked was paid for
    -- and, if it is a sale, sold no more than was held.
    abbrev pub Guarded : Result LedgerError (Unit {0}) × Ledger F → Type 0
    Guarded (err e, l') = l' ≡ l
    Guarded (ok u, l') =
        (minus_tiny ≼ l.cash ⊕ trade_amount side_qty price ⊖ fees)
        × (((nought <? side_qty) ≡ true) ⊎ (minus side_qty ≼ position_qty symbol l ⊕ tiny))

    Outcome-Guarded :
        {out : Result LedgerError (Unit {0}) × Ledger F}
        → Outcome symbol side_qty price fees at note l out
        → Guarded out
    Outcome-Guarded (refused e) = refl
    Outcome-Guarded (done planned good h) = (
      h,
      elim (Bool-cases (nought <? side_qty)) [
        | inl purchase ↦ inl purchase
        | inr sale ↦ inr (plan-covered symbol side_qty price l good sale)
      ],
    )

    -- With a fee that is not negative, `record_fill` is all or nothing: if it raises, the ledger is as it
    -- was; if it returns, the cash covered trade and fee up to 1e-9, and a sale was of at most the
    -- quantity held plus 1e-9.
    pub record_fill-Guarded : Guarded (record_fill symbol side_qty price fees at note l)
    record_fill-Guarded =
        Outcome-Guarded (record_fill-Outcome symbol side_qty price fees at note l laws fees_nonneg)
