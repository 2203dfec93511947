-- ===== src/Ledger/Invariant.antt =====
-- What holds of the ledger after any sequence of calls: no negative cash, no short position, and every
-- total the sum of the entry log.
use autonomous_quant_tra.Base.{
  ℕ, ◌≡◌, refl, inl, inr, String, true, Option, none, some, List, [], ◌∷◌, ◌++◌, foldl, arith,
  string_eq, Bool-cases, Option-cases, ap, ◌∙◌, sym,
}
use autonomous_quant_tra.Dict.{Dict, lookup}
use autonomous_quant_tra.Dict.Laws.{
  IsDict, AllValues, insert-IsDict, erase-IsDict, insert-AllValues, erase-AllValues,
  lookup-AllValues,
}
use autonomous_quant_tra.Exec.{Result, ok, err}
use autonomous_quant_tra.Float.{
  Float, IsFloat, ◌⊕◌, minus, ◌≼◌, ◌<?◌, truthy, nought, tiny, minus_tiny,
}
use autonomous_quant_tra.Float.Order.{le-add_left}
use autonomous_quant_tra.Ledger.{
  Ledger, LedgerEntry, PositionLot, LedgerError, Planned, plan, plan_buy, plan_sell, fee_of,
  store_lot, trade_entry, fee_entry,
}
use autonomous_quant_tra.Ledger.Fill.{
  booked, with_lot, trade_amount, Outcome, refused, done, trade_covered, fee_covered,
}

module _ {F : Type 0} ⦃fl : Float F⦄ where
  -- The totals, read from the log.
  abbrev pub total : (LedgerEntry F → F) → List (LedgerEntry F) → F
  total f = foldl (λ acc en. acc ⊕ f en) nought

  abbrev pub IsLong : PositionLot F → Type 0
  IsLong lot = (nought <? lot.qty) ≡ true

  pub record IsSound (l : Ledger F) : Type 0 where
    pub solvent : minus_tiny ≼ l.cash
    pub long : AllValues IsLong l.positions
    pub keyed : IsDict l.positions
    pub cash_sourced : l.cash ≡ total (λ en. en.amount) l.entries
    pub fees_sourced : l.fees_paid ≡ total fee_of l.entries
    pub pnl_sourced : l.realized_pnl ≡ total (λ en. en.realized_pnl) l.entries

  pub total-append :
      (f : LedgerEntry F → F) (acc : F) (xs : List (LedgerEntry F)) (en : LedgerEntry F)
      → foldl (λ a x. a ⊕ f x) acc (xs ++ en ∷ []) ≡ foldl (λ a x. a ⊕ f x) acc xs ⊕ f en
  total-append f acc [] en = refl
  total-append f acc (x ∷ xs) en = total-append f (acc ⊕ f x) xs en

  pub booked-IsSound :
      (en : LedgerEntry F) (l : Ledger F)
      → minus_tiny ≼ l.cash ⊕ en.amount
      → IsSound l
      → IsSound (booked en l)
  booked-IsSound en l h s = record {
    solvent = h;
    long = s.long;
    keyed = s.keyed;
    cash_sourced =
        ap (λ c. c ⊕ en.amount) s.cash_sourced
        ∙ sym (total-append (λ x. x.amount) nought l.entries en);
    fees_sourced =
        ap (λ c. c ⊕ fee_of en) s.fees_sourced ∙ sym (total-append fee_of nought l.entries en);
    pnl_sourced =
        ap (λ c. c ⊕ en.realized_pnl) s.pnl_sourced
        ∙ sym (total-append (λ x. x.realized_pnl) nought l.entries en);
  }

  abbrev pub IsLong? : Option (PositionLot F) → Type 0
  IsLong? none = Unit
  IsLong? (some lot) = IsLong lot

  store_lot-IsLong :
      (symbol : String) (lot : Option (PositionLot F)) (d : Dict String (PositionLot F))
      → IsLong? lot
      → AllValues IsLong d
      → AllValues IsLong (store_lot symbol lot d)
  store_lot-IsLong symbol none d p h = erase-AllValues IsLong symbol d h
  store_lot-IsLong symbol (some lot) d p h = insert-AllValues IsLong symbol lot d p h

  store_lot-IsDict :
      (symbol : String) (lot : Option (PositionLot F)) (d : Dict String (PositionLot F))
      → IsDict d
      → IsDict (store_lot symbol lot d)
  store_lot-IsDict symbol none d h = erase-IsDict symbol d h
  store_lot-IsDict symbol (some lot) d h = insert-IsDict symbol lot d h

  with_lot-IsSound :
      (symbol : String) (planned : Planned F) (l : Ledger F)
      → IsLong? planned.0
      → IsSound l
      → IsSound (with_lot symbol planned l)
  with_lot-IsSound symbol planned l p s = record {
    solvent = s.solvent;
    long = store_lot-IsLong symbol planned.0 l.positions p s.long;
    keyed = store_lot-IsDict symbol planned.0 l.positions s.keyed;
    cash_sourced = s.cash_sourced;
    fees_sourced = s.fees_sourced;
    pnl_sourced = s.pnl_sourced;
  }

  abbrev PlansLong : Result LedgerError (Planned F) → Type 0
  PlansLong (ok planned) = IsLong? planned.0
  PlansLong (err e) = Unit

  plan_sell-long :
      (symbol : String) (sell_qty price : F) (lot : Option (PositionLot F))
      → nought {F = F} ≼ tiny
      → PlansLong (plan_sell symbol sell_qty price lot)
  unfolding plan_sell
  plan_sell-long symbol sell_qty price none h = tt
  plan_sell-long symbol sell_qty price (some lot) h = ground arith

  module _ (laws : IsFloat F) where
    open laws use {tiny_nonneg, nought_add}

    plan_buy-long :
        (symbol : String) (side_qty price : F) (lot : Option (PositionLot F))
        → (nought <? side_qty) ≡ true
        → IsLong? lot
        → PlansLong (plan_buy symbol side_qty price lot)
    unfolding plan_buy
    plan_buy-long symbol side_qty price none b h = ground (arith, nought_add side_qty)
    plan_buy-long symbol side_qty price (some lot) b h =
        ground (arith, le-add_left laws lot.qty side_qty)

    -- A planned lot is long, if the lot that it replaces is.
    plan-long :
        (symbol : String) (side_qty price : F) (lot : Option (PositionLot F))
        → IsLong? lot
        → PlansLong (plan symbol side_qty price lot)
    unfolding plan
    plan-long symbol side_qty price lot h = elim (Bool-cases (nought <? side_qty)) [
      | inl b ↦ rw b (plan_buy-long symbol side_qty price lot b h)
      | inr b ↦ rw b (plan_sell-long symbol (minus side_qty) price lot tiny_nonneg)
    ]

    lookup-long :
        (symbol : String) (d : Dict String (PositionLot F))
        → AllValues IsLong d
        → IsLong? (lookup symbol d)
    lookup-long symbol d h = elim (Option-cases (lookup symbol d)) [
      | inl missing ↦ rw missing tt
      | inr (lot, found) ↦ rw found (lookup-AllValues IsLong symbol d h found)
    ]

    pub Outcome-IsSound :
        (symbol : String) (side_qty price fees : F) (at : ℕ) (note : String) (l : Ledger F)
        {out : Result LedgerError Unit × Ledger F}
        → IsSound l
        → nought ≼ fees
        → Outcome symbol side_qty price fees at note l out
        → IsSound out.1
    Outcome-IsSound symbol side_qty price fees at note l s pay (refused e) = s
    Outcome-IsSound symbol side_qty price fees at note l s pay (done planned good h) =
        let lot_long =
          plan-long symbol side_qty price (lookup symbol l.positions)
            (lookup-long symbol l.positions s.long) in
        let long : IsLong? planned.0 = rw good at lot_long in
        let leg =
          booked-IsSound
            (trade_entry at symbol side_qty price (trade_amount side_qty price) planned.1 note)
            (with_lot symbol planned l)
            (trade_covered symbol side_qty price fees at note l laws pay h)
            (with_lot-IsSound symbol planned l long s) in
        elim (Bool-cases (truthy fees)) [
          | inl paid ↦ rw paid (
              booked-IsSound (fee_entry at symbol fees note) _
                (fee_covered symbol side_qty price fees at note l laws pay h) leg)
          | inr free ↦ rw free leg
        ]
