-- ===== src/Ledger/Moves.antt =====
-- What a booked fill does to cash and to the positions.
use autonomous_quant_tra.Base.{
  ℕ, ◌≡◌, refl, sym, ap, ◌∙◌, inl, inr, String, Option, none, some, arith, if◌then◌else◌, string_eq,
  ◌==◌, Bool-cases,
}
use autonomous_quant_tra.Dict.{Dict, lookup}
use autonomous_quant_tra.Dict.Laws.{IsDict, lookup-insert, lookup-erase}
use autonomous_quant_tra.Exec.{Result, ok, err}
use autonomous_quant_tra.Float.{
  Float, IsFloat, ◌⊕◌, ◌⊖◌, ◌⊗◌, minus, ◌≼◌, ◌<?◌, ◌≤?◌, truthy, nought, tiny,
}
use autonomous_quant_tra.Ledger.{
  Ledger, PositionLot, LedgerError, Planned, plan, plan_buy, plan_sell, record_fill, store_lot,
  position_qty,
}
use autonomous_quant_tra.Ledger.Fill.{filled, Outcome, refused, done, record_fill-Outcome}

module _ {F : Type 0} ⦃fl : Float F⦄ where
  -- The quantity that a trade leaves of a holding: what is sold down to 1e-9 or less is gone.
  abbrev pub expected_qty : F → F → F
  expected_qty held side_qty =
      if nought <? side_qty
      then held ⊕ side_qty
      else if held ⊖ minus side_qty ≤? tiny
      then nought
      else held ⊖ minus side_qty

  abbrev pub held_qty : Option (PositionLot F) → F
  held_qty none = nought
  held_qty (some lot) = lot.qty

  plan_buy-qty :
      (symbol : String) (side_qty price : F) (lot : Option (PositionLot F)) {planned : Planned F}
      → plan_buy symbol side_qty price lot ≡ ok planned
      → held_qty planned.0 ≡ held_qty lot ⊕ side_qty
  unfolding plan_buy
  plan_buy-qty symbol side_qty price none e = ground arith
  plan_buy-qty symbol side_qty price (some lot) e = ground arith

  plan_sell-qty :
      (symbol : String) (sell_qty price : F) (lot : Option (PositionLot F)) {planned : Planned F}
      → plan_sell symbol sell_qty price lot ≡ ok planned
      → held_qty planned.0
        ≡ (if held_qty lot ⊖ sell_qty ≤? tiny then nought else held_qty lot ⊖ sell_qty)
  unfolding plan_sell
  plan_sell-qty symbol sell_qty price none e = cc
  plan_sell-qty symbol sell_qty price (some lot) e = ground arith

  plan-qty :
      (symbol : String) (side_qty price : F) (lot : Option (PositionLot F)) {planned : Planned F}
      → plan symbol side_qty price lot ≡ ok planned
      → held_qty planned.0 ≡ expected_qty (held_qty lot) side_qty
  unfolding plan
  plan-qty symbol side_qty price lot e = elim (Bool-cases (nought <? side_qty)) [
    | inl b ↦ rw b (plan_buy-qty symbol side_qty price lot (rw b at e))
    | inr b ↦ rw b (plan_sell-qty symbol (minus side_qty) price lot (rw b at e))
  ]

  lookup-store_lot :
      (j symbol : String) (lot : Option (PositionLot F)) (d : Dict String (PositionLot F))
      → IsDict d
      → lookup j (store_lot symbol lot d) ≡ (if j == symbol then lot else lookup j d)
  lookup-store_lot j symbol none d u = lookup-erase j symbol d u
  lookup-store_lot j symbol (some lot) d u = lookup-insert j symbol lot d

  position_qty-held :
      (j : String) (l : Ledger F) → position_qty j l ≡ held_qty (lookup j l.positions)
  unfolding position_qty
  position_qty-held j l = ground arith

  module _ (symbol : String) (side_qty price fees : F) (at : ℕ) (note : String) (l : Ledger F) where
    -- What a call that returns has booked.
    abbrev Booked : Result LedgerError (Unit {0}) × Ledger F → Type 0
    Booked (ok u, l') =
        (planned : Planned F) × (plan symbol side_qty price (lookup symbol l.positions)
          ≡ ok planned)
        × (l' ≡ filled symbol side_qty price fees at note l planned)
    Booked (err e, l') = Unit

    Outcome-Booked :
        {out : Result LedgerError (Unit {0}) × Ledger F}
        → Outcome symbol side_qty price fees at note l out
        → Booked out
    Outcome-Booked (refused e) = tt
    Outcome-Booked (done planned good h) = (planned, good, refl)

    positions-filled :
        (planned : Planned F)
        → (filled symbol side_qty price fees at note l planned).positions
          ≡ store_lot symbol planned.0 l.positions
    positions-filled planned = ground arith

    cash-filled :
        (planned : Planned F)
        → (filled symbol side_qty price fees at note l planned).cash ≡ (
            let paid = l.cash ⊕ minus side_qty ⊗ price in
            if truthy fees then paid ⊕ minus fees else paid)
    cash-filled planned = ground arith

    -- A booked fill with a fee that is not negative moves the position of its symbol by its quantity,
    -- a rest of at most 1e-9 being dropped, and no other position; and cash pays the trade and then,
    -- unless it is 0, the fee.
    pub record_fill_moves :
        (j : String) {l' : Ledger F}
        → IsFloat F
        → nought ≼ fees
        → IsDict l.positions
        → record_fill symbol side_qty price fees at note l ≡ (ok tt, l')
        → (position_qty j l' ≡ (
            if j == symbol
            then expected_qty (position_qty symbol l) side_qty
            else position_qty j l))
          × (l'.cash ≡ (
              let paid = l.cash ⊕ minus side_qty ⊗ price in
              if truthy fees then paid ⊕ minus fees else paid))
    record_fill_moves j laws pay keyed success =
        let (planned, good, same) =
          rw success at
            (Outcome-Booked (record_fill-Outcome symbol side_qty price fees at note l laws pay)) in
        let qty = plan-qty symbol side_qty price (lookup symbol l.positions) good in
        let looked : lookup j (filled symbol side_qty price fees at note l planned).positions
            ≡ (if j == symbol then planned.0 else lookup j l.positions) =
          ap (lookup j) (positions-filled planned)
          ∙ lookup-store_lot j symbol planned.0 l.positions keyed in
        (
          rw (same, position_qty-held j, looked, position_qty-held symbol l)
              (elim (Bool-cases (j == symbol)) [
                | inl hit ↦ rw hit qty
                | inr miss ↦ rw miss (sym (position_qty-held j l))
              ]),
          ap (λ m. m.cash) same ∙ cash-filled planned,
        )
