-- ===== src/Paper/Covered.antt =====
-- What the execution of an order buys or sells.
use autonomous_quant_tra.Base.{
  ◌≡◌, ◌⊎◌, ◌++◌, refl, inl, inr, String, Option, none, some, [], ◌∷◌, Bool-cases, string_eq,
}
use autonomous_quant_tra.Int.{pos}
use autonomous_quant_tra.Dict.{lookup}
use autonomous_quant_tra.Exec.{Result, ok, err}
use autonomous_quant_tra.Float.{Float, ◌≼◌, ◌⊖◌, ◌⊘◌, ◌≤?◌, ◌<?◌, ◌⊕◌, ◌⊗◌, tiny}
use autonomous_quant_tra.Float.Order.{le_of_not_lt}
use autonomous_quant_tra.Schema.{Action, buy, sell}
use autonomous_quant_tra.Broker.{BrokerFill, BrokerError}
use autonomous_quant_tra.Reconciliation.{BrokerPosition}
use autonomous_quant_tra.Paper.{
  PaperOrder, PaperBroker, Market, execute, fill_at, fill_maybe, fill_buy, sell_from, book,
  fill_side, try_fill, ten_thousand,
}

module _ {F : Type 0} ⦃fl : Float F⦄ where
  -- A purchase is paid for, its fees included, with settled cash; a sale is of what is held; up to the tolerance.
  abbrev pub IsBacked : Market F → Action → String → PaperBroker F → BrokerFill F → Type 0
  IsBacked m buy symbol b f =
      (px : F) × (f.price ≡ fl.round px 6)
      × (f.qty ⊗ px ⊕ f.qty ⊗ px ⊗ m.fee_bps ⊘ fl.decimal (pos 10_000) 0 ≼ b.settled_cash ⊕ tiny)
  IsBacked m sell symbol b f =
      (p : BrokerPosition F) × (lookup symbol b.positions ≡ some p) × (f.qty ≼ p.qty ⊕ tiny)

  -- One fill was added, of the order's symbol and side, and backed.
  abbrev pub IsFilled : Market F → Action → PaperOrder F → PaperBroker F → PaperBroker F → Type 0
  IsFilled m side po b after =
      (f : BrokerFill F) × (after.all_fills ≡ b.all_fills ++ f ∷ [])
      × (f.symbol ≡ po.request.symbol)
      × (f.side ≡ po.request.side)
      × IsBacked m side po.request.symbol b f

  -- Nothing was bought or sold.
  abbrev pub IsUntraded : PaperBroker F → PaperBroker F → Type 0
  IsUntraded b after =
      (after.all_fills ≡ b.all_fills)
      × (after.positions ≡ b.positions)
      × (after.settled_cash ≡ b.settled_cash)
      × (after.unsettled_cash ≡ b.unsettled_cash)

  abbrev pub IsCovered : Market F → Action → PaperOrder F → PaperBroker F → PaperBroker F → Type 0
  IsCovered m side po b after = IsUntraded b after ⊎ IsFilled m side po b after

  module _ (m : Market F) (cid : String) (po : PaperOrder F) where
    fill_buy-IsCovered :
        (qty px : F) (b : PaperBroker F) → IsCovered m buy po b (fill_buy m cid po qty px b)
    unfolding fill_buy book
    fill_buy-IsCovered qty px b =
        elim (Bool-cases
          (b.settled_cash ⊕ tiny <? qty ⊗ px ⊕ qty ⊗ px ⊗ m.fee_bps ⊘ ten_thousand m)) [
            | inl short ↦ rw short (inl (refl, refl, refl, refl))
            | inr covered ↦
                let enough =
                  le_of_not_lt (b.settled_cash ⊕ tiny)
                    (qty ⊗ px ⊕ qty ⊗ px ⊗ m.fee_bps ⊘ ten_thousand m) covered in
                rw covered (inr (_, refl, refl, refl, (px, refl, enough)))
          ]

    sell_from-IsCovered :
        (qty px : F) (held : Option (BrokerPosition F)) (b : PaperBroker F)
        → lookup po.request.symbol b.positions ≡ held
        → IsCovered m sell po b (sell_from m cid po qty px held b)
    unfolding sell_from book
    sell_from-IsCovered qty px none b there = inl (refl, refl, refl, refl)
    sell_from-IsCovered qty px (some p) b there = elim (Bool-cases (p.qty ⊕ tiny <? qty)) [
      | inl short ↦ rw short (inl (refl, refl, refl, refl))
      | inr covered ↦
          let enough = le_of_not_lt (p.qty ⊕ tiny) qty covered in
          rw covered (inr (_, refl, refl, refl, (p, there, enough)))
    ]

    fill_side-IsCovered :
        (side : Action) (qty px : F) (b : PaperBroker F)
        → IsCovered m side po b (fill_side m side cid po qty px b)
    fill_side-IsCovered buy qty px b = fill_buy-IsCovered qty px b
    fill_side-IsCovered sell qty px b =
        sell_from-IsCovered qty px (lookup po.request.symbol b.positions) b refl

    fill_maybe-IsCovered :
        (px : Option F) (b : PaperBroker F)
        → IsCovered m po.request.side po b (fill_maybe m cid po px b)
    unfolding fill_at
    fill_maybe-IsCovered none b = inl (refl, refl, refl, refl)
    fill_maybe-IsCovered (some px) b = elim (Bool-cases (po.request.qty ⊖ po.filled_qty ≤? tiny)) [
      | inl done ↦ rw done (inl (refl, refl, refl, refl))
      | inr due ↦ rw due (fill_side-IsCovered po.request.side _ px b)
    ]

    try_fill-IsCovered :
        (px : Result BrokerError (Option F)) (b : PaperBroker F)
        → IsCovered m po.request.side po b (try_fill m cid po px b).1
    try_fill-IsCovered (err x) b = inl (refl, refl, refl, refl)
    try_fill-IsCovered (ok px) b = fill_maybe-IsCovered px b

    pub execute-IsCovered :
        (b : PaperBroker F) → IsCovered m po.request.side po b (execute m cid po b).1
    unfolding execute
    execute-IsCovered b = try_fill-IsCovered _ b
