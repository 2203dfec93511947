-- ===== src/Cells/Netting/Order.antt =====
-- Netting does not depend on the order in which the intents are given.
use mathlib.Core.List.{Permᴰ}
use autonomous_quant_tra.Base.{
  ◌≡◌, refl, inl, inr, String, false, Option, some, none, List, [], ◌∷◌, arith, ◌==◌, string_eq,
  keep, All, text_lt, text-IsStrictOrder, Bool-cases,
}
use autonomous_quant_tra.Base.Permuted.{Apart, AllApart, All-keep, keep_permuted, sorted_permuted}
use autonomous_quant_tra.Int.{pos}
use autonomous_quant_tra.Exec.{Result, ok, err}
use autonomous_quant_tra.Float.{Float, sum, abs, ◌<?◌, ◌⊖◌}
use autonomous_quant_tra.Schema.{Action, buy, sell, action_eq}
use autonomous_quant_tra.Cells.{CellError, CellOrderIntent, by_intent_id}
use autonomous_quant_tra.Cells.Netting.{
  SymbolNetResult, Matched, NettingEngine, one_side, net_symbol, netted, net_result, checked_net,
  quantities,
}

module _ {F : Type 0} where
  -- No two intents share an id.
  abbrev pub Unique : List (CellOrderIntent F) → Type 0
  Unique [] = Unit
  Unique (i ∷ intents) =
      All (λ (j : CellOrderIntent F). (i.intent_id == j.intent_id) ≡ false) intents × Unique intents

  different-Apart :
      (i j : CellOrderIntent F) → (i.intent_id == j.intent_id) ≡ false → Apart by_intent_id i j
  different-Apart i j h = elim (Bool-cases (text_lt i.intent_id j.intent_id)) [
    | inl before ↦ inl before
    | inr not_before ↦ elim (Bool-cases (text_lt j.intent_id i.intent_id)) [
      | inl after ↦ inr after
      | inr not_after ↦
          let same = text-IsStrictOrder.total i.intent_id j.intent_id not_before not_after in
          absurd (ground (arith, string_eq.beq_iff i.intent_id j.intent_id))
    ]
  ]

  All-Apart :
      (i : CellOrderIntent F) (intents : List (CellOrderIntent F))
      → All (λ (j : CellOrderIntent F). (i.intent_id == j.intent_id) ≡ false) intents
      → All (Apart by_intent_id i) intents
  All-Apart i [] h = tt
  All-Apart i (j ∷ intents) h = (different-Apart i j h.0, All-Apart i intents h.1)

  Unique-AllApart :
      (intents : List (CellOrderIntent F)) → Unique intents → AllApart by_intent_id intents
  Unique-AllApart [] h = tt
  Unique-AllApart (i ∷ intents) h = (All-Apart i intents h.0, Unique-AllApart intents h.1)

  Unique-keep :
      (side : Action) (intents : List (CellOrderIntent F))
      → Unique intents
      → Unique (keep (λ i. i.side == side) intents)
  Unique-keep side [] h = tt
  Unique-keep side (i ∷ intents) h = elim (Bool-cases (i.side == side)) [
    | inl kept ↦ rw kept (
      All-keep (λ (j : CellOrderIntent F). (i.intent_id == j.intent_id) ≡ false)
          (λ j. j.side == side) intents h.0,
      Unique-keep side intents h.1,
    )
    | inr dropped ↦ rw dropped (Unique-keep side intents h.1)
  ]

module _ {F : Type 0} ⦃fl : Float F⦄ where
  one_side_permuted :
      (side : Action) {xs ys : List (CellOrderIntent F)}
      → Permᴰ xs ys
      → Unique xs
      → one_side side xs ≡ one_side side ys
  unfolding one_side
  one_side_permuted side {xs} d u =
      sorted_permuted by_intent_id (λ i j. text-IsStrictOrder.asym i.intent_id j.intent_id)
        (λ i j k. text-IsStrictOrder.trans i.intent_id j.intent_id k.intent_id)
        (keep_permuted (λ (i : CellOrderIntent F). i.side == side) d)
        (Unique-AllApart (keep (λ (i : CellOrderIntent F). i.side == side) xs)
          (Unique-keep side xs u))

  -- The result without the list of the intents that it was given.
  abbrev pub plan_of : Result CellError (SymbolNetResult F) → Result CellError (SymbolNetResult F)
  plan_of (ok r) = ok (record r { contributing_intents = [] })
  plan_of (err e) = err e

  checked_net_forgets :
      (r : SymbolNetResult F) (xs ys : List (CellOrderIntent F))
      → plan_of (checked_net (record r { contributing_intents = xs }))
        ≡ plan_of (checked_net (record r { contributing_intents = ys }))
  unfolding checked_net
  checked_net_forgets r xs ys =
      elim (Bool-cases
        (fl.decimal (pos 1) 6 <? abs (sum (quantities r.residual_intents) ⊖ r.net_broker_qty))) [
          | inl apart ↦ rw apart refl
          | inr close ↦ rw close refl
        ]

  module _ (engine : NettingEngine F) (symbol : String) where
    netted_forgets :
        (xs ys : List (CellOrderIntent F)) (gross_buy gross_sell : F) (m : Option (Matched F))
        → plan_of (netted symbol xs gross_buy gross_sell m)
          ≡ plan_of (netted symbol ys gross_buy gross_sell m)
    netted_forgets xs ys gross_buy gross_sell none = refl
    netted_forgets xs ys gross_buy gross_sell (some m) =
        checked_net_forgets (net_result symbol xs gross_buy gross_sell m) xs ys

    -- The netting of a symbol is deterministic: the same intents in another order, of which no two share an id,
    -- give the same orders, crosses, residual intents and totals, or the same error. Only the list of the
    -- contributing intents is in the order in which they came.
    pub net_symbol_permuted :
        {xs ys : List (CellOrderIntent F)}
        → Permᴰ xs ys
        → Unique xs
        → plan_of (net_symbol engine symbol xs) ≡ plan_of (net_symbol engine symbol ys)
    unfolding net_symbol
    net_symbol_permuted {xs} {ys} d u =
        rw (one_side_permuted buy d u, one_side_permuted sell d u) (netted_forgets xs ys _ _ _)
