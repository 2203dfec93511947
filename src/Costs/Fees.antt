-- ===== src/Costs/Fees.antt =====
-- Fees are recorded and not charged a second time.
use autonomous_quant_tra.Base.{
  ◌≡◌, ◌∙◌, ◌||◌, ◌==◌, arith, refl, inl, inr, true, not, List, [], ◌∷◌, map, foldl, keep,
  keep-append, Bool-cases, All, All-append,
}
use mathlib.Core.List.{append-nil}
use autonomous_quant_tra.Float.{Float, IsFloat, ◌⊕◌, ◌≼◌, ◌<?◌, ◌≤?◌, nought}
use autonomous_quant_tra.Float.Order.{le_of_not_lt, le_refl, le_trans, le-add, sub_le}
use autonomous_quant_tra.Costs.{
  CostCategory, category_eq, broker_fee, CostEntry, OperatingCostEngine, transaction_fee,
  already_in_trading_pnl, project_net_pnl, record_cost, record_transaction_fee, is_charged, total,
  two_pnl, CostCall, records, fee, perform, run, is_fee,
}

already-fee :
    (c : CostCategory) → already_in_trading_pnl c ≡ ((c == transaction_fee) || (c == broker_fee))
already-fee c = ground arith

module _ {F : Type 0} ⦃fl : Float F⦄ where
  -- The entries that are charged.
  abbrev charged : OperatingCostEngine F → List (CostEntry F)
  charged e = keep is_charged e.entries

  charged-record_cost :
      (entry : CostEntry F) (e : OperatingCostEngine F)
      → already_in_trading_pnl entry.category ≡ true
      → charged (record_cost entry e).1 ≡ charged e
  unfolding record_cost
  charged-record_cost entry e h = elim (Bool-cases (entry.amount <? nought)) [
    | inl negative ↦ rw negative refl
    | inr fine ↦ rw (fine, keep-append is_charged e.entries (entry ∷ []), h) (append-nil _)
  ]

  charged-fee :
      (amount : F) (e : OperatingCostEngine F)
      → charged (record_transaction_fee amount e).1 ≡ charged e
  unfolding record_transaction_fee
  charged-fee amount e = elim (Bool-cases (amount ≤? nought)) [
    | inl none_due ↦ rw none_due refl
    | inr due ↦
        rw due (charged-record_cost (record { category = transaction_fee; amount = amount }) e refl)
  ]

  record_cost-same :
      (entry : CostEntry F) (e f : OperatingCostEngine F)
      → charged e ≡ charged f
      → charged (record_cost entry e).1 ≡ charged (record_cost entry f).1
  unfolding record_cost
  record_cost-same entry e f h = elim (Bool-cases (entry.amount <? nought)) [
    | inl negative ↦ rw negative h
    | inr fine ↦
        rw
          (
            fine,
            keep-append is_charged e.entries (entry ∷ []),
            keep-append is_charged f.entries (entry ∷ []),
            h,
          )
          refl
  ]

  run-same :
      (calls : List (CostCall F)) (e f : OperatingCostEngine F)
      → charged e ≡ charged f
      → charged (run calls e) ≡ charged (run (keep (λ call. not (is_fee call)) calls) f)
  unfolding run
  run-same [] e f h = h
  run-same (fee amount ∷ calls) e f h =
      run-same calls (record_transaction_fee amount e).1 f (rw (charged-fee amount e) h)
  run-same (records entry ∷ calls) e f h =
      elim (Bool-cases ((entry.category == transaction_fee) || (entry.category == broker_fee))) [
        | inl free ↦
            let already = already-fee entry.category ∙ free in
            rw free (
              run-same calls (record_cost entry e).1 f (rw (charged-record_cost entry e already) h))
        | inr charged_ ↦ rw charged_ (
            run-same calls (record_cost entry e).1 (record_cost entry f).1
              (record_cost-same entry e f h))
      ]

  -- No entry is negative.
  abbrev pub NoNegative : OperatingCostEngine F → Type 0
  NoNegative e = All (λ entry. nought ≼ entry.amount) e.entries

  record_cost-NoNegative :
      (entry : CostEntry F) (e : OperatingCostEngine F)
      → NoNegative e
      → NoNegative (record_cost entry e).1
  unfolding record_cost
  record_cost-NoNegative entry e h = elim (Bool-cases (entry.amount <? nought)) [
    | inl negative ↦ rw negative h
    | inr fine ↦
        rw fine (All-append _ e.entries (entry ∷ []) h (le_of_not_lt entry.amount nought fine, tt))
  ]

  fee-NoNegative :
      (amount : F) (e : OperatingCostEngine F)
      → NoNegative e
      → NoNegative (record_transaction_fee amount e).1
  unfolding record_transaction_fee
  fee-NoNegative amount e h = elim (Bool-cases (amount ≤? nought)) [
    | inl none_due ↦ rw none_due h
    | inr due ↦
        rw due (record_cost-NoNegative (record { category = transaction_fee; amount = amount }) e h)
  ]

  perform-NoNegative :
      (call : CostCall F) (e : OperatingCostEngine F) → NoNegative e → NoNegative (perform call e)
  perform-NoNegative (records entry) e h = record_cost-NoNegative entry e h
  perform-NoNegative (fee amount) e h = fee-NoNegative amount e h

  run-NoNegative :
      (calls : List (CostCall F)) (e : OperatingCostEngine F)
      → NoNegative e
      → NoNegative (run calls e)
  unfolding run
  run-NoNegative [] e h = h
  run-NoNegative (call ∷ calls) e h =
      run-NoNegative calls (perform call e) (perform-NoNegative call e h)

  module _ (laws : IsFloat F) where
    sum_nonneg :
        (acc : F) (entries : List (CostEntry F))
        → nought ≼ acc
        → All (λ entry. nought ≼ entry.amount) entries
        → nought ≼ foldl ◌⊕◌ acc (map (λ entry. entry.amount) (keep is_charged entries))
    sum_nonneg acc [] h all = h
    sum_nonneg acc (entry ∷ entries) h all = elim (Bool-cases (is_charged entry)) [
      | inl due ↦ rw due (
          sum_nonneg (acc ⊕ entry.amount) entries
            (le_trans nought acc (acc ⊕ entry.amount) h (le-add laws acc entry.amount all.0)) all.1)
      | inr free ↦ rw free (sum_nonneg acc entries h all.1)
    ]

  -- After any calls, the profits are those of the same calls without the transaction and the
  -- broker fees, which the trading profit has borne already, and the project's profit is at most the trading profit.
  pub fees_are_free :
      (calls : List (CostCall F)) (e : OperatingCostEngine F) (trading_pnl : F)
      → IsFloat F
      → NoNegative e
      → (two_pnl trading_pnl (run calls e)
          ≡ two_pnl trading_pnl (run (keep (λ call. not (is_fee call)) calls) e))
        × (project_net_pnl (two_pnl trading_pnl (run calls e)) ≼ trading_pnl)
  unfolding two_pnl total project_net_pnl
  fees_are_free calls e trading_pnl laws h = (
    rw (run-same calls e e refl) refl,
    sub_le laws trading_pnl (total (run calls e)) (
        sum_nonneg laws nought (run calls e).entries (le_refl (nought {F = F}))
          (run-NoNegative calls e h)),
  )
