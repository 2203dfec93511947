-- ===== src/Settlement/Laws.antt =====
-- What settles, and when.
use autonomous_quant_tra.Base.{
  ℕ, ◌+◌, ◌≤◌, ◌<◌, ◌≡◌, refl, sym, ap, ◌∙◌, inl, inr, Bool, false, not, List, [], ◌∷◌, ◌++◌, leb,
  keep, arith, Bool-cases, foldl,
}
use mathlib.Core.List.{append-nil, append_assoc}
use autonomous_quant_tra.Exec.{ok}
use autonomous_quant_tra.Float.{Float, IsFloat, ◌⊕◌, ◌≼◌, nought, tiny}
use autonomous_quant_tra.Float.Order.{le-add, sub_nonneg}
use autonomous_quant_tra.Settlement.{
  PendingSettlement, SettlementManager, on_buy, on_sell, settle_loop, process_settlements,
  buying_power, settlement_lag,
}

module _ {F : Type 0} ⦃fl : Float F⦄ where
  abbrev pub is_due : ℕ → PendingSettlement F → Bool
  is_due now p = leb p.settles_at now

  abbrev pub due : ℕ → List (PendingSettlement F) → List (PendingSettlement F)
  due now = keep (is_due now)

  abbrev pub waiting : ℕ → List (PendingSettlement F) → List (PendingSettlement F)
  waiting now = keep (λ p. not (is_due now p))

  -- The amounts of the entries, added from the left.
  abbrev pub total_due : F → List (PendingSettlement F) → F
  total_due = foldl (λ acc p. acc ⊕ p.amount)

  settle_loop_lem :
      (now : ℕ) (ps : List (PendingSettlement F)) (settled : F) (kept : List (PendingSettlement F))
      → settle_loop now ps settled kept ≡ (total_due settled (due now ps), kept ++ waiting now ps)
  unfolding settle_loop
  settle_loop_lem now [] settled kept = rw append-nil
  settle_loop_lem now (p ∷ ps) settled kept = elim (Bool-cases (is_due now p)) [
    | inl ready ↦ rw ready (settle_loop_lem now ps (settled ⊕ p.amount) kept)
    | inr early ↦
        rw early (settle_loop_lem now ps settled (kept ++ p ∷ []) ∙ rw (append_assoc kept (p ∷ [])))
  ]

  -- The loop settles the entries that are due, in order, and keeps the others, in order.
  pub process_settlements_lem :
      (now : ℕ) (m : SettlementManager F)
      → process_settlements now m ≡ (
        total_due nought (due now m.pending),
        record {
          settled_cash = m.settled_cash ⊕ total_due nought (due now m.pending);
          pending = waiting now m.pending;
        },
      )
  unfolding process_settlements
  process_settlements_lem now m = rw (settle_loop_lem now m.pending nought [])

  waiting-waiting :
      (t u : ℕ) (ps : List (PendingSettlement F)) → t ≤ u → waiting u (waiting t ps) ≡ waiting u ps
  waiting-waiting t u [] h = refl
  waiting-waiting t u (p ∷ ps) h = ground (arith, waiting-waiting t u ps h)

  due-waiting : (t : ℕ) (ps : List (PendingSettlement F)) → due t (waiting t ps) ≡ []
  due-waiting t [] = refl
  due-waiting t (p ∷ ps) = ground (arith, due-waiting t ps)

  waiting-append :
      (t : ℕ) (ps qs : List (PendingSettlement F))
      → waiting t (ps ++ qs) ≡ waiting t ps ++ waiting t qs
  waiting-append t [] qs = refl
  waiting-append t (p ∷ ps) qs = ground (arith, waiting-append t ps qs)

  due-append :
      (t : ℕ) (ps qs : List (PendingSettlement F)) → due t (ps ++ qs) ≡ due t ps ++ due t qs
  due-append t [] qs = refl
  due-append t (p ∷ ps) qs = ground (arith, due-append t ps qs)

  -- A second settlement at the same instant settles nothing and changes nothing, and a settlement in
  -- between leaves the same entries waiting at any later instant.
  pub process_settlements_twice :
      (t u : ℕ) (m : SettlementManager F)
      → IsFloat F
      → t ≤ u
      → (process_settlements t (process_settlements t m).1 ≡ (nought, (process_settlements t m).1))
        × ((process_settlements u (process_settlements t m).1).1.pending
            ≡ (process_settlements u m).1.pending)
  process_settlements_twice t u m laws h = rw (process_settlements_lem t m) (
    process_settlements_lem t _
        ∙ rw
            (due-waiting t m.pending, laws.add_nought, waiting-waiting t t m.pending (omega arith)),
    ap (λ r. r.1.pending) (process_settlements_lem u _)
        ∙ waiting-waiting t u m.pending h
        ∙ sym (ap (λ r. r.1.pending) (process_settlements_lem u m)),
  )

  -- The proceeds of a sale are not spendable before a day has passed: until then a settlement settles
  -- what it would have settled without the sale, and the proceeds stay pending.
  pub sale_waits :
      (proceeds : F) (at now : ℕ) (m : SettlementManager F)
      → now < at + settlement_lag
      → let after = process_settlements now (on_sell proceeds at m) in
        let without = process_settlements now m in
        (after.0 ≡ without.0)
        × (buying_power after.1 ≡ buying_power without.1)
        × (after.1.pending
            ≡ without.1.pending
              ++ record { amount = proceeds; settles_at = at + settlement_lag } ∷ [])
  unfolding on_sell buying_power
  sale_waits proceeds at now m h =
      let sale : PendingSettlement F = record {
        amount = proceeds;
        settles_at = at + settlement_lag;
      } in
      let early : is_due now sale ≡ false = ground arith in
      let not_due : due now (m.pending ++ sale ∷ []) ≡ due now m.pending =
        rw (due-append now m.pending (sale ∷ []), early) (append-nil (due now m.pending)) in
      let waits : waiting now (m.pending ++ sale ∷ []) ≡ waiting now m.pending ++ sale ∷ [] =
        rw (waiting-append now m.pending (sale ∷ []), early) in
      rw
        (
          process_settlements_lem now m,
          process_settlements_lem now (record m { pending = m.pending ++ sale ∷ [] }),
          not_due,
          waits,
        )
        (refl, refl, refl)

  -- A purchase of at most the settled cash goes through, and leaves settled cash that is not negative.
  pub on_buy_covered :
      (cost : F) (m : SettlementManager F)
      → IsFloat F
      → cost ≼ m.settled_cash
      → ((on_buy cost m).0 ≡ ok tt) × (nought ≼ (on_buy cost m).1.settled_cash)
  unfolding on_buy
  on_buy_covered cost m laws h = ground (
    arith,
    le-add laws m.settled_cash tiny laws.tiny_nonneg,
    sub_nonneg laws m.settled_cash cost h,
  )
