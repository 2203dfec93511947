-- ===== src/Reconciliation/Laws.antt =====
-- What an empty report says.
use autonomous_quant_tra.Base.{
  ◌≡◌, sym as symm, ap, ◌∙◌, ◌⊎◌, refl, inl, inr, String, true, false, Option, none, some, List, [],
  ◌∷◌, ◌++◌, string_eq, ◌==◌, arith, Bool-cases, eq_iff,
}
use autonomous_quant_tra.Dict.{Dict, lookup, has_key}
use autonomous_quant_tra.Float.{Float, ◌⊕◌, ◌⊖◌, ◌≼◌, abs}
use autonomous_quant_tra.Approval.{halt_new_entries, full_broker_disconnect}
use autonomous_quant_tra.Ledger.{Ledger, PositionLot}
use autonomous_quant_tra.Risk.{MasterRiskController, set_state}
use autonomous_quant_tra.Settlement.{BrokerCashBalance}
use autonomous_quant_tra.Reconciliation.{
  BrokerPosition, by_symbol, missing_symbols, lot_mismatch, lot_mismatches, cash_mismatch,
  compare_books, react, reconcile,
}

module _ {A : Type 0} where
  pub append-nil_left : (xs ys : List A) → xs ++ ys ≡ [] → xs ≡ []
  append-nil_left [] ys h = refl
  append-nil_left (x ∷ xs) ys h = absurd (cc)

  pub append-nil_right : (xs ys : List A) → xs ++ ys ≡ [] → ys ≡ []
  append-nil_right [] ys h = h
  append-nil_right (x ∷ xs) ys h = absurd (cc)

module _ {F : Type 0} ⦃fl : Float F⦄ (cash_tolerance qty_tolerance : F) where
  -- One symbol in both books.
  abbrev pub Agrees : Option (PositionLot F) → Option (BrokerPosition F) → Type 0
  Agrees none none = Unit
  Agrees none (some p) = ⊥
  Agrees (some lot) none = ⊥
  Agrees (some lot) (some p) = abs (p.qty ⊖ lot.qty) ≼ qty_tolerance

  abbrev Held : Option (PositionLot F) → Option (BrokerPosition F) → Type 0
  Held none p = Unit
  Held (some lot) none = ⊥
  Held (some lot) (some p) = abs (p.qty ⊖ lot.qty) ≼ qty_tolerance

  lot_mismatch-Held :
      (sym : String) (lot : PositionLot F) (p : Option (BrokerPosition F))
      → lot_mismatch cash_tolerance qty_tolerance sym lot.qty p ≡ []
      → Held (some lot) p
  unfolding lot_mismatch
  lot_mismatch-Held sym lot none h = absurd (cc)
  lot_mismatch-Held sym lot (some p) h = ground arith

  lot_mismatches-Held :
      (sym : String) (lots : Dict String (PositionLot F)) (ps : Dict String (BrokerPosition F))
      → lot_mismatches cash_tolerance qty_tolerance lots ps ≡ []
      → Held (lookup sym lots) (lookup sym ps)
  unfolding lot_mismatches lookup
  lot_mismatches-Held sym [] ps h = tt
  lot_mismatches-Held sym ((k, lot) ∷ lots) ps h = elim (Bool-cases (sym == k)) [
    | inl same ↦
        let e = (eq_iff sym k).0 same in
        rw (same, e) (lot_mismatch-Held k lot (lookup k ps) (append-nil_left _ _ h))
    | inr other ↦ rw other (lot_mismatches-Held sym lots ps (append-nil_right _ _ h))
  ]

  missing_symbols-lookup :
      (sym : String) (lots : Dict String (PositionLot F)) (ps : Dict String (BrokerPosition F))
      → missing_symbols lots ps ≡ []
      → (has_key sym ps ≡ false) ⊎ (has_key sym lots ≡ true)
  unfolding missing_symbols lookup
  missing_symbols-lookup sym lots [] h = inl refl
  missing_symbols-lookup sym lots ((k, p) ∷ ps) h =
      ground (arith, eq_iff sym k, missing_symbols-lookup sym lots ps)

  module _ (cash : BrokerCashBalance F) (positions : List (BrokerPosition F)) (l : Ledger F)
      (c : MasterRiskController F) where
    both-Agrees :
        (lot : Option (PositionLot F)) (p : Option (BrokerPosition F))
        → Held lot p
        → (elim p [ none ↦ false | some q ↦ true ] ≡ false)
          ⊎ (elim lot [ none ↦ false | some m ↦ true ] ≡ true)
        → Agrees lot p
    both-Agrees none none held known = tt
    both-Agrees none (some p) held known = ground arith
    both-Agrees (some lot) none held known = held
    both-Agrees (some lot) (some p) held known = held

    -- A report is empty only if the broker's cash is within the tolerance of the ledger's, and each symbol is in
    -- both books or in neither, with quantities within the tolerance; the controller's state is then as it was.
    pub reconcile-Agrees :
        (sym : String) {c' : MasterRiskController F}
        → reconcile cash_tolerance qty_tolerance (some (cash, positions)) l c ≡ ([], c')
        → (abs (cash.settled_cash ⊕ cash.unsettled_cash ⊖ l.cash) ≼ cash_tolerance)
          × Agrees (lookup sym l.positions) (lookup sym (by_symbol positions []))
          × (c' ≡ c)
    unfolding reconcile compare_books cash_mismatch
    reconcile-Agrees sym {c'} h =
        let ps = by_symbol positions [] in
        let cash_part = cash_mismatch cash_tolerance qty_tolerance cash l in
        let lots_part = lot_mismatches cash_tolerance qty_tolerance l.positions ps in
        let missing_part = missing_symbols l.positions ps in
        let empty : cash_part ++ (lots_part ++ missing_part) ≡ [] = ap (λ r. r.0) h in
        let books = append-nil_right cash_part (lots_part ++ missing_part) empty in
        let cash_equal = append-nil_left cash_part (lots_part ++ missing_part) empty in
        (
          ground arith,
          both-Agrees (lookup sym l.positions) (lookup sym ps)
              (lot_mismatches-Held sym l.positions ps
                (append-nil_left lots_part missing_part books))
              (missing_symbols-lookup sym l.positions ps
                (append-nil_right lots_part missing_part books)),
          symm (ap (λ r. r.1) h) ∙ ap (λ m. react cash_tolerance qty_tolerance m c) empty,
        )

    -- Any mismatch, the broker's silence included, leaves the controller in a state that blocks entries.
    pub mismatch_halts :
        (answer : Option (BrokerCashBalance F × List (BrokerPosition F)))
        → let (found, c') = reconcile cash_tolerance qty_tolerance answer l c in
          (found ≡ []) ⊎ (c'.state ≡ halt_new_entries) ⊎ (c'.state ≡ full_broker_disconnect)
    unfolding reconcile set_state
    mismatch_halts none = inr (inr refl)
    mismatch_halts (some (held, listed)) = ground arith
