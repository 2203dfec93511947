-- ===== src/Cells/Stops/Exits.antt =====
-- What a reservation and a trigger promise.
use autonomous_quant_tra.Base.{
  ℕ, ◌≡◌, refl, inl, inr, String, true, Option, none, some, List, [], ◌∷◌, string_eq, All, arith,
  Bool-cases,
}
use autonomous_quant_tra.Dict.{Dict, lookup, insert, has_key}
use autonomous_quant_tra.Dict.Laws.{erase-insert_new, lookup-insert_self}
use autonomous_quant_tra.Exec.{Result, ok, err, pure, ◌>>=◌, Result-cases, OnOk, bind-OnOk, OnOk_of}
use autonomous_quant_tra.Float.{Float, ◌⊕◌, ◌⊖◌, ◌<?◌, ◌≤?◌, ◌≼◌, nought, tiny}
use autonomous_quant_tra.Schema.{sell}
use autonomous_quant_tra.Cells.{CellOrderIntent}
use autonomous_quant_tra.Cells.Book.{CellLedger, position_qty}
use autonomous_quant_tra.Cells.Stops.{
  StopError, SellReservation, SellReservationLedger, CellStopRegistry, CellStopPlan, Exit,
  reserve_sell, release, can_reserve, available_to_reserve, reserved_qty, plan_exits, plan_exit,
  exit_of, commit, reserve_exit, id_of, fire, trigger, get, demands_fit, demand_by_symbol,
  planned_exits, targets,
}

module _ {F : Type 0} ⦃fl : Float F⦄ where
  module _ (reservation_id cell_id symbol : String) (qty : F) (l : SellReservationLedger F) where
    abbrev pub Releasable : Result StopError (SellReservation F) × SellReservationLedger F → Type 0
    Releasable (err e, l') = l' ≡ l
    Releasable (ok made, l') =
        ((nought <? qty) ≡ true)
        × (qty ≼ available_to_reserve symbol l ⊕ tiny)
        × (release reservation_id l' ≡ (ok tt, l))

    released :
        (made : SellReservation F)
        → lookup reservation_id l.reservations ≡ none
        → release reservation_id
            (record l { reservations = insert reservation_id made l.reservations })
          ≡ (ok tt, l)
    unfolding release
    released made fresh =
        let there : has_key reservation_id (insert reservation_id made l.reservations) ≡ true =
          ground (arith, lookup-insert_self reservation_id made l.reservations) in
        rw there (rw (erase-insert_new reservation_id made l.reservations fresh) refl)

    -- A reservation that is refused changes nothing. One that is made is of a quantity above 0 and of at most
    -- what was available plus 1e-9, and releasing it brings the ledger back to what it was.
    pub release-reserve_sell : Releasable (reserve_sell reservation_id cell_id symbol qty l)
    unfolding reserve_sell can_reserve
    release-reserve_sell = elim (Bool-cases (qty ≤? nought)) [
      | inl bad ↦ rw bad refl
      | inr positive ↦ elim (Bool-cases (has_key reservation_id l.reservations)) [
        | inl taken ↦ rw (positive, taken) refl
        | inr free ↦ elim (Bool-cases (available_to_reserve symbol l ⊕ tiny <? qty)) [
          | inl short ↦ rw (positive, free, short) refl
          | inr covered ↦
              rw (positive, free, covered) (ground arith, ground arith, released _ (ground arith))
        ]
      ]
    ]

  -- What an exit is: a sale, of more than 1e-9, of what the cell held beyond what was reserved for it.
  abbrev pub IsExit :
      Dict String (CellLedger F) → SellReservationLedger F → CellOrderIntent F → Type 0
  IsExit cells l i =
      (i.side ≡ sell)
      × ((tiny <? i.qty) ≡ true)
      × ((c : CellLedger F) × (lookup i.cell_id cells ≡ some c)
          × (i.qty ≡ position_qty i.symbol c ⊖ reserved_qty i.symbol (some i.cell_id) l))

  abbrev IsPlanned : Dict String (CellLedger F) → SellReservationLedger F → Exit F → Type 0
  IsPlanned cells l x =
      ((tiny <? x.exit_qty) ≡ true)
      × ((c : CellLedger F) × (lookup x.cell_id cells ≡ some c)
          × (x.exit_qty ≡ position_qty x.symbol c ⊖ reserved_qty x.symbol (some x.cell_id) l))

  module _ (cells : Dict String (CellLedger F)) (l : SellReservationLedger F) where
    plan_exit-IsPlanned :
        (cell_id symbol : String) (found : Option (CellLedger F)) (planned : List (Exit F))
        → lookup cell_id cells ≡ found
        → All (IsPlanned cells l) planned
        → All (IsPlanned cells l) (plan_exit l cell_id symbol found planned)
    plan_exit-IsPlanned cell_id symbol none planned e h = h
    plan_exit-IsPlanned cell_id symbol (some c) planned e h =
        elim (Bool-cases ((exit_of l cell_id symbol c).exit_qty ≤? tiny)) [
          | inl little ↦ rw little h
          | inr enough ↦ rw enough ((ground arith, (c, e, refl)), h)
        ]

    plan_exits-IsPlanned :
        (pairs : List (String × String)) → All (IsPlanned cells l) (plan_exits l cells pairs)
    unfolding plan_exits
    plan_exits-IsPlanned [] = tt
    plan_exits-IsPlanned ((cell_id, symbol) ∷ pairs) =
        plan_exit-IsPlanned cell_id symbol (lookup cell_id cells) (plan_exits l cells pairs) refl
          (plan_exits-IsPlanned pairs)

    module _ (fresh_id : ℕ → String) (stop_id : String) (at : ℕ) where
      reserve_exit-IsExit :
          (x : Exit F) (r : CellStopRegistry F)
          → IsPlanned cells l x
          → OnOk (IsExit cells l) (reserve_exit fresh_id stop_id at x r).0
      reserve_exit-IsExit x r h =
          elim (Result-cases
            (reserve_sell (id_of fresh_id stop_id at x r.ids_drawn) x.cell_id x.symbol x.exit_qty
              r.sell_reservations).0) [
                | inr (e, failed) ↦ rw failed tt
                | inl (made, went) ↦ rw went (refl, h.0, h.1)
              ]

      commit-IsExit :
          (planned : List (Exit F)) (r : CellStopRegistry F)
          → All (IsPlanned cells l) planned
          → OnOk (All (IsExit cells l)) (commit fresh_id stop_id at planned r).0
      unfolding commit
      commit-IsExit [] r h = tt
      commit-IsExit (x ∷ planned) r h =
          let after = (reserve_exit fresh_id stop_id at x r).1 in
          let rest = commit fresh_id stop_id at planned in
          bind-OnOk (All (IsExit cells l)) (reserve_exit fresh_id stop_id at x)
            (λ i. rest >>= λ is. pure (i ∷ is)) r
            (λ i first.
              bind-OnOk (All (IsExit cells l)) rest (λ is. pure (i ∷ is)) after
                (λ is others. (
                  OnOk_of (IsExit cells l) first (reserve_exit-IsExit x r h.0),
                  OnOk_of (All (IsExit cells l)) others (commit-IsExit planned after h.1),
                )))

  module _ (cells : Dict String (CellLedger F)) (fresh_id : ℕ → String) (stop_id : String) (at : ℕ)
      (r : CellStopRegistry F) where
    fire-IsExit :
        (found : Result StopError (CellStopPlan F))
        → OnOk (All (IsExit cells r.sell_reservations)) (fire fresh_id stop_id at cells found r).0
    unfolding fire
    fire-IsExit (err e) = tt
    fire-IsExit (ok plan) =
        let planned = planned_exits fresh_id stop_id at plan cells r in
        elim (Bool-cases (demands_fit r.sell_reservations (demand_by_symbol planned []))) [
          | inr over ↦ rw over tt
          | inl fits ↦ rw fits (
              commit-IsExit cells r.sell_reservations fresh_id stop_id at planned r
                (plan_exits-IsPlanned cells r.sell_reservations (targets plan cells)))
        ]

    -- Every intent that a triggered stop returns is a sale, of more than 1e-9, and of exactly what its cell held
    -- of the symbol beyond what was reserved for it before the trigger, whatever the stop's scope.
    pub trigger-IsExit :
        OnOk (All (IsExit cells r.sell_reservations)) (trigger fresh_id stop_id at cells r).0
    unfolding trigger
    trigger-IsExit = fire-IsExit (get stop_id r)
