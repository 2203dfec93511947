-- ===== src/Reservation.antt =====
-- The capital reservation ledger (services/capital_cells/reservation.py): what one cell has reserved, no
-- other may count on.
pub mod Laws
use autonomous_quant_tra.Base.{
  ℕ, ◌+◌, String, Bool, true, false, Option, none, some, List, [], ◌∷◌, map, keep, length, ◌==◌,
  string_eq, not,
}
use autonomous_quant_tra.Dict.{Dict, lookup, insert, erase, has_key, values}
use autonomous_quant_tra.Exec.{Exec, pure, gets, raise_if, modify, ◌>>=◌, ◌>>◌}
use autonomous_quant_tra.Float.{Float, ◌⊕◌, ◌⊖◌, ◌<?◌, ◌≤?◌, nought, tiny, sum}

pub record CapitalReservation (F : Type 0) : Type 0 where
  pub reservation_id : String
  pub cell_id : String
  pub amount : F
  pub note : String

pub record CapitalReservationLedger (F : Type 0) : Type 0 where
  pub total_cash : F
  pub reservations : Dict String (CapitalReservation F)

pub data ReservationError : Type 0 where
  not_positive duplicate insufficient_capital unknown_reservation : ReservationError

module _ {F : Type 0} ⦃fl : Float F⦄ where
  unfoldable pub reserved_cash : CapitalReservationLedger F → F
  reserved_cash l = sum (map (λ r. r.amount) (values l.reservations))

  unfoldable pub available_cash : CapitalReservationLedger F → F
  unfolding reserved_cash
  available_cash l = l.total_cash ⊖ reserved_cash l

  abbrev pub of_cell : String → CapitalReservationLedger F → List (CapitalReservation F)
  of_cell cell_id l = keep (λ r. r.cell_id == cell_id) (values l.reservations)

  unfoldable pub cell_reserved_capital : String → CapitalReservationLedger F → F
  cell_reserved_capital cell_id l = sum (map (λ r. r.amount) (of_cell cell_id l))

  unfoldable pub pending_orders : String → CapitalReservationLedger F → ℕ
  pending_orders cell_id l = length (of_cell cell_id l)

  unfoldable pub sync_total_cash : F → CapitalReservationLedger F → CapitalReservationLedger F
  sync_total_cash total_cash l = record l { total_cash = total_cash }

  unfoldable pub reserve :
      String
      → String
      → F
      → String
      → Exec ReservationError (CapitalReservationLedger F) (CapitalReservation F)
  reserve reservation_id cell_id amount note = do
    raise_if (amount ≤? nought) not_positive
    raise_if (← gets (λ l. has_key reservation_id l.reservations)) duplicate
    raise_if (← gets (λ l. available_cash l ⊕ tiny <? amount)) insufficient_capital
    let reservation : CapitalReservation F = record {
      reservation_id = reservation_id;
      cell_id = cell_id;
      amount = amount;
      note = note;
    }
    modify (λ l. record l { reservations = insert reservation_id reservation l.reservations })
    pure reservation

  unfoldable pub release : String → Exec ReservationError (CapitalReservationLedger F) Unit
  release reservation_id = do
    raise_if (← gets (λ l. not (has_key reservation_id l.reservations))) unknown_reservation
    modify (λ l. record l { reservations = erase reservation_id l.reservations })
