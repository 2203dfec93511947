-- ===== src/Reservation/Laws.antt =====
-- Reserving and releasing.
use mathlib.Core.List.{map-append, append-nil}
use autonomous_quant_tra.Base.{
  ◌≡◌, refl, inl, inr, String, true, none, List, [], ◌∷◌, ◌++◌, map, foldl, keep-append, ◌==◌,
  string_eq, arith, if◌then◌else◌, Bool-cases, Option-cases,
}
use autonomous_quant_tra.Dict.{Dict, lookup, insert, values}
use autonomous_quant_tra.Dict.Laws.{insert_new, erase-insert_new, lookup-insert_self}
use autonomous_quant_tra.Exec.{Result, ok, err}
use autonomous_quant_tra.Float.{Float, ◌⊕◌, ◌≼◌, ◌<?◌, ◌≤?◌, nought, tiny}
use autonomous_quant_tra.Reservation.{
  CapitalReservation, CapitalReservationLedger, ReservationError, not_positive, duplicate,
  insufficient_capital, reserved_cash, available_cash, cell_reserved_capital, reserve, release,
  of_cell,
}

module _ {F : Type 0} ⦃fl : Float F⦄ where
  abbrev pub made : String → String → F → String → CapitalReservation F
  made rid cid amount note = record {
    reservation_id = rid;
    cell_id = cid;
    amount = amount;
    note = note;
  }

  abbrev pub with_reservation :
      CapitalReservation F → CapitalReservationLedger F → CapitalReservationLedger F
  with_reservation r l = record l { reservations = insert r.reservation_id r l.reservations }

  -- A call of `reserve`, by how it ends.
  pub data Reserved (rid cid : String) (amount : F) (note : String) (l : CapitalReservationLedger F)
      : Result ReservationError (CapitalReservation F) × CapitalReservationLedger F → Type 0 where
    refused : (e : ReservationError) → Reserved rid cid amount note l (err e, l)
    granted :
        (nought <? amount) ≡ true
        → lookup rid l.reservations ≡ none
        → amount ≼ available_cash l ⊕ tiny
        → Reserved rid cid amount note l
            (ok (made rid cid amount note), with_reservation (made rid cid amount note) l)

  reserve-Reserved :
      (rid cid : String) (amount : F) (note : String) (l : CapitalReservationLedger F)
      → Reserved rid cid amount note l (reserve rid cid amount note l)
  unfolding reserve lookup
  reserve-Reserved rid cid amount note l = elim (Bool-cases (amount ≤? nought)) [
    | inl bad ↦ rw bad (refused not_positive)
    | inr positive ↦ elim (Option-cases (lookup rid l.reservations)) [
      | inr (r, taken) ↦ rw (positive, taken) (refused duplicate)
      | inl free ↦ elim (Bool-cases (available_cash l ⊕ tiny <? amount)) [
        | inl short ↦ rw (positive, free, short) (refused insufficient_capital)
        | inr covered ↦ rw (positive, free, covered) (granted (ground arith) free (ground arith))
      ]
    ]
  ]

  values-append :
      (d e : Dict String (CapitalReservation F)) → values (d ++ e) ≡ values d ++ values e
  values-append [] e = refl
  values-append ((k, v) ∷ d) e = rw (values-append d e)

  sum-append : (acc : F) (xs : List F) (x : F) → foldl ◌⊕◌ acc (xs ++ x ∷ []) ≡ foldl ◌⊕◌ acc xs ⊕ x
  sum-append acc [] x = refl
  sum-append acc (y ∷ xs) x = sum-append (acc ⊕ y) xs x

  abbrev amounts : List (CapitalReservation F) → List F
  amounts = map λ r. r.amount

  module _ (r : CapitalReservation F) (l : CapitalReservationLedger F)
      (free : lookup r.reservation_id l.reservations ≡ none) where
    values-with_reservation :
        values (with_reservation r l).reservations ≡ values l.reservations ++ r ∷ []
    values-with_reservation =
        rw (insert_new r.reservation_id r l.reservations free) (values-append l.reservations _)

    reserved_cash-with : reserved_cash (with_reservation r l) ≡ reserved_cash l ⊕ r.amount
    unfolding reserved_cash
    reserved_cash-with =
        rw (values-with_reservation, map-append)
          (sum-append nought (amounts (values l.reservations)) r.amount)

    cell_capital-with :
        (cid : String)
        → cell_reserved_capital cid (with_reservation r l) ≡ (
            if r.cell_id == cid
            then cell_reserved_capital cid l ⊕ r.amount
            else cell_reserved_capital cid l)
    unfolding cell_reserved_capital
    cell_capital-with cid = elim (Bool-cases (r.cell_id == cid)) [
      | inl own ↦
          rw (values-with_reservation, keep-append, own, map-append)
            (sum-append nought (amounts (of_cell cid l)) r.amount)
      | inr other ↦ rw (values-with_reservation, keep-append, other, append-nil) refl
    ]

  module _ (rid cid : String) (amount : F) (note : String) (l : CapitalReservationLedger F) where
    -- What a reservation is entitled to: it was covered, and what it takes shows in the totals.
    abbrev pub Entitled :
        String
        → Result ReservationError (CapitalReservation F) × CapitalReservationLedger F
        → Type 0
    Entitled other (err e, l') = l' ≡ l
    Entitled other (ok r, l') =
        ((nought <? amount) ≡ true)
        × (amount ≼ available_cash l ⊕ tiny)
        × (reserved_cash l' ≡ reserved_cash l ⊕ amount)
        × (cell_reserved_capital other l' ≡ (
            if cid == other
            then cell_reserved_capital other l ⊕ amount
            else cell_reserved_capital other l))

    Reserved-Entitled :
        (other : String)
        {out : Result ReservationError (CapitalReservation F) × CapitalReservationLedger F}
        → Reserved rid cid amount note l out
        → Entitled other out
    Reserved-Entitled other (refused e) = refl
    Reserved-Entitled other (granted positive free covered) =
        let r = made rid cid amount note in
        (positive, covered, reserved_cash-with r l free, cell_capital-with r l free other)

    -- A reservation is granted only for a positive amount that the available cash covers up to 1e-9; then
    -- the reserved cash grows by the amount, so does the capital of the cell that asked, and every other
    -- cell's is as it was. A refusal changes nothing.
    pub reserve-Entitled : (other : String) → Entitled other (reserve rid cid amount note l)
    reserve-Entitled other = Reserved-Entitled other (reserve-Reserved rid cid amount note l)

    abbrev pub GivesBack :
        Result ReservationError (CapitalReservation F) × CapitalReservationLedger F → Type 0
    GivesBack (err e, l') = l' ≡ l
    GivesBack (ok r, l') = release r.reservation_id l' ≡ (ok tt, l)

    Reserved-GivesBack :
        {out : Result ReservationError (CapitalReservation F) × CapitalReservationLedger F}
        → Reserved rid cid amount note l out
        → GivesBack out
    unfolding release
    Reserved-GivesBack (refused e) = refl
    Reserved-GivesBack (granted positive free covered) =
        let r = made rid cid amount note in
        ground (
          arith,
          lookup-insert_self rid r l.reservations,
          erase-insert_new rid r l.reservations free,
        )

    -- Releasing a reservation that was granted brings back the ledger as it was before it.
    pub release-reserve : GivesBack (reserve rid cid amount note l)
    release-reserve = Reserved-GivesBack (reserve-Reserved rid cid amount note l)
