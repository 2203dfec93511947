-- ===== src/Ledger/Calls.antt =====
-- The calls that change a ledger, in any order.
use autonomous_quant_tra.Base.{
  ℕ, ◌≡◌, refl, if◌then◌else◌, inl, inr, String, List, [], ◌∷◌, ◌++◌, arith, Bool-cases, ◌∙◌, sym,
  All,
}
use autonomous_quant_tra.Dict.{Dict}
use autonomous_quant_tra.Exec.{Result, ok, err, Result-cases}
use autonomous_quant_tra.Text.{is_blank}
use autonomous_quant_tra.Float.{Float, IsFloat, ◌⊕◌, ◌≼◌, ◌<?◌, ◌≤?◌, nought, minus_tiny}
use autonomous_quant_tra.Float.Order.{le_of_not_lt}
use autonomous_quant_tra.Ledger.{
  Ledger, LedgerEntry, LedgerError, not_positive, negative_cash, EntryKind, append_entry,
  record_fill, deposit, rebase_high_water_mark, snapshot, equity, plain_entry, blank_ledger,
  open_ledger, fee_of,
}
use autonomous_quant_tra.Ledger.Fill.{booked, record_fill-Outcome}
use autonomous_quant_tra.Ledger.Invariant.{IsSound, booked-IsSound, Outcome-IsSound, total-append}

pub data Call (F : Type 0) : Type 0 where
  deposits : F → ℕ → String → Call F
  fills : String → F → F → F → ℕ → String → Call F
  rebases : String → ℕ → Call F
  snapshots : Dict String F → Call F

module _ {F : Type 0} ⦃fl : Float F⦄ where
  -- A call that raises leaves what it has written.
  unfoldable pub step : Ledger F → Call F → Ledger F
  step l (deposits amount at note) = (deposit amount at note l).1
  step l (fills symbol side_qty price fees at note) =
      (record_fill symbol side_qty price fees at note l).1
  step l (rebases who at) = (rebase_high_water_mark who at l).1
  step l (snapshots prices) = (snapshot prices l).1

  unfoldable pub run : Ledger F → List (Call F) → Ledger F
  run l [] = l
  run l (c ∷ cs) = run (step l c) cs

  -- The broker's fees are not negative (`BrokerFill.fees` has `ge=0`).
  abbrev pub FeesNonneg : Call F → Type 0
  FeesNonneg (deposits amount at note) = Unit
  FeesNonneg (fills symbol side_qty price fees at note) = nought ≼ fees
  FeesNonneg (rebases who at) = Unit
  FeesNonneg (snapshots prices) = Unit

  append_entry-IsSound :
      (en : LedgerEntry F) (l : Ledger F) → IsSound l → IsSound (append_entry en l).1
  unfolding append_entry
  append_entry-IsSound en l s = elim (Bool-cases (l.cash ⊕ en.amount <? minus_tiny)) [
    | inl short ↦ rw short s
    | inr covered ↦
        rw covered (booked-IsSound en l (le_of_not_lt (l.cash ⊕ en.amount) minus_tiny covered) s)
  ]

  -- The high-water mark is in none of the statements of `IsSound`.
  marked-IsSound :
      (l : Ledger F) (mark : F) → IsSound l → IsSound (record l { high_water_mark = mark })
  marked-IsSound l mark s = record {
    solvent = s.solvent;
    long = s.long;
    keyed = s.keyed;
    cash_sourced = s.cash_sourced;
    fees_sourced = s.fees_sourced;
    pnl_sourced = s.pnl_sourced;
  }

  snapshot-IsSound :
      (prices : Dict String F) (l : Ledger F) → IsSound l → IsSound (snapshot prices l).1
  unfolding snapshot
  snapshot-IsSound prices l s = elim (Result-cases (equity prices l)) [
    | inl (eq, valued) ↦ rw valued (marked-IsSound l _ s)
    | inr (e, unmarked) ↦ rw unmarked s
  ]

  module _ (laws : IsFloat F) where
    open laws use {add_nought, minus_tiny_nonpos}

    noted-IsSound :
        (l : Ledger F) (mark : F) (at : ℕ) (note : String)
        → IsSound l
        → IsSound (record l {
          high_water_mark = mark;
          entries = l.entries ++ plain_entry at EntryKind.cash nought note ∷ [];
        })
    noted-IsSound l mark at note s =
        let en : LedgerEntry F = plain_entry at EntryKind.cash nought note in
        record {
          solvent = s.solvent;
          long = s.long;
          keyed = s.keyed;
          cash_sourced =
              s.cash_sourced
              ∙ sym (total-append (λ x. x.amount) nought l.entries en ∙ add_nought _);
          fees_sourced =
              s.fees_sourced ∙ sym (total-append fee_of nought l.entries en ∙ add_nought _);
          pnl_sourced =
              s.pnl_sourced
              ∙ sym (total-append (λ x. x.realized_pnl) nought l.entries en ∙ add_nought _);
        }

    rebase-IsSound :
        (who : String) (at : ℕ) (l : Ledger F)
        → IsSound l
        → IsSound (rebase_high_water_mark who at l).1
    unfolding rebase_high_water_mark
    rebase-IsSound who at l s = elim (Bool-cases (is_blank who)) [
      | inl blank ↦ rw blank s
      | inr named ↦ rw named (noted-IsSound l _ at _ s)
    ]

    step-IsSound : (l : Ledger F) (c : Call F) → FeesNonneg c → IsSound l → IsSound (step l c)
    unfolding step deposit
    step-IsSound l (deposits amount at note) pay s =
        append_entry-IsSound (plain_entry at EntryKind.cash amount note) l s
    step-IsSound l (fills symbol side_qty price fees at note) pay s =
        Outcome-IsSound laws symbol side_qty price fees at note l s pay
          (record_fill-Outcome symbol side_qty price fees at note l laws pay)
    step-IsSound l (rebases who at) pay s = rebase-IsSound who at l s
    step-IsSound l (snapshots prices) pay s = snapshot-IsSound prices l s

    pub run-IsSound :
        (l : Ledger F) (cs : List (Call F)) → All FeesNonneg cs → IsSound l → IsSound (run l cs)
    unfolding run
    run-IsSound l [] pay s = s
    run-IsSound l (c ∷ cs) pay s = run-IsSound (step l c) cs pay.1 (step-IsSound l c pay.0 s)

    blank-IsSound :
        (initial_cash : F) (currency : String) → IsSound (blank_ledger initial_cash currency)
    blank-IsSound initial_cash currency = record {
      solvent = minus_tiny_nonpos;
      long = tt;
      keyed = tt;
      cash_sourced = refl;
      fees_sourced = refl;
      pnl_sourced = refl;
    }

    OpensSound : Result LedgerError (Ledger F) → Type 0
    OpensSound (ok l) = IsSound l
    OpensSound (err e) = Unit

    open_ledger-branches :
        (initial_cash : F) (currency : String) (now : ℕ)
        → open_ledger initial_cash currency now ≡ (
            if initial_cash ≤? nought
            then err not_positive
            else if nought ⊕ initial_cash <? minus_tiny
            then err negative_cash
            else ok (
                booked
                  (plain_entry now EntryKind.cash initial_cash "initial funding")
                  (blank_ledger initial_cash currency)))
    unfolding open_ledger deposit append_entry
    open_ledger-branches initial_cash currency now = ground arith

    open-OpensSound :
        (initial_cash : F) (currency : String) (now : ℕ)
        → OpensSound (open_ledger initial_cash currency now)
    unfolding OpensSound
    open-OpensSound initial_cash currency now =
        let en : LedgerEntry F = plain_entry now EntryKind.cash initial_cash "initial funding" in
        let blank : Ledger F = blank_ledger initial_cash currency in
        rw (open_ledger-branches initial_cash currency now)
          (elim (Bool-cases (initial_cash ≤? nought)) [
            | inl bad ↦ rw bad tt
            | inr positive ↦ elim (Bool-cases (nought ⊕ initial_cash <? minus_tiny)) [
              | inl short ↦ rw (positive, short) tt
              | inr covered ↦
                  rw (positive, covered)
                    (booked-IsSound en blank
                      (le_of_not_lt (nought ⊕ initial_cash) minus_tiny covered)
                      (blank-IsSound initial_cash currency))
            ]
          ])

    -- After any calls with fees that are not negative on a ledger that was opened with any cash: cash is
    -- not below -1e-9; every lot held is longer than 0, and no symbol is held twice; and cash, fees and
    -- realized profit are the sums, taken in order, of the entry log.
    pub run_open-IsSound :
        (initial_cash : F) (currency : String) (now : ℕ) {l : Ledger F} (cs : List (Call F))
        → All FeesNonneg cs
        → open_ledger initial_cash currency now ≡ ok l
        → IsSound (run l cs)
    unfolding OpensSound
    run_open-IsSound initial_cash currency now {l} cs pay e =
        run-IsSound l cs pay (rw e at (open-OpensSound initial_cash currency now))
