-- ===== src/Ledger/Snapshot.antt =====
-- The high-water mark.
use autonomous_quant_tra.Base.{ℕ, ◌≡◌, String, true, List, [], ◌∷◌, arith, All}
use autonomous_quant_tra.Dict.{Dict}
use autonomous_quant_tra.Exec.{ok}
use autonomous_quant_tra.Text.{is_blank}
use autonomous_quant_tra.Float.{Float, ◌≼◌, nought}
use autonomous_quant_tra.Float.Order.{le_refl}
use autonomous_quant_tra.Ledger.{
  Ledger, LedgerEntry, EquitySnapshot, append_entry, record_fill, deposit, rebase_high_water_mark,
  snapshot, equity,
}
use autonomous_quant_tra.Ledger.Calls.{Call, deposits, fills, rebases, snapshots, step, run}

module _ {F : Type 0} ⦃fl : Float F⦄ where
  -- Only a named human lowers the mark.
  abbrev pub KeepsMark : Call F → Type 0
  KeepsMark (deposits amount at note) = Unit
  KeepsMark (fills symbol side_qty price fees at note) = Unit
  KeepsMark (rebases who at) = is_blank who ≡ true
  KeepsMark (snapshots prices) = Unit

  append_entry-mark :
      (en : LedgerEntry F) (l : Ledger F)
      → (append_entry en l).1.high_water_mark ≡ l.high_water_mark
  unfolding append_entry
  append_entry-mark en l = ground arith

  record_fill-mark :
      (symbol : String) (side_qty price fees : F) (at : ℕ) (note : String) (l : Ledger F)
      → (record_fill symbol side_qty price fees at note l).1.high_water_mark ≡ l.high_water_mark
  unfolding record_fill
  record_fill-mark symbol side_qty price fees at note l = ground arith

  rebase_unapproved :
      (who : String) (at : ℕ) (l : Ledger F)
      → is_blank who ≡ true
      → (rebase_high_water_mark who at l).1 ≡ l
  unfolding rebase_high_water_mark
  rebase_unapproved who at l k = ground arith

  snapshot-mark :
      (prices : Dict String F) (l : Ledger F)
      → l.high_water_mark ≼ (snapshot prices l).1.high_water_mark
  unfolding snapshot
  snapshot-mark prices l = ground arith

  step-mark :
      (l : Ledger F) (c : Call F) → KeepsMark c → l.high_water_mark ≼ (step l c).high_water_mark
  unfolding step deposit
  step-mark l (deposits amount at note) k = rw (append_entry-mark _ l) (le_refl l.high_water_mark)
  step-mark l (fills symbol side_qty price fees at note) k =
      rw (record_fill-mark symbol side_qty price fees at note l) (le_refl l.high_water_mark)
  step-mark l (rebases who at) k =
      rw (rebase_unapproved who at l k, step) (le_refl l.high_water_mark)
  step-mark l (snapshots prices) k = snapshot-mark prices l

  -- Without an approved rebase the high-water mark never falls.
  pub run-mark :
      (l : Ledger F) (cs : List (Call F))
      → All KeepsMark cs
      → l.high_water_mark ≼ (run l cs).high_water_mark
  unfolding run
  run-mark l [] k = le_refl l.high_water_mark
  run-mark l (c ∷ cs) k =
      let later = run-mark (step l c) cs k.1 in let now = step-mark l c k.0 in omega arith

  -- A snapshot that succeeds reports the equity at the given prices. The mark it reports is the one it
  -- leaves, not below the equity nor below the earlier mark; the drawdown is not negative; and nothing
  -- else in the ledger changes.
  pub snapshot_bounds :
      (prices : Dict String F) (l l' : Ledger F) (s : EquitySnapshot F)
      → snapshot prices l ≡ (ok s, l')
      → (equity prices l ≡ ok s.equity)
        × (s.equity ≼ s.high_water_mark)
        × (l.high_water_mark ≼ s.high_water_mark)
        × (nought ≼ s.drawdown)
        × (l' ≡ record l { high_water_mark = s.high_water_mark })
  unfolding snapshot
  snapshot_bounds prices l l' s e = ground arith
