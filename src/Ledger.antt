-- ===== src/Ledger.antt =====
-- The accounting ledger (packages/common/ledger.py): cash, positions and the append-only entry log.
-- `entry_id`, a random UUID that nothing reads, is left out. `at` is the instant of the call, in
-- microseconds.
pub mod Fill
pub mod Invariant
pub mod Moves
pub mod Calls
pub mod Snapshot
use autonomous_quant_tra.Base.{
  ℕ, String, Bool, true, false, not, ◌||◌, Option, none, some, List, [], ◌∷◌, ◌++◌, if◌then◌else◌,
  string_eq,
}
use autonomous_quant_tra.Text.{concat, is_blank, or_text}
use autonomous_quant_tra.Dict.{Dict, lookup, insert, erase}
use autonomous_quant_tra.Exec.{
  Exec, Result, ok, err, pure, raise, gets, raise_if, modify, ◌>>=◌, ◌>>◌,
}
use autonomous_quant_tra.Int.{pos}
use autonomous_quant_tra.Float.{
  Float, ◌⊕◌, ◌⊖◌, ◌⊗◌, ◌⊘◌, minus, ◌<?◌, ◌≤?◌, truthy, nought, one, tiny, minus_tiny, max,
}

pub data EntryKind : Type 0 where
  cash trade fee dividend fx corporate_action : EntryKind

pub record LedgerEntry (F : Type 0) : Type 0 where
  pub at : ℕ
  pub kind : EntryKind
  pub amount : F
  pub symbol : Option String
  pub qty : F
  pub price : F
  pub realized_pnl : F
  pub note : String

pub record PositionLot (F : Type 0) : Type 0 where
  pub symbol : String
  pub qty : F
  pub avg_cost : F

pub record Ledger (F : Type 0) : Type 0 where
  pub currency : String
  pub entries : List (LedgerEntry F)
  pub cash : F
  pub positions : Dict String (PositionLot F)
  pub realized_pnl : F
  pub fees_paid : F
  pub initial_cash : F
  pub high_water_mark : F

pub data LedgerError : Type 0 where
  not_positive negative_cash short_selling zero_division no_approver no_mark : LedgerError

pub record EquitySnapshot (F : Type 0) : Type 0 where
  pub cash : F
  pub positions_value : F
  pub equity : F
  pub high_water_mark : F
  pub drawdown : F

-- What `record_fill` computes before it touches any state: the lot to store (`none` removes it) and
-- the realized profit.
abbrev pub Planned : Type 0 → Type 0
Planned F = Option (PositionLot F) × F

module _ {F : Type 0} ⦃fl : Float F⦄ where
  abbrev pub plain_entry : ℕ → EntryKind → F → String → LedgerEntry F
  plain_entry at kind amount note = record {
    at = at;
    kind = kind;
    amount = amount;
    symbol = none;
    qty = nought;
    price = nought;
    realized_pnl = nought;
    note = note;
  }

  -- `-entry.amount if entry.kind is EntryKind.FEE else 0.0`
  abbrev pub fee_of : LedgerEntry F → F
  fee_of en = elim en.kind [ fee ↦ minus en.amount | _ ↦ nought ]

  -- `_append`
  unfoldable pub append_entry : LedgerEntry F → Exec LedgerError (Ledger F) Unit
  append_entry en = do
    candidate_cash ← gets (λ l. l.cash ⊕ en.amount)
    raise_if (candidate_cash <? minus_tiny) negative_cash
    modify (λ l. record l {
      entries = l.entries ++ en ∷ [];
      cash = candidate_cash;
      fees_paid = l.fees_paid ⊕ fee_of en;
      realized_pnl = l.realized_pnl ⊕ en.realized_pnl;
    })

  unfoldable pub deposit : F → ℕ → String → Exec LedgerError (Ledger F) Unit
  deposit amount at note = append_entry (plain_entry at EntryKind.cash amount note)

  abbrev pub blank_ledger : F → String → Ledger F
  blank_ledger initial_cash currency = record {
    currency = currency;
    entries = [];
    cash = nought;
    positions = [];
    realized_pnl = nought;
    fees_paid = nought;
    initial_cash = initial_cash;
    high_water_mark = initial_cash;
  }

  -- `Ledger(initial_cash, currency)`, at the instant `now`
  unfoldable pub open_ledger : F → String → ℕ → Result LedgerError (Ledger F)
  open_ledger initial_cash currency now =
      if initial_cash ≤? nought
      then err not_positive
      else (let (r, l) =
            deposit initial_cash now "initial funding" (blank_ledger initial_cash currency) in
          elim r [ ok u ↦ ok l | err e ↦ err e ])

  -- `side_qty > 0`
  unfoldable pub plan_buy : String → F → F → Option (PositionLot F) → Result LedgerError (Planned F)
  plan_buy symbol side_qty price lot =
      let held : F × F = elim lot [
        | none ↦ (nought, nought)
        | some l ↦ (l.qty, l.qty ⊗ l.avg_cost)
      ] in
      let new_qty = held.0 ⊕ side_qty in
      let new_cost = (held.1 ⊕ side_qty ⊗ price) ⊘ new_qty in
      if not (truthy new_qty)
      then err zero_division
      else ok (some (record { symbol = symbol; qty = new_qty; avg_cost = new_cost }), nought)

  unfoldable pub plan_sell :
      String → F → F → Option (PositionLot F) → Result LedgerError (Planned F)
  plan_sell symbol sell_qty price none = err short_selling
  plan_sell symbol sell_qty price (some lot) =
      let realized = (price ⊖ lot.avg_cost) ⊗ sell_qty in
      let remaining = lot.qty ⊖ sell_qty in
      if lot.qty ⊕ tiny <? sell_qty
      then err short_selling
      else if remaining ≤? tiny
      then ok (none, realized)
      else ok
          (some (record { symbol = symbol; qty = remaining; avg_cost = lot.avg_cost }), realized)

  unfoldable pub plan : String → F → F → Option (PositionLot F) → Result LedgerError (Planned F)
  unfolding plan_buy plan_sell
  plan symbol side_qty price lot =
      if nought <? side_qty
      then plan_buy symbol side_qty price lot
      else plan_sell symbol (minus side_qty) price lot

  abbrev pub store_lot :
      String → Option (PositionLot F) → Dict String (PositionLot F) → Dict String (PositionLot F)
  store_lot symbol none positions = erase symbol positions
  store_lot symbol (some lot) positions = insert symbol lot positions

  abbrev pub trade_entry : ℕ → String → F → F → F → F → String → LedgerEntry F
  trade_entry at symbol side_qty price trade_amount realized note = record {
    at = at;
    kind = trade;
    amount = trade_amount;
    symbol = some symbol;
    qty = side_qty;
    price = price;
    realized_pnl = realized;
    note = note;
  }

  abbrev pub fee_entry : ℕ → String → F → String → LedgerEntry F
  fee_entry at symbol fees note = record {
    at = at;
    kind = fee;
    amount = minus fees;
    symbol = some symbol;
    qty = nought;
    price = nought;
    realized_pnl = nought;
    note = concat ("fees for " ∷ or_text note symbol ∷ []);
  }

  abbrev pub lift : {A : Type 0} → Result LedgerError A → Exec LedgerError (Ledger F) A
  lift r l = (r, l)

  unfoldable pub record_fill : String → F → F → F → ℕ → String → Exec LedgerError (Ledger F) Unit
  unfolding append_entry
  record_fill symbol side_qty price fees at note = do
    lot ← gets (λ l. lookup symbol l.positions)
    planned ← lift (plan symbol side_qty price lot)
    let trade_amount = minus side_qty ⊗ price
    cash_before ← gets (λ l. l.cash)
    raise_if (cash_before ⊕ trade_amount ⊖ fees <? minus_tiny) negative_cash
    modify (λ l. record l { positions = store_lot symbol planned.0 l.positions })
    append_entry (trade_entry at symbol side_qty price trade_amount planned.1 note)
    if truthy fees then append_entry (fee_entry at symbol fees note) else pure tt

  -- `rebase_high_water_mark`
  unfoldable pub rebase_high_water_mark : String → ℕ → Exec LedgerError (Ledger F) F
  rebase_high_water_mark approved_by at = do
    raise_if (is_blank approved_by) no_approver
    before ← gets (λ l. l.high_water_mark)
    modify (λ l. record l { high_water_mark = max l.cash nought })
    after ← gets (λ l. l.high_water_mark)
    let note = concat (
        "high-water mark rebased "
        ∷ fl.format before 2
        ∷ " → "
        ∷ fl.format after 2
        ∷ " by "
        ∷ approved_by
        ∷ " (§69)"
        ∷ [])
    modify (λ l. record l { entries = l.entries ++ plain_entry at EntryKind.cash nought note ∷ [] })
    pure after

  -- Views.
  unfoldable pub position_qty : String → Ledger F → F
  position_qty symbol l = elim (lookup symbol l.positions) [ none ↦ nought | some lot ↦ lot.qty ]

  add_positions : Dict String F → F → Dict String (PositionLot F) → Result LedgerError F
  add_positions prices total [] = ok total
  add_positions prices total ((sym, lot) ∷ rest) = elim (lookup sym prices) [
    | none ↦ err no_mark
    | some price ↦ add_positions prices (total ⊕ lot.qty ⊗ price) rest
  ]

  unfoldable pub positions_value : Dict String F → Ledger F → Result LedgerError F
  unfolding add_positions
  positions_value prices l = add_positions prices nought l.positions

  unfoldable pub equity : Dict String F → Ledger F → Result LedgerError F
  equity prices l = elim (positions_value prices l) [ ok v ↦ ok (l.cash ⊕ v) | err e ↦ err e ]

  -- `snapshot` raises the high-water mark to the equity it finds.
  abbrev pub drawdown_of : F → F → F
  drawdown_of eq hwm = if hwm ≤? nought then nought else max nought (one ⊖ eq ⊘ hwm)

  unfoldable pub snapshot : Dict String F → Exec LedgerError (Ledger F) (EquitySnapshot F)
  snapshot prices = do
    valued ← gets (equity prices)
    eq ← lift valued
    modify (λ l. record l {
      high_water_mark = if l.high_water_mark <? eq then eq else l.high_water_mark;
    })
    l ← gets (λ l. l)
    pure (record {
      cash = l.cash;
      positions_value = eq ⊖ l.cash;
      equity = eq;
      high_water_mark = l.high_water_mark;
      drawdown = drawdown_of eq l.high_water_mark;
    })

  -- `minimum_operable_equity`
  pub minimum_operable_equity : F → F → Bool → F → F
  minimum_operable_equity min_order_value typical_fee fractional_shares min_share_price =
      let ten : F = fl.decimal (pos 10) 0 in
      let floor = min_order_value ⊕ typical_fee ⊗ ten in
      if not fractional_shares then max floor (min_share_price ⊕ typical_fee ⊗ ten) else floor
