-- ===== src/Integrity.antt =====
-- The data integrity engine (services/data_validation/integrity.py). The texts of the details are left out;
-- instants and durations are numbers of microseconds.
pub mod Clean
use autonomous_quant_tra.Base.{
  ℕ, ◌+◌, String, Bool, true, false, not, ◌&&◌, ◌||◌, Option, none, some, List, [], ◌∷◌, ◌++◌, map,
  sorted, contains, ltb, eqb, ◌==◌, if◌then◌else◌, string_eq, nat_eq,
}
use autonomous_quant_tra.Float.{Float, ◌⊕◌, ◌⊖◌, ◌⊘◌, ◌<?◌, ◌≤?◌, nought, abs}
use autonomous_quant_tra.Risk.{DataHealth, healthy, degraded, halt_entries}
use autonomous_quant_tra.Sizing.{Quote}
use autonomous_quant_tra.LossControl.{Bar}

pub data Severity : Type 0 where
  warning critical : Severity

pub record IntegrityIssue : Type 0 where
  pub check : String
  pub severity : Severity
  pub symbol : String

pub record DataIntegrityEngine (F : Type 0) : Type 0 where
  pub max_daily_move : F
  pub stale_after : ℕ
  pub max_volume : ℕ
  pub issues : List IntegrityIssue

-- `if failed: self._add(...)`
abbrev pub note_if : Bool → String → Severity → String → List IntegrityIssue
note_if true check severity symbol =
    (record { check = check; severity = severity; symbol = symbol }) ∷ []
note_if false check severity symbol = []

abbrev pub same_list : List ℕ → List ℕ → Bool
same_list [] [] = true
same_list [] (y ∷ ys) = false
same_list (x ∷ xs) [] = false
same_list (x ∷ xs) (y ∷ ys) = eqb x y && same_list xs ys

abbrev pub is_critical : IntegrityIssue → Bool
is_critical i = elim i.severity [ warning ↦ false | critical ↦ true ]

abbrev pub any_critical : List IntegrityIssue → Bool
any_critical [] = false
any_critical (i ∷ issues) = is_critical i || any_critical issues

module _ {F : Type 0} ⦃fl : Float F⦄ where
  -- The issues that a call adds, which it returns.
  abbrev pub add_all :
      List IntegrityIssue → DataIntegrityEngine F → List IntegrityIssue × DataIntegrityEngine F
  add_all found e = (found, record e { issues = e.issues ++ found })

  unfoldable pub extreme : DataIntegrityEngine F → Option F → F → Bool
  extreme e none close = false
  extreme e (some prev_close) close =
      (nought <? prev_close) && (e.max_daily_move <? abs (close ⊖ prev_close) ⊘ prev_close)

  -- One round of the loop.
  unfoldable pub bar_issues :
      DataIntegrityEngine F → String → List ℕ → Option F → Bar F → List IntegrityIssue
  bar_issues e symbol seen_ts prev_close b =
      note_if (not (b.symbol == symbol)) "symbol_mismatch" critical symbol
      ++ (note_if (contains b.ts seen_ts) "duplicate_data" warning symbol
          ++ (note_if (extreme e prev_close b.close) "extreme_price" critical symbol
              ++ note_if (ltb e.max_volume b.volume) "impossible_volume" critical symbol))

  unfoldable pub bars_issues :
      DataIntegrityEngine F → String → List ℕ → Option F → List (Bar F) → List IntegrityIssue
  bars_issues e symbol seen_ts prev_close [] = []
  bars_issues e symbol seen_ts prev_close (b ∷ bars) =
      bar_issues e symbol seen_ts prev_close b
      ++ bars_issues e symbol (b.ts ∷ seen_ts) (some b.close) bars

  abbrev pub times : List (Bar F) → List ℕ
  times [] = []
  times (b ∷ bars) = b.ts ∷ times bars

  unfoldable pub found_in : DataIntegrityEngine F → String → List (Bar F) → List IntegrityIssue
  found_in e symbol [] = note_if true "missing_data" critical symbol
  found_in e symbol (b ∷ bars) =
      bars_issues e symbol [] none (b ∷ bars)
      ++ note_if (not (same_list (times (b ∷ bars)) (sorted ltb (times (b ∷ bars)))))
          "timestamp_anomaly" critical symbol

  unfoldable pub validate_bars :
      String → List (Bar F) → DataIntegrityEngine F → List IntegrityIssue × DataIntegrityEngine F
  validate_bars symbol bars e = add_all (found_in e symbol bars) e

  -- `Quote.crossed`
  abbrev pub crossed : Quote F → Bool
  crossed q = q.ask <? q.bid

  unfoldable pub validate_quote :
      Quote F → ℕ → DataIntegrityEngine F → List IntegrityIssue × DataIntegrityEngine F
  validate_quote q now e =
      add_all
        (note_if (crossed q) "bid_gt_ask" critical q.symbol
          ++ (note_if (ltb (q.ts + e.stale_after) now) "stale_feed" critical q.symbol
              ++ note_if (ltb now q.ts) "timestamp_anomaly" critical q.symbol))
        e

  unfoldable pub disagree : F → F → F → Bool
  disagree primary_px secondary_px tolerance =
      if (primary_px ≤? nought) || (secondary_px ≤? nought)
      then false
      else tolerance <? abs (primary_px ⊖ secondary_px) ⊘ primary_px

  unfoldable pub check_secondary_disagreement :
      String → F → F → F → DataIntegrityEngine F → DataIntegrityEngine F
  check_secondary_disagreement symbol primary_px secondary_px tolerance e =
      (add_all
        (note_if (disagree primary_px secondary_px tolerance) "secondary_source_disagreement"
          critical symbol)
        e).1

  unfoldable pub health : DataIntegrityEngine F → DataHealth
  health e =
      if any_critical e.issues
      then halt_entries
      else elim e.issues [ [] ↦ healthy | i ∷ issues ↦ degraded ]

  unfoldable pub clear_resolved : DataIntegrityEngine F → DataIntegrityEngine F
  clear_resolved e = record e { issues = [] }
