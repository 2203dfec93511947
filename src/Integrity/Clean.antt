-- ===== src/Integrity/Clean.antt =====
-- What a series of bars without issues is.
use autonomous_quant_tra.Base.{
  ℕ, ◌≡◌, ◌≤◌, refl, sym as symm, ap, ◌∙◌, inl, inr, ◌⊎◌, String, Bool, true, false, not, Option,
  none, some, List, [], ◌∷◌, ◌++◌, sorted, insert_sorted, contains, ltb, string_eq, nat_eq, arith,
  Bool-cases, ◌==◌, eq_iff, eqb_iff, ◌≢◌,
}
use mathlib.Core.Path.{subst}
use mathlib.Core.List.{append-nil}
use autonomous_quant_tra.Float.Order.{le_of_not_lt}
use autonomous_quant_tra.Float.{Float, ◌⊖◌, ◌⊘◌, ◌≼◌, ◌<?◌, nought, abs}
use autonomous_quant_tra.LossControl.{Bar}
use autonomous_quant_tra.Reconciliation.Laws.{append-nil_left, append-nil_right}
use autonomous_quant_tra.Integrity.{
  DataIntegrityEngine, Severity, critical, warning, note_if, same_list, extreme, bar_issues,
  bars_issues, times, found_in, validate_bars,
}

-- Each number is at most the one after it.
abbrev pub Ascending : List ℕ → Type 0
Ascending [] = Unit
Ascending (x ∷ []) = Unit
Ascending (x ∷ y ∷ ys) = (x ≤ y) × Ascending (y ∷ ys)

insert_sorted-Ascending : (x : ℕ) (ys : List ℕ) → Ascending ys → Ascending (insert_sorted ltb x ys)
insert_sorted-Ascending x [] h = tt
insert_sorted-Ascending x (y ∷ []) h = ground arith
insert_sorted-Ascending x (y ∷ z ∷ ys) h = ground (arith, insert_sorted-Ascending x (z ∷ ys) h.1)

sorted-Ascending : (xs : List ℕ) → Ascending (sorted ltb xs)
sorted-Ascending [] = tt
sorted-Ascending (x ∷ xs) = insert_sorted-Ascending x (sorted ltb xs) (sorted-Ascending xs)

same_list-eq : (xs ys : List ℕ) → same_list xs ys ≡ true → xs ≡ ys
same_list-eq [] [] h = refl
same_list-eq [] (y ∷ ys) h = absurd (ground arith)
same_list-eq (x ∷ xs) [] h = absurd (ground arith)
same_list-eq (x ∷ xs) (y ∷ ys) h = ground (arith, same_list-eq xs ys, eqb_iff x y)

note_if-nil :
    (failed : Bool) (check : String) (severity : Severity) (symbol : String)
    → note_if failed check severity symbol ≡ []
    → failed ≡ false
note_if-nil true check severity symbol h = absurd (cc)
note_if-nil false check severity symbol h = refl

module _ {F : Type 0} ⦃fl : Float F⦄ (e : DataIntegrityEngine F) (symbol : String) where
  abbrev pub Near : Option F → F → Type 0
  Near none close = Unit
  Near (some prev_close) close =
      (prev_close ≼ nought) ⊎ (abs (close ⊖ prev_close) ⊘ prev_close ≼ e.max_daily_move)

  -- Every bar is of the symbol, at an instant of its own, near the close before it, and of a possible volume.
  abbrev pub CleanAfter : List ℕ → Option F → List (Bar F) → Type 0
  CleanAfter seen_ts prev_close [] = Unit
  CleanAfter seen_ts prev_close (b ∷ bars) =
      ((b.symbol ≡ symbol)
        × (contains b.ts seen_ts ≡ false)
        × Near prev_close b.close
        × (b.volume ≤ e.max_volume))
      × CleanAfter (b.ts ∷ seen_ts) (some b.close) bars

  extreme-Near :
      (prev_close : Option F) (close : F)
      → extreme e prev_close close ≡ false
      → Near prev_close close
  unfolding extreme
  extreme-Near none close h = tt
  extreme-Near (some prev_close) close h = elim (Bool-cases (nought <? prev_close)) [
    | inr low ↦ inl (le_of_not_lt nought prev_close low)
    | inl positive ↦ inr (ground arith)
  ]

  bar_issues-clean :
      (seen_ts : List ℕ) (prev_close : Option F) (b : Bar F)
      → bar_issues e symbol seen_ts prev_close b ≡ []
      → (b.symbol ≡ symbol)
        × (contains b.ts seen_ts ≡ false)
        × Near prev_close b.close
        × (b.volume ≤ e.max_volume)
  unfolding bar_issues
  bar_issues-clean seen_ts prev_close b h =
      let other = note_if (not (b.symbol == symbol)) "symbol_mismatch" critical symbol in
      let again = note_if (contains b.ts seen_ts) "duplicate_data" warning symbol in
      let far = note_if (extreme e prev_close b.close) "extreme_price" critical symbol in
      let much = note_if (ltb e.max_volume b.volume) "impossible_volume" critical symbol in
      let h_rest = append-nil_right other (again ++ (far ++ much)) h in
      let h_last = append-nil_right again (far ++ much) h_rest in
      let own = note_if-nil _ _ _ _ (append-nil_left other (again ++ (far ++ much)) h) in
      let room = note_if-nil _ _ _ _ (append-nil_right far much h_last) in
      (
        (eq_iff b.symbol symbol).0 (ground arith),
        note_if-nil _ _ _ _ (append-nil_left again (far ++ much) h_rest),
        extreme-Near prev_close b.close (note_if-nil _ _ _ _ (append-nil_left far much h_last)),
        ground arith,
      )

  bars_issues-CleanAfter :
      (seen_ts : List ℕ) (prev_close : Option F) (bars : List (Bar F))
      → bars_issues e symbol seen_ts prev_close bars ≡ []
      → CleanAfter seen_ts prev_close bars
  unfolding bars_issues
  bars_issues-CleanAfter seen_ts prev_close [] h = tt
  bars_issues-CleanAfter seen_ts prev_close (b ∷ bars) h =
      let first = bar_issues e symbol seen_ts prev_close b in
      let rest = bars_issues e symbol (b.ts ∷ seen_ts) (some b.close) bars in
      (
        bar_issues-clean seen_ts prev_close b (append-nil_left first rest h),
        bars_issues-CleanAfter (b.ts ∷ seen_ts) (some b.close) bars (append-nil_right first rest h),
      )

  found_in-Clean :
      (bars : List (Bar F))
      → found_in e symbol bars ≡ []
      → (bars ≢ []) × Ascending (times bars) × CleanAfter [] none bars
  unfolding found_in
  found_in-Clean [] h = absurd (cc)
  found_in-Clean (b ∷ bars) h =
      let all = b ∷ bars in
      let each = bars_issues e symbol [] none all in
      let disordered = not (same_list (times all) (sorted ltb (times all))) in
      let late = note_if disordered "timestamp_anomaly" critical symbol in
      let in_order = note_if-nil disordered _ _ _ (append-nil_right each late h) in
      let same : times all ≡ sorted ltb (times all) =
        same_list-eq (times all) (sorted ltb (times all)) (ground arith) in
      (
        λ q. absurd (cc),
        subst Ascending (symm same) (sorted-Ascending (times all)),
        bars_issues-CleanAfter [] none all (append-nil_left each late h),
      )

  -- Bars in which no issue is found are a series: at least one bar, in the order of time with no instant twice,
  -- all of the symbol, each volume possible, and each close within the largest daily move of the close before
  -- it (where that is above 0). Nothing is then added to the engine's issues.
  pub validate_bars-Clean :
      (bars : List (Bar F)) {after : DataIntegrityEngine F}
      → validate_bars symbol bars e ≡ ([], after)
      → (bars ≢ []) × Ascending (times bars) × CleanAfter [] none bars × (after.issues ≡ e.issues)
  unfolding validate_bars
  validate_bars-Clean bars h =
      let none_found : found_in e symbol bars ≡ [] = ap (λ r. r.0) h in
      let (some_bars, ascending, clean) = found_in-Clean bars none_found in
      (
        some_bars,
        ascending,
        clean,
        symm (ap (λ r. r.1.issues) h)
            ∙ ap (λ found. e.issues ++ found) none_found
            ∙ append-nil e.issues,
      )
