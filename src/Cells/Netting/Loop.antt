-- ===== src/Cells/Netting/Loop.antt =====
-- The matching loop ends.
use autonomous_quant_tra.Base.{
  ℕ, suc, zero, ◌+◌, ◌≤◌, ◌≡◌, ◌⊎◌, refl, inl, inr, String, Option, some, List, [], ◌∷◌, length,
  arith, Bool-cases,
}
use autonomous_quant_tra.Float.{Float, IsFloat, ◌⊖◌, ◌<?◌, ◌≼◌, tiny, min}
use autonomous_quant_tra.Cells.{CellOrderIntent}
use autonomous_quant_tra.Cells.Netting.{
  Open, Matched, NettingEngine, still_open, after_round, cross_of, cross_loop, cross_all, untouched,
}

module _ {F : Type 0} ⦃fl : Float F⦄ where
  still_open-length :
      (i : CellOrderIntent F) (left : F) (rest : List (Open F))
      → length (still_open (i, left) rest) ≤ suc (length rest)
  still_open-length i left rest = ground arith

  still_open_passed :
      (i : CellOrderIntent F) (left : F) (rest : List (Open F))
      → left ≼ tiny
      → still_open (i, left) rest ≡ rest
  still_open_passed i left rest h = ground arith

  untouched-length :
      (intents : List (CellOrderIntent F)) → length (untouched intents) ≡ length intents
  untouched-length [] = refl
  untouched-length (i ∷ intents) = omega (arith, untouched-length intents)

  after_round_returns :
      (engine : NettingEngine F) (symbol : String) (b s : CellOrderIntent F) (x y qty : F)
      (m : Option (Matched F))
      → ((found : Matched F) × (m ≡ some found))
      → (found : Matched F) × (after_round (cross_of engine symbol b s qty) (b, x) (s, y) m
          ≡ some found)
  after_round_returns engine symbol b s x y qty m (found, h) = rw h (_, refl)

  module _ (laws : IsFloat F) (engine : NettingEngine F) (symbol : String) where
    -- One of the two that a round matches has nothing left.
    one_exhausted : (x y : F) → (x ⊖ min x y ≼ tiny) ⊎ (y ⊖ min x y ≼ tiny)
    one_exhausted x y = elim (Bool-cases (y <? x)) [
      | inl less ↦ rw less (inr (rw (laws.sub_self y) laws.tiny_nonneg))
      | inr other ↦ rw other (inl (rw (laws.sub_self x) laws.tiny_nonneg))
    ]

    round_shorter :
        (b s : CellOrderIntent F) (x y : F) (buys sells : List (Open F))
        → suc
            (length (still_open (b, x ⊖ min x y) buys) + length (still_open (s, y ⊖ min x y) sells))
          ≤ suc (length buys) + suc (length sells)
    round_shorter b s x y buys sells =
        let bought = still_open-length b (x ⊖ min x y) buys in
        let sold = still_open-length s (y ⊖ min x y) sells in
        elim (one_exhausted x y) [
          | inl h ↦ let same = still_open_passed b (x ⊖ min x y) buys h in rw same (omega arith)
          | inr h ↦ let same = still_open_passed s (y ⊖ min x y) sells h in rw same (omega arith)
        ]

    cross_loop_returns :
        (fuel : ℕ) (buys sells : List (Open F))
        → length buys + length sells ≤ fuel
        → (m : Matched F) × (cross_loop engine symbol fuel buys sells ≡ some m)
    unfolding cross_loop
    cross_loop_returns fuel [] sells h = (_, refl)
    cross_loop_returns zero (b ∷ buys) [] h = absurd (omega arith)
    cross_loop_returns (suc fuel) (b ∷ buys) [] h = (_, refl)
    cross_loop_returns zero (b ∷ buys) (s ∷ sells) h = absurd (omega arith)
    cross_loop_returns (suc fuel) ((b, x) ∷ buys) ((s, y) ∷ sells) h =
        let shorter = round_shorter b s x y buys sells in
        after_round_returns engine symbol b s (x ⊖ min x y) (y ⊖ min x y) (min x y)
          (cross_loop engine symbol fuel (still_open (b, x ⊖ min x y) buys)
            (still_open (s, y ⊖ min x y) sells))
          (cross_loop_returns fuel (still_open (b, x ⊖ min x y) buys)
            (still_open (s, y ⊖ min x y) sells) (omega arith))

    -- The matching of a symbol's purchases with its sales always ends, after at most as many rounds as there
    -- are intents: every round uses one of them up.
    pub cross_all_ends :
        (buys sells : List (CellOrderIntent F))
        → (m : Matched F) × (cross_all engine symbol buys sells ≡ some m)
    unfolding cross_all
    cross_all_ends buys sells =
        let bought = untouched-length buys in
        let sold = untouched-length sells in
        cross_loop_returns (length buys + length sells) (untouched buys) (untouched sells)
          (omega arith)
