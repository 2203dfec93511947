-- ===== src/Allocation.antt =====
-- The capital allocation engine (services/capital_allocation/engine.py). A candidate is a sized proposal
-- beside the expected return range of its decision; the texts of a refusal are left out.
use autonomous_quant_tra.Base.{
  Option, none, some, ◌≡◌, refl, Bool, List, [], ◌∷◌, ◌++◌, sorted, if◌then◌else◌, arith,
}
use mathlib.Core.List.{Permᴰ}
use mathlib.Core.List.Permᴰ
use autonomous_quant_tra.Base.Permuted.{sorted-Permᴰ}
use autonomous_quant_tra.Int.{pos}
use autonomous_quant_tra.Float.{Float, ◌⊕◌, ◌⊖◌, ◌⊗◌, ◌⊘◌, ◌<?◌, ◌≼◌, tiny}
use autonomous_quant_tra.Risk.{RiskConfig}
use autonomous_quant_tra.Sizing.{SizedProposal}

pub record Candidate (F : Type 0) : Type 0 where
  pub sized : SizedProposal F
  pub return_low : F
  pub return_high : F

pub data SkipReason : Type 0 where
  insufficient_settled_cash exposure_cap_reached : SkipReason

pub record AllocationResult (F : Type 0) : Type 0 where
  pub accepted : List (Candidate F)
  pub skipped : List (Candidate F × SkipReason)

module _ {F : Type 0} ⦃fl : Float F⦄ where
  unfoldable pub edge : Candidate F → F
  edge c = c.sized.calibrated_confidence ⊗ (c.return_low ⊕ c.return_high) ⊘ fl.decimal (pos 2) 0

  -- `sorted(candidates, key=edge, reverse=True)` is stable too.
  abbrev pub better : Candidate F → Candidate F → Bool
  better c d = edge d <? edge c

  abbrev pub note : Candidate F → Option SkipReason → AllocationResult F → AllocationResult F
  note c none r = record r { accepted = c ∷ r.accepted }
  note c (some reason) r = record r { skipped = (c, reason) ∷ r.skipped }

  -- What an accepted candidate takes from the cash, and adds to the exposure.
  abbrev pub cash_after : Option SkipReason → F → F → F
  cash_after none cash_left notional = cash_left ⊖ notional
  cash_after (some reason) cash_left notional = cash_left

  abbrev pub exposure_after : Option SkipReason → F → F → F
  exposure_after none exposure notional = exposure ⊕ notional
  exposure_after (some reason) exposure notional = exposure

  module _ (max_total : F) where
    unfoldable pub judge : F → F → F → Option SkipReason
    judge cash_left exposure notional =
        if cash_left ⊕ tiny <? notional
        then some insufficient_settled_cash
        else if max_total ⊕ tiny <? exposure ⊕ notional
        then some exposure_cap_reached
        else none

    -- The loop, by the cash that is left and the exposure before each candidate.
    unfoldable pub fund : F → F → List (Candidate F) → AllocationResult F
    fund cash_left exposure [] = record { accepted = []; skipped = [] }
    fund cash_left exposure (c ∷ ranked) =
        let notional = c.sized.notional in
        let verdict = judge cash_left exposure notional in
        note c verdict (
          fund (cash_after verdict cash_left notional) (exposure_after verdict exposure notional)
            ranked)

  unfoldable pub allocate : RiskConfig F → List (Candidate F) → F → F → F → AllocationResult F
  allocate config candidates equity settled_cash current_exposure_notional =
      fund (equity ⊗ config.max_total_exposure_pct ⊗ config.exposure_cap_stage) settled_cash
        current_exposure_notional (sorted better candidates)

  -- Each in its turn is covered by the cash that is left and keeps the exposure within the cap.
  abbrev pub Fits : F → F → F → List (Candidate F) → Type 0
  Fits max_total cash_left exposure [] = Unit
  Fits max_total cash_left exposure (c ∷ cs) =
      ((c.sized.notional ≼ cash_left ⊕ tiny) × (exposure ⊕ c.sized.notional ≼ max_total ⊕ tiny))
      × Fits max_total (cash_left ⊖ c.sized.notional) (exposure ⊕ c.sized.notional) cs

  abbrev pub skipped_candidates : List (Candidate F × SkipReason) → List (Candidate F)
  skipped_candidates [] = []
  skipped_candidates ((c, reason) ∷ cs) = c ∷ skipped_candidates cs

  module _ (max_total : F) where
    judge_none :
        (cash_left exposure notional : F)
        → judge max_total cash_left exposure notional ≡ none
        → (notional ≼ cash_left ⊕ tiny) × (exposure ⊕ notional ≼ max_total ⊕ tiny)
    unfolding judge
    judge_none cash_left exposure notional h = ground arith

    -- Every candidate is accepted or skipped, and what is accepted fits.
    abbrev pub IsFunded : F → F → List (Candidate F) → AllocationResult F → Type 0
    IsFunded cash_left exposure candidates r =
        Fits max_total cash_left exposure r.accepted
        × Permᴰ candidates (r.accepted ++ skipped_candidates r.skipped)

    note-IsFunded :
        (c : Candidate F) (verdict : Option SkipReason) (cash_left exposure : F)
        (ranked : List (Candidate F)) (r : AllocationResult F)
        → judge max_total cash_left exposure c.sized.notional ≡ verdict
        → IsFunded
            (cash_after verdict cash_left c.sized.notional)
            (exposure_after verdict exposure c.sized.notional)
            ranked
            r
        → IsFunded cash_left exposure (c ∷ ranked) (note c verdict r)
    note-IsFunded c none cash_left exposure ranked r h (fits, all) =
        ((judge_none cash_left exposure c.sized.notional h, fits), Permᴰ.cons refl all)
    note-IsFunded c (some reason) cash_left exposure ranked r h (fits, all) = (
      fits,
      Permᴰ.trans (Permᴰ.cons refl all)
          (Permᴰ.symm (Permᴰ.middle c r.accepted (skipped_candidates r.skipped))),
    )

    fund-IsFunded :
        (cash_left exposure : F) (ranked : List (Candidate F))
        → IsFunded cash_left exposure ranked (fund max_total cash_left exposure ranked)
    unfolding fund
    fund-IsFunded cash_left exposure [] = (tt, Permᴰ.nil)
    fund-IsFunded cash_left exposure (c ∷ ranked) =
        let verdict = judge max_total cash_left exposure c.sized.notional in
        let cash = cash_after verdict cash_left c.sized.notional in
        let exposed = exposure_after verdict exposure c.sized.notional in
        note-IsFunded c verdict cash_left exposure ranked (fund max_total cash exposed ranked) refl
          (fund-IsFunded cash exposed ranked)

  -- Of the candidates each is accepted or skipped, once. The accepted ones, in their order, are each covered by
  -- the settled cash that those before it leave, and keep the total exposure within the cap (the configured
  -- share of the equity), both up to 1e-9.
  pub allocate-IsFunded :
      (config : RiskConfig F) (candidates : List (Candidate F))
      (equity settled_cash current_exposure_notional : F)
      → IsFunded
          (equity ⊗ config.max_total_exposure_pct ⊗ config.exposure_cap_stage)
          settled_cash
          current_exposure_notional
          candidates
          (allocate config candidates equity settled_cash current_exposure_notional)
  unfolding allocate
  allocate-IsFunded config candidates equity settled_cash current_exposure_notional =
      let max_total = equity ⊗ config.max_total_exposure_pct ⊗ config.exposure_cap_stage in
      let (fits, all) =
        fund-IsFunded max_total settled_cash current_exposure_notional (sorted better candidates) in
      (fits, Permᴰ.trans (sorted-Permᴰ better candidates) all)
