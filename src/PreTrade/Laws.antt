-- ===== src/PreTrade/Laws.antt =====
-- The reviews that wait for a human.
use autonomous_quant_tra.Base.{
  ◌≡◌, refl, inl, inr, String, false, Option, none, some, List, [], ◌∷◌, keep, ◌==◌, if◌then◌else◌,
  string_eq, nat_eq, arith, Bool-cases,
}
use autonomous_quant_tra.Exec.{Result, ok, err}
use autonomous_quant_tra.PreTrade.{
  kind_eq, HumanReviewItem, PreTradeAuditLog, LogError, is_pending, resolve_first, later, requeued,
  resolve_human_review, pending_human_reviews,
}

module _ {F : Type 0} where
  -- A list less its first item of the order, or nothing if it has none.
  abbrev pub without_first : String → List (HumanReviewItem F) → Option (List (HumanReviewItem F))
  without_first client_order_id [] = none
  without_first client_order_id (i ∷ items) =
      let rest = without_first client_order_id items in
      if i.client_order_id == client_order_id then some items else later i rest

  abbrev pub pending_in : Option (List (HumanReviewItem F)) → Option (List (HumanReviewItem F))
  pending_in none = none
  pending_in (some items) = some (keep is_pending items)

  abbrev pub pending_after :
      Result LogError (PreTradeAuditLog F) → Option (List (HumanReviewItem F))
  pending_after (err e) = none
  pending_after (ok log) = some (pending_human_reviews log)

  later-pending :
      (i : HumanReviewItem F) (rest : Option (List (HumanReviewItem F)))
      → pending_in (later i rest)
        ≡ (if is_pending i then later i (pending_in rest) else pending_in rest)
  later-pending i none = ground arith
  later-pending i (some items) = elim (Bool-cases (is_pending i)) [
    | inl open_ ↦ rw open_ refl
    | inr done ↦ rw done refl
  ]

  requeued-pending :
      (log : PreTradeAuditLog F) (found : Option (List (HumanReviewItem F)))
      → pending_after (requeued log found) ≡ pending_in found
  unfolding pending_human_reviews
  requeued-pending log none = refl
  requeued-pending log (some items) = refl

  module _ (client_order_id resolved_by resolution : String)
      (given : (resolution == "") ≡ false) where
    resolve_first-pending :
        (items : List (HumanReviewItem F))
        → pending_in (resolve_first client_order_id resolved_by resolution items)
          ≡ without_first client_order_id (keep is_pending items)
    resolve_first-pending [] = refl
    resolve_first-pending (i ∷ items) = elim (Bool-cases (i.client_order_id == client_order_id)) [
      | inl mine ↦ elim (Bool-cases (is_pending i)) [
        | inl open_ ↦ rw (open_, mine, given) refl
        | inr done ↦ rw (done, mine, later-pending i _, done, resolve_first-pending items) refl
      ]
      | inr other ↦ elim (Bool-cases (is_pending i)) [
        | inl open_ ↦ rw (open_, other, later-pending i _, open_, resolve_first-pending items) refl
        | inr done ↦ rw (done, other, later-pending i _, done, resolve_first-pending items) refl
      ]
    ]

    -- A named reviewer's resolution, which says something, takes from the pending reviews the first one of the
    -- order and no other, and is refused exactly if none of the order is pending.
    pub resolve_human_review-pending :
        (log : PreTradeAuditLog F)
        → (resolved_by == "") ≡ false
        → pending_after (resolve_human_review client_order_id resolved_by resolution log)
          ≡ without_first client_order_id (pending_human_reviews log)
    unfolding resolve_human_review pending_human_reviews
    resolve_human_review-pending log named =
        rw
          (
            named,
            requeued-pending log
                (resolve_first client_order_id resolved_by resolution log.human_review_queue),
          )
          (resolve_first-pending log.human_review_queue)
