-- ===== src/PreTrade/Summary.antt =====
-- The month's figures.
use autonomous_quant_tra.Base.{
  Bool, ◌&&◌, Option-cases, ℕ, ◌+◌, ◌≡◌, refl, ap, inl, inr, true, false, none, some, List, [], ◌∷◌,
  keep, length, ◌==◌, if◌then◌else◌, string_eq, nat_eq, arith, Bool-cases,
}
use autonomous_quant_tra.Dict.{Dict, lookup, insert, values, get_or}
use autonomous_quant_tra.Dict.Laws.{lookup-insert}
use autonomous_quant_tra.Audit.{AuditVerdict, pass, reject, review}
use autonomous_quant_tra.PreTrade.{
  NearMissKind, kind_eq, NearMiss, PreTradeRecord, PreTradeAuditLog, count_kinds, has_verdict,
  is_verdict, monthly_safety_summary, is_some, in_month,
}

-- The sum of a dictionary's figures.
abbrev pub total : Dict NearMissKind ℕ → ℕ
total [] = 0
total ((k, n) ∷ d) = n + total d

count_head :
    (k j : NearMissKind) (n : ℕ) (d : Dict NearMissKind ℕ)
    → (k == j) ≡ true
    → get_or k 0 ((j, n) ∷ d) ≡ n
unfolding lookup
count_head k j n d h = rw (get_or, h) refl

count_tail :
    (k j : NearMissKind) (n : ℕ) (d : Dict NearMissKind ℕ)
    → (k == j) ≡ false
    → get_or k 0 ((j, n) ∷ d) ≡ get_or k 0 d
unfolding lookup
count_tail k j n d h = rw (get_or, h) refl

total-insert :
    (k : NearMissKind) (m : ℕ) (d : Dict NearMissKind ℕ)
    → total (insert k m d) + get_or k 0 d ≡ total d + m
unfolding insert lookup
total-insert k m [] = omega arith
total-insert k m ((j, n) ∷ d) = elim (Bool-cases (k == j)) [
  | inl same ↦ rw (count_head k j n d same, same) (omega arith)
  | inr other_ ↦ rw (count_tail k j n d other_, other_) (omega (arith, total-insert k m d))
]

total-count_kinds :
    (misses : List NearMiss) (by_kind : Dict NearMissKind ℕ)
    → total (count_kinds misses by_kind) ≡ total by_kind + length misses
total-count_kinds [] by_kind = omega arith
total-count_kinds (n ∷ misses) by_kind = omega (
  arith,
  total-count_kinds misses (insert n.kind (get_or n.kind 0 by_kind + 1) by_kind),
  total-insert n.kind (get_or n.kind 0 by_kind + 1) by_kind,
)

count_insert :
    (k j : NearMissKind) (m : ℕ) (d : Dict NearMissKind ℕ)
    → get_or k 0 (insert j m d) ≡ (if k == j then m else get_or k 0 d)
count_insert k j m d = elim (Bool-cases (k == j)) [
  | inl same ↦ rw (get_or, lookup-insert k j m d, same) refl
  | inr other_ ↦ rw (get_or, lookup-insert k j m d, other_) refl
]

-- The near misses of a kind.
abbrev pub of_kind : NearMissKind → List NearMiss → List NearMiss
of_kind k = keep (λ n. k == n.kind)

count_kinds-of_kind :
    (k : NearMissKind) (misses : List NearMiss) (by_kind : Dict NearMissKind ℕ)
    → get_or k 0 (count_kinds misses by_kind) ≡ get_or k 0 by_kind + length (of_kind k misses)
count_kinds-of_kind k [] by_kind = omega arith
count_kinds-of_kind k (n ∷ misses) by_kind =
    let more = get_or n.kind 0 by_kind + 1 in
    let rest = count_kinds-of_kind k misses (insert n.kind more by_kind) in
    let now = count_insert k n.kind more by_kind in
    elim (Bool-cases (k == n.kind)) [
      | inl same ↦
          let e : k ≡ n.kind = (kind_eq.beq_iff k n.kind).0 same in
          let there : get_or k 0 by_kind ≡ get_or n.kind 0 by_kind =
            ap (λ j. get_or j 0 by_kind) e in
          let here : get_or k 0 (insert n.kind more by_kind) ≡ more = rw same at now in
          rw same (omega arith)
      | inr other_ ↦
          let here : get_or k 0 (insert n.kind more by_kind) ≡ get_or k 0 by_kind =
            rw other_ at now in
          rw other_ (omega arith)
    ]

count_new :
    (k : NearMissKind) (misses : List NearMiss)
    → get_or k 0 (count_kinds misses []) ≡ length (of_kind k misses)
unfolding lookup
count_new k misses =
    let none_yet : get_or {K = NearMissKind} {V = ℕ} k 0 [] ≡ 0 = refl in
    omega (arith, count_kinds-of_kind k misses [])

-- An audit that passed, and one that was rejected.
abbrev pub is_pass : AuditVerdict → Bool
is_pass pass = true
is_pass reject = false
is_pass review = false

abbrev pub is_reject : AuditVerdict → Bool
is_reject pass = false
is_reject reject = true
is_reject review = false

is_verdict-pass : (v : AuditVerdict) → is_verdict v pass ≡ is_pass v
is_verdict-pass v = ground arith

is_verdict-reject : (v : AuditVerdict) → is_verdict v reject ≡ is_reject v
is_verdict-reject v = ground arith

module _ {F : Type 0} where
  -- The record has an audit, of whose verdict the test holds.
  abbrev pub judged_by : (AuditVerdict → Bool) → PreTradeRecord F → Bool
  judged_by test r = elim r.audit_result [ none ↦ false | some out ↦ test out.verdict ]

  has_verdict-judged_by :
      (v : AuditVerdict) (test : AuditVerdict → Bool)
      → ((w : AuditVerdict) → is_verdict w v ≡ test w)
      → (r : PreTradeRecord F) → (is_some r.audit_result && has_verdict v r) ≡ judged_by test r
  has_verdict-judged_by v test same r = elim (Option-cases r.audit_result) [
    | inl absent ↦ rw absent refl
    | inr (out, there) ↦ rw there (same out.verdict)
  ]

  keep_twice :
      (q p : PreTradeRecord F → Bool) (records : List (PreTradeRecord F))
      → keep p (keep q records) ≡ keep (λ r. q r && p r) records
  keep_twice q p [] = refl
  keep_twice q p (r ∷ records) = ground (arith, keep_twice q p records)

  keep_thrice :
      (q s p j : PreTradeRecord F → Bool)
      → ((r : PreTradeRecord F) → (s r && p r) ≡ j r)
      → (records : List (PreTradeRecord F))
      → keep p (keep s (keep q records)) ≡ keep (λ r. q r && j r) records
  keep_thrice q s p j same [] = refl
  keep_thrice q s p j same (r ∷ records) = ground (arith, same r, keep_thrice q s p j same records)

  -- The figures of a month count what the log has of that month: the audits, those that passed, those that were
  -- rejected, the orders that ended UNKNOWN, the near misses, and for each kind the near misses of the kind; the figures of the kinds add up to
  -- the number of the near misses.
  pub summary_counts :
      (year_month : ℕ → ℕ × ℕ) (year month : ℕ) (k : NearMissKind) (log : PreTradeAuditLog F)
      → let s = monthly_safety_summary year_month year month log in
        let within = λ (at : ℕ). ((year_month at).0 == year) && ((year_month at).1 == month) in
        let misses = keep (λ (n : NearMiss). within n.at) log.near_misses in
        (s.pre_trade_audits
          ≡ length (
              keep
                (λ (r : PreTradeRecord F). within r.created_at && is_some r.audit_result)
                (values log.records)))
        × (s.critical_execution_errors
            ≡ length (
                keep
                  (λ (r : PreTradeRecord F). within r.created_at && (r.final_state == "UNKNOWN"))
                  (values log.records)))
        × (s.audit_pass
            ≡ length (
                keep
                  (λ (r : PreTradeRecord F). within r.created_at && judged_by is_pass r)
                  (values log.records)))
        × (s.audit_reject
            ≡ length (
                keep
                  (λ (r : PreTradeRecord F). within r.created_at && judged_by is_reject r)
                  (values log.records)))
        × (s.prevented_potential_errors ≡ length misses)
        × (get_or k 0 s.prevented_by_kind ≡ length (of_kind k misses))
        × (total s.prevented_by_kind ≡ length misses)
  unfolding monthly_safety_summary
  summary_counts year_month year month k log =
      let misses = keep (λ (n : NearMiss). in_month year_month year month n.at) log.near_misses in
      let within = λ (r : PreTradeRecord F). in_month year_month year month r.created_at in
      (
        ap length (keep_twice within (λ r. is_some r.audit_result) (values log.records)),
        ap length (keep_twice within (λ r. r.final_state == "UNKNOWN") (values log.records)),
        ap length (
            keep_thrice within (λ r. is_some r.audit_result) (has_verdict pass) (judged_by is_pass)
              (has_verdict-judged_by pass is_pass is_verdict-pass) (values log.records)),
        ap length (
            keep_thrice within (λ r. is_some r.audit_result) (has_verdict reject)
              (judged_by is_reject) (has_verdict-judged_by reject is_reject is_verdict-reject)
              (values log.records)),
        refl,
        count_new k misses,
        omega (arith, total-count_kinds misses []),
      )
