-- ===== src/Recovery.antt =====
-- The recovery manager (services/supervisor/recovery.py). An incident that a caller holds is its place in
-- the manager's list. How an instant and a number of four digits are written are parameters.
use autonomous_quant_tra.Base.{
  ℕ, zero, suc, ◌+◌, ◌≡◌, inl, inr, String, Bool, true, false, not, ◌&&◌, Option, none, some, List,
  [], ◌∷◌, ◌++◌, keep, if◌then◌else◌, All, All-append, arith, Bool-cases,
}
use autonomous_quant_tra.Text.{concat, or_text}
use autonomous_quant_tra.Exec.{Exec, ok, err}

pub data FaultSeverity : Type 0 where
  minor major : FaultSeverity

pub record Incident : Type 0 where
  pub incident_id : String
  pub severity : FaultSeverity
  pub service : String
  pub description : String
  pub detected_at : ℕ
  pub timeline : List String
  pub root_cause : String
  pub damage : String
  pub why_control_failed : String
  pub corrective_action : String
  pub regression_test : String
  pub resolved : Bool
  pub human_approved_resume : Bool

pub record RecoveryManager : Type 0 where
  pub incidents : List Incident
  pub seq : ℕ

-- ResumeForbiddenError, and an incident that the manager does not have.
pub data RecoveryError : Type 0 where
  resume_forbidden no_such_incident : RecoveryError

pub record Postmortem : Type 0 where
  pub incident_id : String
  pub timeline : List String
  pub root_cause : String
  pub detection : String
  pub damage : String
  pub why_control_failed : String
  pub corrective_action : String
  pub regression_test : String

abbrev pub new_manager : RecoveryManager
new_manager = record { incidents = []; seq = 0 }

abbrev pub is_major : Incident → Bool
is_major i = elim i.severity [ minor ↦ false | major ↦ true ]

unfoldable pub can_auto_resume : Incident → Bool
can_auto_resume i = elim i.severity [ minor ↦ true | major ↦ false ]

unfoldable pub postmortem : Incident → Postmortem
postmortem i = record {
  incident_id = i.incident_id;
  timeline = i.timeline;
  root_cause = or_text i.root_cause "TODO: root cause analysis";
  detection = concat ("detected in service " ∷ i.service ∷ []);
  damage = or_text i.damage "TODO: quantify damage";
  why_control_failed = or_text i.why_control_failed "TODO";
  corrective_action = or_text i.corrective_action "TODO";
  regression_test = or_text i.regression_test "TODO: add to tests/failure/";
}

unfoldable pub open_major_incidents : RecoveryManager → List Incident
open_major_incidents m = keep (λ i. is_major i && not i.resolved) m.incidents

abbrev pub incident_at : ℕ → List Incident → Option Incident
incident_at n [] = none
incident_at zero (i ∷ incidents) = some i
incident_at (suc n) (i ∷ incidents) = incident_at n incidents

abbrev pub replace_at : ℕ → Incident → List Incident → List Incident
replace_at n j [] = []
replace_at zero j (i ∷ incidents) = j ∷ incidents
replace_at (suc n) j (i ∷ incidents) = i ∷ replace_at n j incidents

pub data RecoveryCall : Type 0 where
  reports : String → String → FaultSeverity → ℕ → RecoveryCall
  resumes : ℕ → Bool → ℕ → RecoveryCall

-- A major incident is open, or a human has approved its end.
abbrev pub IsReviewed : Incident → Type 0
IsReviewed i = is_major i ≡ true → i.resolved ≡ true → i.human_approved_resume ≡ true

module _ (isoformat : ℕ → String) (four_digits : ℕ → String) where
  unfoldable pub report_fault :
      String → String → FaultSeverity → ℕ → RecoveryManager → Incident × RecoveryManager
  report_fault service description severity now m =
      let seq = m.seq + 1 in
      let incident : Incident = record {
        incident_id = concat ("INC-" ∷ four_digits seq ∷ []);
        severity = severity;
        service = service;
        description = description;
        detected_at = now;
        timeline = concat (isoformat now ∷ " detected: " ∷ description ∷ []) ∷ [];
        root_cause = "";
        damage = "";
        why_control_failed = "";
        corrective_action = "";
        regression_test = "";
        resolved = false;
        human_approved_resume = false;
      } in
      (incident, record { incidents = m.incidents ++ incident ∷ []; seq = seq })

  abbrev pub approval_text : Bool → String
  approval_text human_approved = if human_approved then "True" else "False"

  unfoldable pub resumed : Bool → ℕ → Incident → Incident
  resumed human_approved now i = record i {
    resolved = true;
    human_approved_resume = human_approved;
    timeline =
        i.timeline
        ++ concat
            (isoformat now ∷ " resumed (human_approved=" ∷ approval_text human_approved ∷ ")" ∷ [])
          ∷ [];
  }

  abbrev pub resume_found :
      ℕ → Bool → ℕ → Option Incident → Exec RecoveryError RecoveryManager (Unit {0})
  resume_found n human_approved now none m = (err no_such_incident, m)
  resume_found n human_approved now (some i) m =
      if is_major i && not human_approved
      then (err resume_forbidden, m)
      else (ok tt, record m { incidents = replace_at n (resumed human_approved now i) m.incidents })

  unfoldable pub resume : ℕ → Bool → ℕ → Exec RecoveryError RecoveryManager (Unit {0})
  resume n human_approved now m = resume_found n human_approved now (incident_at n m.incidents) m

  unfoldable pub step : RecoveryManager → RecoveryCall → RecoveryManager
  step m (reports service description severity now) =
      (report_fault service description severity now m).1
  step m (resumes n human_approved now) = (resume n human_approved now m).1

  unfoldable pub run : RecoveryManager → List RecoveryCall → RecoveryManager
  run m [] = m
  run m (c ∷ calls) = run (step m c) calls

  resumed-IsReviewed :
      (human_approved : Bool) (now : ℕ) (i : Incident)
      → (is_major i && not human_approved) ≡ false
      → IsReviewed (resumed human_approved now i)
  unfolding resumed
  resumed-IsReviewed human_approved now i h severe done = ground arith

  replace_at-IsReviewed :
      (n : ℕ) (j : Incident) (incidents : List Incident)
      → IsReviewed j
      → All IsReviewed incidents
      → All IsReviewed (replace_at n j incidents)
  replace_at-IsReviewed n j [] h all = tt
  replace_at-IsReviewed zero j (i ∷ incidents) h all = (h, all.1)
  replace_at-IsReviewed (suc n) j (i ∷ incidents) h all =
      (all.0, replace_at-IsReviewed n j incidents h all.1)

  resume_found-IsReviewed :
      (n : ℕ) (human_approved : Bool) (now : ℕ) (found : Option Incident) (m : RecoveryManager)
      → All IsReviewed m.incidents
      → All IsReviewed (resume_found n human_approved now found m).1.incidents
  resume_found-IsReviewed n human_approved now none m h = h
  resume_found-IsReviewed n human_approved now (some i) m h =
      elim (Bool-cases (is_major i && not human_approved)) [
        | inl forbidden ↦ rw forbidden h
        | inr allowed ↦ rw allowed (
            replace_at-IsReviewed n (resumed human_approved now i) m.incidents
              (resumed-IsReviewed human_approved now i allowed) h)
      ]

  step-IsReviewed :
      (m : RecoveryManager) (c : RecoveryCall)
      → All IsReviewed m.incidents
      → All IsReviewed (step m c).incidents
  unfolding step report_fault resume
  step-IsReviewed m (reports service description severity now) h =
      All-append IsReviewed m.incidents _ h (λ severe done. absurd (ground arith), tt)
  step-IsReviewed m (resumes n human_approved now) h =
      resume_found-IsReviewed n human_approved now (incident_at n m.incidents) m h

  run_from-IsReviewed :
      (m : RecoveryManager) (calls : List RecoveryCall)
      → All IsReviewed m.incidents
      → All IsReviewed (run m calls).incidents
  unfolding run
  run_from-IsReviewed m [] h = h
  run_from-IsReviewed m (c ∷ calls) h = run_from-IsReviewed (step m c) calls (step-IsReviewed m c h)

  -- However faults are reported and incidents resumed, a major incident is never resolved without the approval
  -- of a human.
  pub run-IsReviewed :
      (calls : List RecoveryCall) → All IsReviewed (run new_manager calls).incidents
  run-IsReviewed calls = run_from-IsReviewed new_manager calls tt
