-- ===== src/Coordinator/Registration/Made.antt =====
-- A job that coordinator/registration.rs makes, and what it asks of the database.
use omarchy_harbormaster.Common.{
  ℕ, ◌≡◌, inl, inr, refl, sym, ap, ◌∙◌, Result, ok, err, arith, Result-cases, ok_injective,
}
use omarchy_harbormaster.Ingestion.{AdmissionError}
use omarchy_harbormaster.Ingestion.Registry.Types.{Registry}
use omarchy_harbormaster.Ingestion.Registry.{invalidate_generation}
use omarchy_harbormaster.Coordinator.Registration.{
  ReconciliationInput, ReconciliationJob, begin, job, may_reconcile, new,
}

-- A job that is made has its checks behind it.
pub record IsMade (input : ReconciliationInput) (registry after : Registry) (j : ReconciliationJob)
    : Type 0 where
  pub discarded : ℕ
  pub allowed : may_reconcile input ≡ ok tt
  pub revoked :
      invalidate_generation input.registration.producer_id input.registration.previous_generation
        registry
      ≡ (ok discarded, after)
  pub made : j ≡ job input discarded after

begin-IsMade :
    (input : ReconciliationInput) (registry : Registry) (m : Result AdmissionError ℕ × Registry)
    (j : ReconciliationJob) (after : Registry)
    → may_reconcile input ≡ ok tt
    → invalidate_generation input.registration.producer_id input.registration.previous_generation
        registry
      ≡ m
    → begin input m ≡ (ok j, after)
    → IsMade input registry after j
unfolding begin
begin-IsMade input registry (err e, g) j after allowed revoked h = absurd (ground arith)
begin-IsMade input registry (ok n, g) j after allowed revoked h =
    let same : g ≡ after = ground arith in
    record {
      discarded = n;
      allowed = allowed;
      revoked = revoked ∙ ap (λ x. (ok n, x)) same;
      made = ok_injective {E = AdmissionError} (sym (ap (λ o. o.0) h)) ∙ ap (job input n) same;
    }

pub new-IsMade :
    (registry : Registry) (input : ReconciliationInput) (j : ReconciliationJob) (after : Registry)
    → new registry input ≡ (ok j, after)
    → IsMade input registry after j
unfolding new
new-IsMade registry input j after h = elim (Result-cases (may_reconcile input)) [
  | inl (e, refused) ↦ absurd (ground arith)
  | inr (_, allowed) ↦ begin-IsMade input registry _ j after allowed refl (ground arith)
]
