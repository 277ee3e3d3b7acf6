-- ===== src/Automation/Final.antt =====
-- The final statuses of src/domain/automation.ts are those that no transition leaves.
use fiberpassbackend.Prelude.{◌≡◌, refl, not, all}
use fiberpassbackend.Automation.{
  can_transition, AutomationPaymentStatus, automation_payment_statuses, can_transition_invoice,
  is_final_invoice_status, PaymentBatchStatus, payment_batch_statuses, can_transition_batch,
  is_final_batch_status, PaymentJobStatus, payment_job_statuses, can_transition_payment_job,
  is_final_payment_job_status,
}

final_invoice :
    (s : AutomationPaymentStatus)
    → is_final_invoice_status s
      ≡ all (λ to. not (can_transition_invoice s to)) automation_payment_statuses
unfolding is_final_invoice_status can_transition_invoice can_transition
final_invoice AutomationPaymentStatus.draft = refl
final_invoice AutomationPaymentStatus.queued = refl
final_invoice AutomationPaymentStatus.processing = refl
final_invoice AutomationPaymentStatus.paid = refl
final_invoice AutomationPaymentStatus.failed = refl
final_invoice AutomationPaymentStatus.cancelled = refl

final_batch :
    (s : PaymentBatchStatus)
    → is_final_batch_status s ≡ all (λ to. not (can_transition_batch s to)) payment_batch_statuses
unfolding is_final_batch_status can_transition_batch can_transition
final_batch PaymentBatchStatus.draft = refl
final_batch PaymentBatchStatus.queued = refl
final_batch PaymentBatchStatus.processing = refl
final_batch PaymentBatchStatus.partial = refl
final_batch PaymentBatchStatus.completed = refl
final_batch PaymentBatchStatus.failed = refl
final_batch PaymentBatchStatus.cancelled = refl

final_payment_job :
    (s : PaymentJobStatus)
    → is_final_payment_job_status s
      ≡ all (λ to. not (can_transition_payment_job s to)) payment_job_statuses
unfolding is_final_payment_job_status can_transition_payment_job can_transition
final_payment_job PaymentJobStatus.queued = refl
final_payment_job PaymentJobStatus.locked = refl
final_payment_job PaymentJobStatus.processing = refl
final_payment_job PaymentJobStatus.succeeded = refl
final_payment_job PaymentJobStatus.retrying = refl
final_payment_job PaymentJobStatus.failed = refl
final_payment_job PaymentJobStatus.cancelled = refl

-- A status of an invoice, of a batch or of a payment job is final exactly when there is no status that a
-- transition leads to from it.
pub final_statuses :
    (i : AutomationPaymentStatus) (b : PaymentBatchStatus) (j : PaymentJobStatus)
    → (is_final_invoice_status i
        ≡ all (λ to. not (can_transition_invoice i to)) automation_payment_statuses)
      × (is_final_batch_status b
          ≡ all (λ to. not (can_transition_batch b to)) payment_batch_statuses)
      × (is_final_payment_job_status j
          ≡ all (λ to. not (can_transition_payment_job j to)) payment_job_statuses)
final_statuses i b j = (final_invoice i, final_batch b, final_payment_job j)
