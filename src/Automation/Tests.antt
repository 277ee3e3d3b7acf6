-- ===== src/Automation/Tests.antt =====
-- A failed invoice, a failed batch and a failed payment job: only the job is final.
use fiberpassbackend.Prelude.{◌≡◌, not, all}
use fiberpassbackend.Automation.{
  AutomationPaymentStatus, automation_payment_statuses, can_transition_invoice,
  is_final_invoice_status, PaymentBatchStatus, payment_batch_statuses, can_transition_batch,
  is_final_batch_status, PaymentJobStatus, payment_job_statuses, can_transition_payment_job,
  is_final_payment_job_status,
}
use fiberpassbackend.Automation.Final.{final_statuses}

final_statuses_example :
    (is_final_invoice_status AutomationPaymentStatus.failed
      ≡ all
          (λ to. not (can_transition_invoice AutomationPaymentStatus.failed to))
          automation_payment_statuses)
    × (is_final_batch_status PaymentBatchStatus.failed
        ≡ all
            (λ to. not (can_transition_batch PaymentBatchStatus.failed to))
            payment_batch_statuses)
    × (is_final_payment_job_status PaymentJobStatus.failed
        ≡ all
            (λ to. not (can_transition_payment_job PaymentJobStatus.failed to))
            payment_job_statuses)
final_statuses_example =
    final_statuses AutomationPaymentStatus.failed PaymentBatchStatus.failed PaymentJobStatus.failed
