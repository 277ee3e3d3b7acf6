-- ===== src/Automation.antt =====
-- The status machines of invoices, batches and payment jobs (src/domain/automation.ts).
pub mod Final
mod Tests
use fiberpassbackend.Prelude.{ℕ, Bool, true, false, List, [], ◌∷◌, ◌==◌, any}

pub data AutomationPaymentStatus : Type 0 where
  draft queued processing paid failed cancelled : AutomationPaymentStatus

abbrev pub automation_payment_statuses : List AutomationPaymentStatus
automation_payment_statuses =
    AutomationPaymentStatus.draft ∷ AutomationPaymentStatus.queued
    ∷ AutomationPaymentStatus.processing ∷ AutomationPaymentStatus.paid
    ∷ AutomationPaymentStatus.failed ∷ AutomationPaymentStatus.cancelled ∷ []

pub data PaymentBatchStatus : Type 0 where
  draft queued processing partial completed failed cancelled : PaymentBatchStatus

abbrev pub payment_batch_statuses : List PaymentBatchStatus
payment_batch_statuses =
    PaymentBatchStatus.draft ∷ PaymentBatchStatus.queued ∷ PaymentBatchStatus.processing
    ∷ PaymentBatchStatus.partial ∷ PaymentBatchStatus.completed ∷ PaymentBatchStatus.failed
    ∷ PaymentBatchStatus.cancelled ∷ []

pub data PaymentJobStatus : Type 0 where
  queued locked processing succeeded retrying failed cancelled : PaymentJobStatus

abbrev pub payment_job_statuses : List PaymentJobStatus
payment_job_statuses =
    PaymentJobStatus.queued ∷ PaymentJobStatus.locked ∷ PaymentJobStatus.processing
    ∷ PaymentJobStatus.succeeded ∷ PaymentJobStatus.retrying ∷ PaymentJobStatus.failed
    ∷ PaymentJobStatus.cancelled ∷ []

-- `transitions[from]?.includes(to) ?? false`: a status is compared by its number.
unfoldable pub can_transition : {S : Type 0} → (S → ℕ) → (S → List S) → S → S → Bool
can_transition number transitions from to = any (λ s. number s == number to) (transitions from)

abbrev invoice_number : AutomationPaymentStatus → ℕ
invoice_number AutomationPaymentStatus.draft = 0
invoice_number AutomationPaymentStatus.queued = 1
invoice_number AutomationPaymentStatus.processing = 2
invoice_number AutomationPaymentStatus.paid = 3
invoice_number AutomationPaymentStatus.failed = 4
invoice_number AutomationPaymentStatus.cancelled = 5

abbrev pub invoice_status_transitions : AutomationPaymentStatus → List AutomationPaymentStatus
invoice_status_transitions AutomationPaymentStatus.draft =
    AutomationPaymentStatus.queued ∷ AutomationPaymentStatus.cancelled ∷ []
invoice_status_transitions AutomationPaymentStatus.queued =
    AutomationPaymentStatus.processing ∷ AutomationPaymentStatus.failed
    ∷ AutomationPaymentStatus.cancelled ∷ []
invoice_status_transitions AutomationPaymentStatus.processing =
    AutomationPaymentStatus.paid ∷ AutomationPaymentStatus.failed ∷ AutomationPaymentStatus.queued
    ∷ AutomationPaymentStatus.cancelled ∷ []
invoice_status_transitions AutomationPaymentStatus.paid = []
invoice_status_transitions AutomationPaymentStatus.failed =
    AutomationPaymentStatus.queued ∷ AutomationPaymentStatus.cancelled ∷ []
invoice_status_transitions AutomationPaymentStatus.cancelled = []

unfoldable pub can_transition_invoice : AutomationPaymentStatus → AutomationPaymentStatus → Bool
unfolding can_transition
can_transition_invoice = can_transition invoice_number invoice_status_transitions

unfoldable pub is_final_invoice_status : AutomationPaymentStatus → Bool
is_final_invoice_status AutomationPaymentStatus.paid = true
is_final_invoice_status AutomationPaymentStatus.cancelled = true
is_final_invoice_status _ = false

abbrev batch_number : PaymentBatchStatus → ℕ
batch_number PaymentBatchStatus.draft = 0
batch_number PaymentBatchStatus.queued = 1
batch_number PaymentBatchStatus.processing = 2
batch_number PaymentBatchStatus.partial = 3
batch_number PaymentBatchStatus.completed = 4
batch_number PaymentBatchStatus.failed = 5
batch_number PaymentBatchStatus.cancelled = 6

abbrev pub batch_status_transitions : PaymentBatchStatus → List PaymentBatchStatus
batch_status_transitions PaymentBatchStatus.draft =
    PaymentBatchStatus.queued ∷ PaymentBatchStatus.cancelled ∷ []
batch_status_transitions PaymentBatchStatus.queued =
    PaymentBatchStatus.processing ∷ PaymentBatchStatus.failed ∷ PaymentBatchStatus.cancelled ∷ []
batch_status_transitions PaymentBatchStatus.processing =
    PaymentBatchStatus.partial ∷ PaymentBatchStatus.completed ∷ PaymentBatchStatus.failed
    ∷ PaymentBatchStatus.cancelled ∷ []
batch_status_transitions PaymentBatchStatus.partial =
    PaymentBatchStatus.processing ∷ PaymentBatchStatus.completed ∷ PaymentBatchStatus.failed
    ∷ PaymentBatchStatus.cancelled ∷ []
batch_status_transitions PaymentBatchStatus.completed = []
batch_status_transitions PaymentBatchStatus.failed =
    PaymentBatchStatus.queued ∷ PaymentBatchStatus.cancelled ∷ []
batch_status_transitions PaymentBatchStatus.cancelled = []

unfoldable pub can_transition_batch : PaymentBatchStatus → PaymentBatchStatus → Bool
unfolding can_transition
can_transition_batch = can_transition batch_number batch_status_transitions

unfoldable pub is_final_batch_status : PaymentBatchStatus → Bool
is_final_batch_status PaymentBatchStatus.completed = true
is_final_batch_status PaymentBatchStatus.cancelled = true
is_final_batch_status _ = false

abbrev payment_job_number : PaymentJobStatus → ℕ
payment_job_number PaymentJobStatus.queued = 0
payment_job_number PaymentJobStatus.locked = 1
payment_job_number PaymentJobStatus.processing = 2
payment_job_number PaymentJobStatus.succeeded = 3
payment_job_number PaymentJobStatus.retrying = 4
payment_job_number PaymentJobStatus.failed = 5
payment_job_number PaymentJobStatus.cancelled = 6

abbrev pub payment_job_status_transitions : PaymentJobStatus → List PaymentJobStatus
payment_job_status_transitions PaymentJobStatus.queued =
    PaymentJobStatus.locked ∷ PaymentJobStatus.failed ∷ PaymentJobStatus.cancelled ∷ []
payment_job_status_transitions PaymentJobStatus.locked =
    PaymentJobStatus.processing ∷ PaymentJobStatus.queued ∷ PaymentJobStatus.failed
    ∷ PaymentJobStatus.cancelled ∷ []
payment_job_status_transitions PaymentJobStatus.processing =
    PaymentJobStatus.succeeded ∷ PaymentJobStatus.retrying ∷ PaymentJobStatus.failed
    ∷ PaymentJobStatus.cancelled ∷ []
payment_job_status_transitions PaymentJobStatus.succeeded = []
payment_job_status_transitions PaymentJobStatus.retrying =
    PaymentJobStatus.queued ∷ PaymentJobStatus.failed ∷ PaymentJobStatus.cancelled ∷ []
payment_job_status_transitions PaymentJobStatus.failed = []
payment_job_status_transitions PaymentJobStatus.cancelled = []

unfoldable pub can_transition_payment_job : PaymentJobStatus → PaymentJobStatus → Bool
unfolding can_transition
can_transition_payment_job = can_transition payment_job_number payment_job_status_transitions

unfoldable pub is_final_payment_job_status : PaymentJobStatus → Bool
is_final_payment_job_status PaymentJobStatus.succeeded = true
is_final_payment_job_status PaymentJobStatus.failed = true
is_final_payment_job_status PaymentJobStatus.cancelled = true
is_final_payment_job_status _ = false
