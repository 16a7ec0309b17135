-- ===== src/Domain.antt =====
-- app/domain/enums.py: the enumerations that the modelled components use, with the source's members.
pub data ExceptionType : Type 0 where
  quantity_mismatch price_mismatch tax_mismatch identifier_mismatch duplicate_invoice date_mismatch
        missing_document other :
      ExceptionType

pub data ExceptionSeverity : Type 0 where
  low medium high critical : ExceptionSeverity

pub data ReconciliationStatus : Type 0 where
  matched exceptions_found incomplete : ReconciliationStatus

pub data ExceptionStatus : Type 0 where
  open_ in_review resolved dismissed : ExceptionStatus

pub data ResolutionPlanStatus : Type 0 where
  proposed approval_required approved rejected executing completed failed cancelled
        no_action_recommended :
      ResolutionPlanStatus

pub data ProposedActionStatus : Type 0 where
  pending approved rejected executing completed failed cancelled : ProposedActionStatus

pub data ActionType : Type 0 where
  route_to_review request_vendor_clarification request_missing_document escalate_to_manager :
      ActionType

pub data ApprovalDecision : Type 0 where
  approved rejected : ApprovalDecision

pub data ExecutionStatus : Type 0 where
  pending running succeeded failed : ExecutionStatus

pub data ReviewStatus : Type 0 where
  pending in_review approved corrected rejected : ReviewStatus

pub data JobStatus : Type 0 where
  queued running succeeded failed retry_scheduled cancelled : JobStatus

pub data JobType : Type 0 where
  document_understand llm_understand : JobType

pub data MembershipRole : Type 0 where
  viewer operator reviewer approver admin : MembershipRole

pub data DocumentType : Type 0 where
  po grn invoice unknown : DocumentType

pub data DocumentStatus : Type 0 where
  uploaded validated extraction_pending extracting extracted normalized validation_failed
        review_required review_rejected ready_for_reconciliation extraction_failed :
      DocumentStatus

pub data ExtractionOutcome : Type 0 where
  ready_for_reconciliation review_required validation_failed extraction_failed : ExtractionOutcome

pub data ReviewAction : Type 0 where
  approve correct reject : ReviewAction

pub data ReviewPriority : Type 0 where
  low medium high : ReviewPriority
