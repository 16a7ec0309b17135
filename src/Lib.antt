-- ===== src/Lib.antt =====
-- ReconAI: a model of the program's deterministic cores, the reconciliation of purchase orders,
-- goods receipts and invoices, the execution of approved resolution actions, the review of
-- extracted documents, the job queue, access, and risk scores.
--
-- Reconciliation (app/reconciliation). `reconcile` of engine.py takes a purchase order, the goods
-- receipts, an invoice, earlier invoices of the vendor and a configuration, and returns a status,
-- exceptions and a summary. It calls the rules of rules.py, which draft exceptions, and keeps for
-- each order line what was received and invoiced.
--   Domain                    the enumerations of app/domain/enums.py
--   Reconciliation/Schemas    the data classes of schemas.py
--   Reconciliation/Identity   `normalize_invoice_number`, `build_fingerprint` of rules.py
--   Reconciliation/Variance   `percent_variance` and the two tolerance tests of rules.py
--   Reconciliation/Rules      the other rules of rules.py: Lines for `match_line_to_po`, Headers for
--                             `check_header_po_reference` and `date_exceptions`, Quantities, Prices
--                             (and tax), Documents for missing and duplicate documents
--   Reconciliation/Matching   the loops of `reconcile` over receipt and invoice lines, with the
--                             dictionaries that they fill as association lists in insertion order
--   Reconciliation/Report     `_dedupe_drafts`, `_collect_document_ids`, `_build_summary`,
--                             `_resolve_status` of engine.py
--   Reconciliation/Engine     `reconcile`, phase by phase
--
-- Resolution (app/resolution, app/services/resolution_execution_service.py). A plan for an exception
-- holds ordered actions; `execute_action` runs one of them through its registered handler, once the
-- guardrails pass, under an idempotency key.
--   Resolution/Transitions    the transition tables of transitions.py
--   Resolution/Model          the rows of app/db/models.py that the service reads and writes, the
--                             registry of registry.py, the errors
--   Resolution/Guardrails     guardrails.py, and the hash check of immutability.py
--   Resolution/Rows           reads and writes of rows through the session
--   Resolution/Status         `_advance_to_executing`, `_refresh_plan_after_execution`,
--                             `_apply_plan_status` and `_restore_exception_status` of the service
--   Resolution/Execution      `ResolutionExecutionService.execute_action`, as
--                             functions from a store to an outcome and a store
--                             (the database's unique constraint on the key is part of the insert)
--   Resolution/Contracts      the parameter models of contracts.py; what Pydantic reads as an
--                             identifier or a date is an argument
--   Resolution/Proposals      `create_plan` of resolution_service.py, `parse_action_request` of
--                             contracts.py
--   Resolution/Registry       registration of handlers, registry.py
--   Resolution/Immutability   the flush listener of immutability.py
--   Resolution/Refresh        `_refresh_plan_after_decision` of resolution_service.py
--   Resolution/Decisions      `approve_action` and `reject_action` of resolution_service.py, through
--                             `_record_decision`, with reviewer.py and `ensure_hash_on_approve` of
--                             immutability.py
--
-- Review (app/review, app/services/review_service.py). A candidate that was extracted from a document is
-- approved, corrected field by field, or rejected by a person, before it may be promoted.
--   Extraction/Normalizer     the identifiers of app/extraction/normalizer.py
--   Extraction/Validator      the candidates of app/extraction/schemas.py, and validator.py
--   Review/Numbers            the conversions of numbers and dates that candidate_ops.py calls
--   Review/Coercion           `coerce_correction_value` of candidate_ops.py
--   Review/Paths              `get_field_value` and `set_field_value` of candidate_ops.py
--   Review/Transitions        transitions.py
--   Review/Model              the rows, requests and errors
--   Review/Service            `ReviewService`, with Create for new tasks and Correct for corrections
--   Review/Runs               sequences of operations, and the moves of a task that they refine
--
-- Jobs (app/services/job_service.py, app/workers/runner.py). Rows of a table are queued, claimed under a
-- lease by workers, and end, are retried later or are given up.
--   Jobs                      the rows and the operations of the callers: enqueue, get, retry, cancel
--   Jobs/Worker               the operations of a worker, and its loop; a claim on PostgreSQL skips locked
--                             rows and holds its candidate's lock, on other databases it does neither
--   Jobs/Runs                 sequences of operations, by any number of workers
--
-- Access (app/identity). A request needs a permission, which the role of the principal behind its token
-- has or not.
--   Access                    permissions.py and access.py, the guard `require_access` of app/api/deps.py
--                             and the routers of app/main.py that are behind it
--   Access/Sessions           service.py: signing in and out, the principal of a token
--
-- Risk (app/risk/scoring.py). The anomaly signals of an entity give a score from 0 to 100 and a band.
--   Risk                      the formula, and the configuration of contracts.py
--
-- The children of these modules hold the proofs, and Tests modules concrete runs.
--
-- Choices. A UUID is a natural number, a date an ordinal, a time a number. A `Decimal` is a whole
-- number of 10^-4 units, the scale of the money, quantity and tax columns; a percentage is a quotient
-- rounded half to even at 28 digits, and the search for its scale has fuel 28 + the divisor, which is
-- enough since the scale is at most that. Text is a list of code points; case folding and white space
-- are those of ASCII. SHA-256, `json.dumps` and what Pydantic reads as an identifier or a date are
-- parameters, as are the handlers: a handler checks its parameters by a function of its own and may leave
-- any exceptions and workflow rows behind. What other transactions
-- insert between the look for a key and the insert under it is an argument of the call. Errors are
-- values. A raised exception of the handler rolls back what it wrote, as the savepoint does. The
-- event data of the audit trail, result texts and tenants are left out.
--
-- Not modelled: promotion of approved candidates, which notes the promoted entity on a review task; the
-- HTTP routes, the database models and migrations, the front end, the evaluation harnesses, provisioning of users, and the components that PROJECT.json lists as such.
pub mod Prelude
pub mod Domain
pub mod Access
pub mod Extraction
pub mod Jobs
pub mod Reconciliation
pub mod Resolution
pub mod Review
pub mod Risk
