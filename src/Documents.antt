-- ===== src/Documents.antt =====
-- Documents: the queue (backend/app/services/queue_service.py), the request commands
-- (services/document_commands_service.py), the processing of a document
-- (services/document_service.py) and the worker (workers/document_tasks.py, workers/arq_worker.py).
pub mod Status
pub mod Processing
pub mod Commands
pub mod Worker
