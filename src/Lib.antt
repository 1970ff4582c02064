-- ===== src/Lib.antt =====
-- Quaero: questions about uploaded PDF documents. This library models the backend under backend/app.
--
-- A user uploads a PDF (utils/file_utils.py), a job of the queue reads its text, cuts it into chunks and
-- stores an embedding of each (services/document_service.py), and questions about a document or a
-- workspace of documents are answered from the nearest chunks (services/document_query_service.py,
-- services/workspace_service.py). Sessions are an access token and a rotating refresh token
-- (services/auth_commands_service.py), with a double-submit check against forged requests.
--
-- Prelude, Errors, Exec and Text are shared: lists over native numbers, tables as lists of rows,
-- exceptions as values, a monad whose writes survive a raise, and texts as lists of code points.
-- Models has one record for each table of models/, Database the session with its transaction:
-- `committed` is what others see, `current` what the session does. Repositories has one function for
-- each function of repositories/, with the constraints of the tables as exceptions.
-- Pdf models utils/pdf_utils.py, Embedding services/embedding_service.py, Files utils/file_utils.py,
-- Auth core/security.py and the two auth services, Documents document_service.py,
-- document_commands_service.py, queue_service.py and workers/, Workspaces workspace_service.py without
-- its queries, Anthropic services/anthropic_service.py, Chat the queries of documents and workspaces,
-- DemoSeed services/demo_seed_service.py, RateLimit utils/rate_limit.py, Cookies utils/cookies.py,
-- MiniEval the cases and thresholds of backend/scripts/run_mini_eval.py, and Config the validator of the
-- settings in backend/app/config.py.
-- Definitions keep the names of the source, without a leading underscore.
--
-- A streamed query (Chat/Streams) is three parts. The set-up is a command like the others. The generator
-- of the events is a value of `Events`, whose steps yield an event, touch the usage of the stream, or
-- write the assistant's message in a session of its own; `run_events` runs it to its end. The two
-- tasks around the bounded queue are the step relation of Chat/Streams/Queue, in which the
-- producer, the consumer and a client that goes take steps in any order.
--
-- Loops: the loop of `chunk_text` runs on the length of the text as fuel, since each pass moves its
-- start forward; the loop over the batches of embeddings on the number of chunks, since each pass takes
-- one chunk at least. What other sessions commit between two transactions is a parameter `others`.
--
-- Parameters stand for the libraries: OpenAI and Anthropic, pdfplumber and its timeout, the storage
-- backend, the queue, passlib and jose, Unicode tables, base64 and the readers of JSON values, random
-- values, the clock, and the arithmetic and order of floats, which are kept as bit patterns.
--
-- Not modelled: logging, the HTTP routes, the loading of the settings, the storage backends, the runs and
-- reports of the evaluation, migrations and the frontend. A stream that is cancelled in the middle of a
-- write is cancelled before or after it. Negative integers in the demo fixture are not represented.
pub mod Prelude
pub mod Errors
pub mod Exec
pub mod Text
pub mod Json
pub mod Models
pub mod Database
pub mod Repositories
pub mod Pdf
pub mod Auth
pub mod Embedding
pub mod Anthropic
pub mod Files
pub mod DemoSeed
pub mod Documents
pub mod Workspaces
pub mod Chat
pub mod RateLimit
pub mod Cookies
pub mod MiniEval
pub mod Config
pub mod Tests
