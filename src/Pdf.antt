-- ===== src/Pdf.antt =====
-- backend/app/utils/pdf_utils.py: the text and the page boundaries of a PDF, and its chunks.
-- `pdfplumber` is not modelled: a PDF is the list of what `page.extract_text()` returns.
pub mod Pages
pub mod Chunks
pub mod Chunking
