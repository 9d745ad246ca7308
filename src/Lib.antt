-- ===== src/Lib.antt =====
-- Verification library of the knowledge base: a service that takes uploaded documents through
-- parsing, chunking, embedding and indexing, and answers searches over them.
--
-- Parts and files
-- Prelude.antt holds: Boolean tests and lists over the native numbers (Tests, Lists), SQL on lists of rows
--   (Table), primary keys (Keys), the number of selected rows (Counts), texts as lists of code points (Text),
--   dicts and sorting (Dict, Sorting), calls that may raise (Attempt).
-- Models.antt: app/db/models.py. The tables are lists of rows in the order of insertion; ids, digests
--   and clock readings are numbers, times in microseconds. Models/Integrity has the foreign keys with
--   their ON DELETE CASCADE, Models/Status the words that the columns for states hold.
-- Queue.antt: app/workers/db_queue.py, the jobs table as a queue. Each function is one transaction, a
--   function of the database; a clock reading and a new id are arguments. Queue/Trace has the
--   transactions as steps and their runs, in any order.
-- Pipeline.antt: app/core/pipeline.py, the stage rows, the status reports with their progress, and the
--   event bus of the process. A System is the database with the bus.
-- Chunker.antt: app/ingestion/chunker.py and the records of app/models/domain.py that it uses: character
--   offsets of tokens (Chunker/Offsets), the sliding window, and documents with pages (Chunker/Pages).
-- Access.antt: app/api/deps.py, the API keys and roles, and the answers of routes.
-- Ingest.antt: app/api/routes/ingest.py, upload and reprocessing, with the MIME types in Ingest/Mime and
--   the ways through an upload in Ingest/Effect.
-- Documents.antt: app/api/routes/documents.py and app/workers/purge_worker.py.
-- Workers.antt: app/workers/index_worker.py and app/workers/embed_worker.py, one job at a time; in
--   Workers/Ingest app/workers/ingest_worker.py.
-- Admin.antt: app/api/routes/admin.py and app/api/routes/bootstrap.py.
-- Search.antt: app/search/engine.py. The result cache; in Search/Engine what a search returns without it, in Search/Engine/Results
--   its services, rows and results, in Search/Engine/Terms the words of a query, and in Search/Request the two together.
-- Tabular.antt: app/search/tabular_engine.py, questions about tables that are answered in SQL, with the SQL call of
--   app/storage/mindsdb_client.py; Tabular/Sql has the check of the SQL and the cleaning of replies.
-- Tabular/Profile has app/ingestion/tabular_profiler.py, the schema of a table and its summary.
-- Parsing.antt: app/parsers, the router and the parsers.
-- Status.antt: app/api/routes/status.py, the reports and the event streams.
-- Embedding.antt: app/embedding/embedder.py, which the embed worker and the search call.
-- Startup.antt: app/core/startup.py and app/core/registry.py, the probes and the registry that they fill.
--
-- Parameters: for searches the arithmetic and the order of scores (Scores), the vector store, the matching and ranking of
-- PostgreSQL; for tables the language model and MindsDB; for embeddings the two backends; for the start the
-- answers of the services; the services of Ingest (sha256, str.lower, filetype.guess, the spelling of ids, and
-- whether the object store takes a file) and of the embed worker (the vector store, and what
-- other processes do meanwhile), of the parsers (the texts that the libraries find in a file, the elements of Unstructured) and of the
-- profile of a table (the CSV reader, openpyxl, the digits of a pattern),
-- to_tsvector, new ids and tokens, the tokenizer (encode, token_bytes), sha256, and settings of app/core/config.py where a
-- definition names one as an argument.
--
-- Fuel: `window_loop` has a round for each token and one more; Chunker/Windows shows that it does not
-- run out. `mark_all` and `skip_continuation` have a round for each byte, and each of their rounds goes
-- on by a byte at least. `embed_rest` has a pass for each text, and each pass takes a text at least; Embedding/Batches
-- shows that this is enough.
--
-- Not modelled: the web framework, sessions and migrations of the database, the clients of the object
-- store, the vector stores and the model services, the texts of prompts, log entries, and the scripts. A
-- handler runs as one piece, but for the embed worker, which lets other processes act while it waits.
pub mod Prelude
pub mod Models
pub mod Queue
pub mod Pipeline
pub mod Chunker
pub mod Access
pub mod Ingest
pub mod Documents
pub mod Embedding
pub mod Startup
pub mod Parsing
pub mod Tabular
pub mod Workers
pub mod Admin
pub mod Search
pub mod Status
