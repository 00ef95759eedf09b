-- ===== src/Lib.antt =====
-- RubezAI: the core of rubezh-api, the gateway between a user's chat and the language models. A
-- request is sanitized by a service of its own (rubezh-sanitizer), a policy decides from the risk
-- that it reports whether a model may get the raw text, the text with pseudonyms, or nothing, the
-- answer is checked for leaks, and every step is written to the audit log.
--
-- Which file is about which part (paths below rubezh-api/internal):
--   Policy          policy/policy.go, policy/engine.go: the rules and Decide; Policy/Severity is
--                   riskOrder, decisionOrder and decisionByOrder of chat/orchestrator_rag.go
--   Sanitizer       sanitizer/types.go
--   Pseudonym       chat/pseudonym.go: BuildPseudonymMap; Pseudonym/Replace is Restore and Remask;
--                   Pseudonym/Leak is chat/leak.go
--   Preview         chat/preview.go: the one-time cache of previews
--   Throttle        chat/throttle.go: the limiter of auxiliary audit events
--   Storage         the records that storage/audit.go, chat.go, mapping.go and incidents.go take
--   Chat            the orchestrator: Chat/Mapping (mapping.go), Chat/Decision (decision.go),
--                   Chat/Records and Chat/Chunks (records.go), Chat/Incident (auto_incident.go),
--                   Chat/Errors (the classes of errors of orchestrator.go), Chat/Rag (rag.go,
--                   orchestrator_rag.go), Chat/Review (orchestrator_review.go,
--                   review_attachments.go), Chat/World (what the orchestrator runs against)
--                   and Chat/Orchestrator: Steps (emitStatus, recordAuditEvent, consumePreview),
--                   Mappings (buildEncryptedMappings), Prepare, Retrieval (runRetrieval,
--                   maybeRevisePolicy), Rounds (runModelReview), Stream (Stream, runLLM,
--                   finishBlocked, Handle), Gate (Preview); Silence, Preparing, Recorded, Order
--                   and Deltas are proofs about them
--   Chat/Retriever  chat/rag.go: ChatRetriever; Sources is a proof about it
--   Auth            auth/auth.go: tokens; Auth/Middleware is the check of the Authorization header
--   Crypto          crypto/aesgcm.go: the framing of nonce and ciphertext
--   Config          config/config.go: Load; Config/Start is a proof about it
--   Llm             llm: Ssh and Bridge (ssh_cli.go), Router (router.go, mock.go); Markers are proofs
--   Storage/Audit   storage/audit.go: the query that lists events; Query is its meaning, Printed
--                   its text, Order the order of the answers
--   Storage/Documents  storage/documents.go with the tables of migrations 000004, 000005 and 000011;
--                   Acl is who may see a document, in Go and in SQL; Access and Lifecycle are proofs,
--                   the latter with mark_done of rubezh-worker/app/queue.py
--   Storage/Search  storage/search.go: SearchChunks; Found is a proof
--   Storage/Incidents  storage/incidents.go with the table of migrations 000006 and 000008:
--                   creating incidents, Patch (PatchIncident), Listing (ListIncidents); Locking and Sound
--                   are proofs
--   Api             the handlers: Http (http.Error), Ids (isUUID, currentUserID of chat.go), Reveal
--                   (chat_reveal.go), Audit with Listing and Export (audit.go), Incidents with
--                   Editing, Creating and Reading (incidents.go) and
--                   Notes (incidents_notes.go), Chat with Resolve and Handler (chat.go),
--                   Chat/Preview (previewChatHandler, documentPreview), RateLimit (ratelimit.go),
--                   Documents with Upload, Reading and Changing (documents.go, storage/minio.go),
--                   Search (search.go); the other children are proofs about them
-- Prelude has the shared tests, lists, texts, integers, dictionaries and results; Tests has the
-- theorems at concrete inputs.
--
-- How Go is read. A string is its list of code points; len of a string is byte_len where the source
-- counts bytes. An int that comes from JSON is an integer, a length or a counter a natural number:
-- the counters are bounded by sizes that fit a machine word. A float is only passed on, as its 64
-- bits, or compared by a parameter. A map is an association list; where the source ranges over a map and the order matters it
-- sorts, and so does the model. A mutex makes each call one step; a clock reading is an argument.
-- What is not in the repository is a parameter: SHA-256, the Unicode normal form and lower case, JSON
-- decoding, the patterns of attachment links and of suspicious text, base64, AES-GCM, HMAC, token buckets, the services
-- and the database, whose answers may depend on everything that happened before.
-- strings.NewReplacer is written out in Pseudonym/Replace, an empty pattern included. Loops are
-- structural; chunk_loop has the length of the text as fuel, which is enough since each round takes
-- at least one character for a positive size.
--
-- A handler is a function of the authenticated identity and of the decoded request: an answer is
-- the value that is written as JSON, or the status and text of http.Error, beside the state that it
-- changes. A statement of SQL is read as what it selects or changes: the conditions of the audit
-- query are data with their text and their meaning, and a change of an incident is a transaction on
-- tables that are maps by their primary keys, with the constraints and the trigger of the migrations;
-- what else the database may refuse is a parameter. The cast of a text to uuid is a parameter where
-- rights to documents are asked for; elsewhere ids are compared as
-- texts, in the spelling of the column. The embeddings and their distance, the column of
-- rights of a document with its operator of containment, and the object store are parameters too; a
-- document's handlers change the tables and the bucket one after the other, as the source does, with
-- no transaction around both. In Api/Audit/Paging the client's patience is fuel, and more pages than
-- there are events are enough.
--
-- Not modelled: HTTP and SSE framing, log lines, the messages of status events and the seconds of
-- duration metrics, the handlers and queries of models, policies, users and credentials, the
-- history of chats, OIDC, the clients of OpenAI and Anthropic and the process that runs SSH, the command line
-- client, and the programs in other languages (rubezh-sanitizer, rubezh-worker, rubezh-web), but for one
-- query of the worker.
--
-- The orchestrator is a state (World: the cache, the two limiters, and the history of all calls out of
-- it) and steps that change the state and may fail; an environment (Env) answers each call as a
-- function of the history before it. The cache is read and written by one request at a time; the
-- goroutine that opens an incident is run where it is started, after the final event.
pub mod Prelude
pub mod Policy
pub mod Sanitizer
pub mod Pseudonym
pub mod Preview
pub mod Throttle
pub mod Storage
pub mod Chat
pub mod Auth
pub mod Crypto
pub mod Llm
pub mod Config
pub mod Api
pub mod Tests
