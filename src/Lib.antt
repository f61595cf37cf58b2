-- ===== src/Lib.antt =====
-- A model of the ochakai server, a knowledge base served over REST and MCP from one Go binary and
-- PostgreSQL.
--
-- Parts and files.
--   Common          tests on numbers, lists, sorting, results: the shared helpers.
--   Text            Go's strings as lists of bytes, with the functions of package strings and of
--                   unicode/utf8 and encoding/base64 that the server calls.
--   Domain          internal/domain. Segments: ids, prefixes and bundle paths. Actor: actors and
--                   principals. Access: the rules of the access policy, their validation, their
--                   order and the version of a policy. Trust: statuses, verifications, tiers and
--                   rulings. Content: a concept, and when two of them say the same.
--   Store           internal/store. Access: the table access_rule and its replacement.
--                   Verification: an entry's verification ledger, its timeline and the predicates
--                   in SQL that read it. Entries: the concepts of the table object with their
--                   revisions and purges, the transactions that write them, and what every
--                   sequence of these keeps.
--   Service         internal/service. Access: the scope of a caller, the checks of reads and writes,
--                   the narrowing of filters, and the policy's own operations. Cursor: where the next
--                   page of a listing or of a directory resumes. Listing: a page, and
--                   the walk over pages. Curation: the guards of what somebody ruled on.
--                   Entries: what a payload is held to, and Create, CreateKeepingCurated, Update,
--                   Put, Plan, Delete, Verify and Purge over the transactions of Store.
--   HttpAuth        internal/httpauth: the credential, the forwarded identity and the producer that a
--                   request is recorded under.
--   Agent           internal/agent: the conversation that a call carries, the tools, the rounds of a
--                   turn and the cut of a tool's result. The tools of a dry run are those whose reads
--                   are left out of the counts, as service.Unmeasured has it.
--   Tests           runs and instances.
-- A Go function keeps its name in the model, in lower case with underscores. A value that Go
-- mutates is passed on: a loop is a recursion over what is left, with the loop's variables as
-- arguments. An error is a constructor that names its cause; the text of a message is left out. A
-- request reaches Service, which resolves the caller's scope from the configuration and the rows of
-- Store, and both use Domain for the rules.
--
-- Parameters: Unicode NFC, SHA-256 with its hexadecimal print, the verifier of tokens and the email
-- claim of a token's payload, the print of a time, a listing's query, which a theorem takes to answer
-- the rows from a position on, and the database's row order, which a theorem takes to be a
-- rearrangement of the rows. Of a concept's write: what package okf makes of a document, the links of
-- a body, lower case and the reading of a moment. Of the agent: the model with its prompts, the
-- encoder, the regular expression that finds a query, and what the tools ask of the service.
--
-- An operation on the access policy sees one state of the table. The writes of a concept take what
-- other connections do between two of their statements as functions on the store; `alone` is the
-- case in which nobody else writes; the Get before the statement of SoftDelete and the statement
-- see one state. A value of the producer's own keys is its canonical JSON, or none where JSON cannot
-- encode it. All loops run over lists, but for the rounds of the agent, which are the sixteen of the
-- source, the print of a count, whose fuel is the 19 digits of the largest int64, and a walk over
-- pages, which is given more pages than there are rows.
--
-- Not modelled: HTTP, JSON, the text of SQL, of which Store has the predicates, the clamps and the
-- transactions as functions, the logs, and the parts not named above, such as documents, moves and
-- files, search, embeddings, migrations, the client of the model, the command line and the web
-- interface.
pub mod Common
pub mod Text
pub mod Domain
pub mod Store
pub mod Service
pub mod HttpAuth
pub mod Agent
pub mod Tests
