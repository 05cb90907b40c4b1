-- ===== src/Lib.antt =====
-- Verification of the Snowflake connector for Node.js (lib/).
--
-- A connection keeps a session with the server (lib/services/sf.js). The session holds the cache of
-- query contexts (lib/queryContextCache.js) that travels with its requests and is updated from the
-- responses. The result of a statement is a list of chunks (lib/connection/result), of which those
-- that a window of rows needs are downloaded (lib/services/large_result_set.js), ahead of the
-- reader, and streamed row by row.
--
-- Service: the session as a state machine. Service/Tokens is TokenInfo, Service/State the state
--   and what is sent and answered, Service/Calls the calls by state, the transitions and the queue
--   of operations, Service/Login and Service/Responses the callbacks of the requests, Service/Okta
--   the reauthentication of auth_okta.js (lib/authentication), which may throw in the callback of
--   a login, and Service/Network the events in any order: a client's call, or the answer to any
--   message that is in flight. A call is a number that stands for its options; what callbacks are
--   given is a list.
-- QueryContext: addQCE, merge, checkCacheCapacity and the others over an object store with
--   references, since the identifier map, the priority map and the ordered set of the source share
--   mutable elements. QueryContext/Wire is (de)serialisation.
-- ResultSet: ResultSet/Chunk is chunk.js and createChunks, ResultSet/Window the binary search of
--   result.js and the opening of row_stream.js, ResultSet/Stream result_stream.js with Chunk.load,
--   and ResultSet/Buffer and ResultSet/Rounds processRowBuffer of row_stream.js. ResultSet/Column is
--   extractFromRow of column.js, ResultSet/Column/Structured and ResultSet/Column/Rows are its
--   structured types, ResultSet/External is externalizeRow of row_stream.js, and
--   ResultSet/Interrupts its _read, onResultStreamClose and close.
-- Statement: Statement/Checks and Statement/Options the checks of options (lib/errors.js,
--   statement.js), Statement/Types data_types.js, Statement/Context createContextPreExec and
--   createStatementPostExec, Statement/Binds buildBindsMap, Statement/Completion the requests of a
--   row statement with responses in any order, Statement/Multi NextResult, and Statement/Fetch
--   fetchRowsFromResult. Connection: getResultsFromQueryId of connection.js.
-- Retry: isRetryableHttpError, nextSleepTime, getJitteredSleepTime and others of lib/util.ts;
--   Retry/LargeResultSet is getObject of large_result_set.js.
-- Revocation: lib/agent/crl_validator. Revocation/Certificates is certificate_utils.ts and
--   crl_signature_verifier.ts, Revocation/Fetcher crl_cache.ts and crl_fetcher.ts with the memory,
--   the disk and the fetches that are pending as a state, and Revocation/Validator index.ts. The
--   verdict of the crypto library and what is downloaded are arguments.
-- Ocsp: the status protocol of lib/agent. Ocsp/Responses is verifyOCSPResponse of cert_util.js,
--   Ocsp/Check is check.js, and Ocsp/Chain socket_util.js with the callbacks of a chain in any
--   order. The decoded responses, the crypto library and the cache of responses are arguments.
-- FileTransfer: PUT, in lib/file_transfer_agent. FileTransfer/Uploads is uploadOneFile of
--   remote_storage_util.js for any storage, FileTransfer/S3 is s3_util.js with its upload in parts,
--   and FileTransfer/Agent the loop over the files of file_transfer_agent.js and the result of PUT.
--   What the storage, the compression, the encryption and the file system answer are arguments. A
--   run keeps the calls that it made.
-- ResultSet/ColumnNames: unique_column_name_creator.js.
--
-- The other files hold proofs, and those named Examples the tests.
--
-- The binary search has fuel for as many steps as there are chunks, and the eviction for as many
-- as the set has elements; each step leaves fewer. The downloads recurse on the answers that come.
-- The upload in parts has fuel for the bytes that are left, the search for a free column name for
-- the names that there are, and the responder of the status protocol is asked at most twice
-- (Ocsp/Bounded). The reauthentication of Okta has a round for each retry that is left, and one.
-- The attempts of PUT are an argument, since its loop need not end.
--
-- Not modelled: connection options, authentication but for the reauthentication of Okta, the
-- download of files, the storages of Azure and GCS, the download and the file of the cache of the
-- status protocol, and the conversions of numbers, dates and times, which rest on packages;
-- logging, telemetry, credential caching, the building of requests, and callbacks of the client
-- that throw or call the session again before they return. Times are whole numbers, and random
-- draws are arguments. A read outside an array, which throws in the source, is `none`.
mod Prelude
pub mod QueryContext
pub mod ResultSet
pub mod Retry
pub mod Revocation
pub mod Service
pub mod Statement
pub mod Connection
pub mod FileTransfer
pub mod Ocsp
