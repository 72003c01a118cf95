-- ===== src/Lib.antt =====
-- drop_point: a verification library beside the relay, a service to which senders upload encrypted
-- submissions for a drop point and from which its receiver picks them up.
--
-- The parts and where they stand
--   Errors          the sentinel errors of internal/droppoint/droppoint.go and the driver's failures
--   DropPoint       internal/droppoint/droppoint.go: DropPoint, New, RequireOpen, Expire, Close, Fail
--   Submission      internal/droppoint/droppoint.go: Submission, NewSubmission, CommitSubmission,
--                   MarkSubmissionPickedUp, AcknowledgeSubmission, FailSubmission
--   Token           internal/token/token.go; Token/Base64 is the standard library's RawURLEncoding
--   Store           internal/store/repository.go, api_tokens.go and the schema of migrate.go:
--                   Table (queries on a list of rows), Rows (rows and scans), Sql (connection, failing
--                   calls, transactions), DropPoints, Queue (uploads), Submissions, Sweep (listings and
--                   cleanup queries) and ApiTokens, one function per method of Repository
--   Store/Invariant   what every method keeps; History runs any sequence of calls
--   Store/Refinement  the methods against the lifecycle functions of DropPoint and Submission
--   Store/Outcome     what single methods return and change
--   Cleanup         internal/cleanup/cleanup.go: Service.ReconcileStartup and Service.Expire; Kept carries
--                   a property of the tables through them, Files and Recovery use it
--   Config          internal/config/config.go: Default, ApplyEnvironmentOverrides, Validate
--   Api             internal/httpapi/create.go and auth.go: authentication, request validation and
--                   createDropPoint
--   Blob            internal/blobstore/blobstore.go: copyPayload, on an interface of the uploader's
--                   stream, the context and the file
--   Crypto          internal/cryptoenv: Json (the scan for repeated fields) and Envelope of envelope.go,
--                   Names and Manifest of manifest.go, Reference of reference.go
--   Handlers        internal/httpapi: Receiver (receiver.go), Drop and Submit (drop.go,
--                   drop_metadata.go), Pickup (pickup.go), over Store and an interface of the blob store;
--                   Hoare carries facts through a handler, the other modules prove what an answer says
-- A method or function keeps its name in this library's spelling: Repository.CommitSubmission is
-- `commit_submission` of Store/Queue, droppoint.CommitSubmission is `commit` of Submission.
--
-- How state and errors are modelled
--   The database is a record of three tables. store.go opens one connection, so statements run one
--   after the other. A method is a function from a connection to a result and a connection; two
--   methods do not interleave. Every call of the driver reads one entry of the list `faults` and
--   fails if that is true, a statement before it has any effect; past the end of the list no call
--   fails. A theorem for any connection holds for any pattern of failures. A transaction puts the
--   tables back after an error of its body; a commit that fails is undone or recorded all the same,
--   which the next entry of the list tells. The rows of a statement are found by tests, counted and updated as SQL does; primary keys, unique columns, the foreign key and its
--   cascade are written out. A Go error is an element of `Error`; wrapping keeps its identity.
--   The cleanup service works on the connection, on an abstract blob store with a state of its own,
--   and on its counts, which Go returns beside an error too. A handler works on the connection and on
--   the state of an abstract blob store; it ends with a refusal, a status and a code, or with the value
--   that the response shows. The error of a function of internal/cryptoenv has no sentinel but
--   `envelope_invalid`, so it is `invalid_argument`.
--
-- Numbers, times, bounds
--   Integers are unbounded; the sums and products that the code forms from a validated configuration
--   are shown to fit int64. Instants and durations are nanoseconds from Go's zero time. The texts that
--   the tables store for instants are kept as the instants: the fixed layout sorts alike for the
--   years 0 to 9999. The creation of a drop point has three attempts, as in
--   the source. The search for a free file name has fuel for two tries more than there are
--   names taken, and the scan for repeated fields for as many calls as there are tokens, twice; both
--   are shown to be enough. The copy of an upload has fuel for one round more than the limit has bytes,
--   since every round but the last copies one, which is enough too. All other loops are recursions on lists.
--
-- Parameters
--   SHA-256, random bytes and the generated display name, net/url.Parse, strconv, os.LookupEnv,
--   strings.TrimSpace on a header and the Unicode tables are arguments of the functions that use them.
--   So are golang.org/x/text/unicode/norm, what encoding/json makes of a text, mime.ParseMediaType and
--   mime/multipart, the texts of instants in a manifest, X25519, HKDF-SHA-256 and AES-GCM. What is
--   relied on of the last is in the records `UnicodeLaws` and `PrimitiveLaws`, and what is
--   relied on of the stream and the file of an upload in `StreamLaws`.
--
-- Not modelled
--   The rest of internal/blobstore (paths, directories, the temporary files and their renaming),
--   routes, cross-origin headers and the redaction of logged paths in internal/httpapi, the printing
--   of test vectors (internal/cryptoenv/vectors.go), opening and migrating the database file, process
--   start-up (cmd, internal/server), logging and the web page.
pub mod Base
pub mod Blob
pub mod Errors
pub mod DropPoint
pub mod Submission
pub mod Store
pub mod Token
pub mod Config
pub mod Cleanup
pub mod Api
pub mod Crypto
pub mod Handlers
