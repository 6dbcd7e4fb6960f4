-- ===== src/Lib.antt =====
-- Kommunsign is a platform on which Swedish municipalities sign documents. This library models the
-- parts of it that decide: what may be deleted, shown, signed, uploaded, exported or routed, who may
-- log in and with which roles, and in which order.
--
-- The parts and their files, with the paths from the repository's root:
--   Prelude: what the parts share. Equality (`===`), Lists (the array methods), Throwing (an
--     exception as a value), Text (`trim`, the order of strings), TextOrder (texts
--     as lists of code units), Number (numbers and dates), Object (the members of a plain object),
--     Sort, Ordered and Keyed (`sort`), Unique and Pigeonhole (sets), Journeys (ways through a table
--     of transitions).
--   Retention: packages/retention. Policy is index.ts to `decideRetention`, Report its
--     `buildGallringReport`, Executor the whole of executor.ts. The executor asks `decideRetention`
--     once when a job is queued and again when it is executed. Due, Lawful, Report.Laws and
--     Executor's child modules hold the theorems.
--   KeyRotation: packages/crypto/src/key-rotation.ts, whole.
--   Privacy: packages/privacy. Response is index.ts, Executor is executor.ts, which builds its
--     answer by way of Response.
--   Onboarding: the states and the transitions of packages/onboarding/src/index.ts.
--   ProtectedIdentity: packages/protected-identity/src/index.ts, whole. Types has its enumerations,
--     Disclosure what of a person is shown, Access who of the support may look.
--   SigningManifest: `buildSigningIntentManifest` of packages/signing-engine/src/manifest.ts.
--   PersonalNumber: packages/personal-number/src/index.ts. Calendar is the part of `Date` that it
--     uses; Luhn, Dates and Binding hold the theorems on its three parts.
--   Archive: `assertArchivable` of packages/archive/src/index.ts.
--   Evidence: packages/evidence/src/index.ts, its manifest and the check of the files.
--   Webhooks: packages/webhooks/src/index.ts, the check of resolved addresses and, in Signing, the
--     signature of a delivery by way of Crypto.Hmac and Crypto.CanonicalJson; Delivery has which pass.
--   TenantGateway: the resolver of packages/tenant-gateway/src/index.ts, with its cache. Its await
--     of the repository is a point at which other calls run; Routing has the steps.
--   Domains: the states of a domain, and the choice of the primary one, in
--     packages/custom-domains/src/index.ts.
--   Readiness: packages/readiness/src/index.ts.
--   Authorization: packages/authorization/src/index.ts, with both tables of roles.
--   GroupRoles: the loop by which federation and SCIM turn groups into roles.
--   Federation: packages/federation/src/index.ts, whole. Admission is `verifyWorkforceAssertion`,
--     its Replay and Pruning run it again and again on the ledger of the database, which is Ledger,
--     of apps/api/src/production-adapters/postgres/federation-repository.ts; Identity and Logout
--     are the functions behind.
--   Scim: packages/scim/src/index.ts. Create, Patch, Roles, Filter and Paging are its operations,
--     over the users and the errors of Types.
--   Crypto: packages/crypto/src. Hex, Hmac, Base64, Tokens and CanonicalJson are the encodings of
--     hash.ts, hmac.ts, base64.ts, tokens.ts and canonical-json.ts; Bits has two lemmas on them.
--   Pades: packages/pades/src/index.ts. Laws has what is admitted, Refusal what is refused.
--   AuthBroker: the codes of packages/auth-broker/src/index.ts, signed by way of Crypto.Hmac.
--     Database is their store, of application-session-repository.ts beside that repository.
--   Jobs: apps/workers/src/jobs.ts. The calls that a worker awaits are values, and what they answer
--     is a function of the calls before; Failures has the codes, Delay the retries' times.
--   Uploads: packages/uploads/src/index.ts, whole.
--   Tests: runs of the code on small inputs, and the theorems applied to them.
--
-- Names are the source's, in this language's spelling: `beginGallringExecution` is
-- `begin_gallring_execution`, the field `caseIds` is `case_ids`, the state `'QUEUED'` is `queued`.
-- A function that throws returns a `Result`: the error's code, or the value. The message of an
-- error is left out. A job is a value: an operation returns the new job, as it does in the source,
-- and a machine of states is a relation of the operations that succeed, with reachability over it.
-- A function that reads the clock takes the time as an argument.
--
-- Bounds. All recursion is structural, on the lists that the source loops over, so that there is no
-- fuel but in two places. In PersonalNumber.Calendar the days behind the end of a month are carried on
-- by at most three months, which is enough for 112 days, and a day of two digits is at most 99. In
-- Jobs a number is written with one round more than its own value, and Jobs.Delay shows that the
-- digits spell it. Instants are milliseconds from 1970 on, up to the largest that a JavaScript date
-- holds, behind which `toISOString` throws. A text that holds a time is either unparsable or an instant:
-- its spelling is left out. A number that the source checks by `Number.isSafeInteger` is a
-- `Number`, with a negative, a broken and a large one; counts that it does not check are natural
-- numbers, and their sums are exact, as those of doubles are below 2^53.
--
-- What is not code of the repository is a parameter: the SHA-256 of Web Crypto and the order of
-- `localeCompare`, in Evidence; HMAC and random bytes, in Crypto and AuthBroker, which are taken to
-- be bytes and, where a code is issued, 32 of them; the canonical spelling of a hostname, the
-- text of a date and the store of the codes, in AuthBroker, of which Database has the repository's;
-- the tables of `toLowerCase` and `toUpperCase`, in Scim, Jobs and Uploads; how a finite number is spelt, in Crypto.CanonicalJson, and what
-- `Number` makes of a text, in Webhooks; and what a handler or a
-- repository answers, in Jobs.
--
-- Not modelled: the user interfaces, the HTTP routes, the other PostgreSQL repositories, the clients of
-- outside services and the cryptographic primitives, which are third-party code or calls of it; the
-- spelling of hostnames and URLs, which is that of the URL parser; what is
-- hashed of canonical JSON; the masking of a number for display; the rendering of a SCIM user; the
-- log line of a failed job and the timer that sends heartbeats beside it; session cookies and return
-- URLs; and the packages that this library does not name.
pub mod Prelude
pub mod Retention
pub mod KeyRotation
pub mod ProtectedIdentity
pub mod SigningManifest
pub mod Domains
pub mod GroupRoles
pub mod Federation
pub mod Scim
pub mod Crypto
pub mod Pades
pub mod Jobs
pub mod Uploads
pub mod AuthBroker
pub mod Readiness
pub mod Authorization
pub mod Archive
pub mod PersonalNumber
pub mod Webhooks
pub mod Evidence
pub mod TenantGateway
pub mod Onboarding
pub mod Privacy
pub mod Tests
