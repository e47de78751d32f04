-- ===== src/Lib.antt =====
-- A model of the core of the broker platform (src/modules, src/db and db/migrations), with the
-- theorems that make it correct.
--
-- The platform keeps the accreditations of mortgage brokers with lenders. Every function of a
-- repository runs one transaction under an authorization context; the row-level security policies
-- and the unique indexes of the database decide what the transaction may see and change.
--
-- Parts:
--   Prelude           names of the libraries, Boolean tests and list lemmas.
--   Json              JSON values, for ruleset definitions.
--   Db                Context: the authorization context and the session variables
--                     (src/db/authorization-context.ts). Schema: the rows. Policies: for each
--                     table, who sees, inserts and updates a row, and which rows conflict
--                     (db/migrations). Transaction: statements and withAuthorizationContext.
--                     Inversion: what a statement that returned has done. Ordering: ORDER BY.
--   Audit, Metering   recordAuditEvent and recordMeteringEvent.
--   Notifications     Templates; Repository: createNotification, markSent, setPreference; Reads:
--                     listMine, getPreferences; Effects and Mandatory: the proofs.
--   Rulesets          Types, Evaluator and Validation: the ruleset engine; Repository: createDraft,
--                     publish, resolve, listForOrganisation, getById; Outstanding, Publication: proofs.
--   Accreditation     Guards and Decisions: the lender's actions; Requests: requestAccreditation;
--                     Parties: flagPartyChanged and endAffiliation of the businesses module;
--                     Training: the training and the activation; Reads: lists. Operations is the
--                     type of all functions that change an accreditation, Transitions the abstract
--                     state machine, and Steps relates the two;
--                     Invariant, Terminal, Isolation, Authority and Admission are about what
--                     follows.
--   Brokers           brokers.repository.ts. Completeness: computeOutstandingItems; Profiles: reading,
--                     changing and submitting a profile; Memberships: its association memberships;
--                     Reconstruction: reconstructAsOf. Submission, Requirements and
--                     Replay: proofs.
--   Relationships     Repository: the functions; Operations: their type; Billing, Sharing: proofs.
--   Verification      CheckResults: recordCheckResult; Current: the proofs.
--   Identity          identity.repository.ts. Crypto: hashes and encryption; Accounts:
--                     organisations, client users, registration; SignIn; Passwords: change and
--                     reset; Mfa: secrets and backup codes; Sessions: refresh tokens. Operations
--                     is the type of the functions that write tokens. Revocation, Spent, Rotation,
--                     Replacement, Resets, SingleUse, SignOut, Hashes, RoundTrips, Recovery and
--                     BackupCodes:
--                     proofs.
--   Businesses        businesses.repository.ts. Completeness: what a submission asks for;
--                     Repository: create, update, submit; Affiliations; Principals. Editing,
--                     Submission, Membership and Endings: proofs.
--   Evidence          Catalogue: the document catalogue and the outstanding documents. Coverage: proofs.
--   Tests             a sample database, and the theorems on it.
--
-- How the model corresponds to the code:
--   A transaction is a function from a world (the database, the session, the clock and the uuids to
--   come) to a result and the next world. A statement is select, insert, update, delete, or one of the two
--   forms of ON CONFLICT, on a table that says what the policies and indexes say. An error ends the
--   transaction and leaves the database as it was. A function that sets app.actor_type for some
--   statements does so here. Transactions of concurrent callers are taken one after the other.
--   Ids, times, years and the numbers in JSON are natural numbers; a time is in seconds. Loops over
--   rows are recursion on the list, so no fuel is used. The uuids are any function of a counter: a uuid that is taken
--   makes the insert fail. A detail of an audit entry and columns that no modelled code reads are
--   left out. toLowerCase is a parameter of inviteBroker.
--
--   In the identity module node's crypto and encodings and toLowerCase are the fields of a record
--   that the functions take; what the proofs need of the encodings is the record IsNode, and of the
--   encryption Decrypts. Random bytes are any function of their number and a counter. Emails are
--   compared as they are stored. The clock of the host gives one time to a transaction.
--
-- Not modelled: the web client, controllers and guards, the sign-in service, the providers (identity
-- verification, business register, geocoding, storage, email), reads that join tables for display,
-- and the parts of brokers and evidence that Brokers and Evidence do not name.
pub mod Prelude
pub mod Json
pub mod Db
pub mod Audit
pub mod Metering
pub mod Notifications
pub mod Rulesets
pub mod Identity
pub mod Accreditation
pub mod Businesses
pub mod Brokers
pub mod Relationships
pub mod Verification
pub mod Evidence
pub mod Tests
