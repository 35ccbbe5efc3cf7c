-- ===== src/Lib.antt =====
-- The model of an AS4 library in Python: parsing and verifying received ebMS messages, answering
-- them with signed receipts and error signals, and tracking the exchange on either side, with the
-- Peppol profile on top.
--
-- Parts, and the code that each is about:
-- - Base: lists, dicts, texts and Boolean tests, over native numbers; no code of its own.
-- - Errors: as4/errors.py, and its storage in as4/core/serialisation.py.
-- - Outcome: a call returns a value or raises (`Result`); Outcome/Exec adds the object that the code
--   writes to, which comes back beside what was raised; Outcome/Validation is the reading of
--   pydantic's errors.
-- - Etree: lxml's elements, `id_attributes` of as4/utils/xml_parser.py and `index_elements_by_id` of
--   as4/core/common.py.
-- - Platform, Environment: the third parties, as records of functions.
-- - Models: the pydantic models of as4/models, one record each, and `element_to_dict`.
-- - Documents: what the models' properties read.
-- - Dsig: as4/models/dsig, digests and signatures.
-- - Parties, References: as4/core/common.py, context.py and references.py.
-- - Message: `AS4Message` of as4/core/message.py: Coverage, Digests, Signature, Decryption, Process
--   and Parse are its class methods, in the order in which they call each other.
-- - Serialise: `dump_to_xml` of as4/models/common.py: Signal for receipts and error signals,
--   UserMessages, Sbdh, KeyInfos and Envelopes for the rest. Reading says what a receiver reads of
--   a document that was written.
-- - Receipt: `AS4Receipt` of as4/core/receipt.py: Verification reads a signal; Signals and Build
--   construct one, and Build/Accepted takes what Build constructs through Verification.
-- - Exchange: as4/core/exchange.py, the Sending and the Receiving side; Building has `build`,
--   `build_signal` and `restore`.
-- - Trust: as4/core/trust.py and the Peppol policy of as4/profiles/peppol/profile.py.
-- - Mime: the reading side of as4/utils/mime_handler.py, and `unpack_message`; Writing has the other
--   side, with the requests of as4/core/message.py and receipt.py.
-- - Peppol: the reading side of as4/profiles/peppol/message.py, its checks, and in Process the steps
--   that use them. Build is the other side of that file, with as4/utils/cipher_handler.py: its
--   children Security, Signing and Envelope construct, and the rest follow a built message through
--   the receiver. DocumentIdentifier and Profile are the files of these names beside it.
-- - Profiles, Storage: as4/core/profiles.py and the rest of as4/core/serialisation.py.
-- - Tests: a small message and its parties, at which the theorems are applied.
--
-- A received message goes through Mime, then Message (or Peppol, which runs Message's `process` and
-- adds its own), then Receipt.Build; Exchange.Receiving joins these. A signal that comes back goes
-- through Receipt.Verification and Receipt's comparison; Exchange.Sending joins these. Both sides
-- meet in `ComparableReferenceFields` of Dsig. Message.Signature calls the signer resolver of the
-- policy, which Trust constructs. A message is sent by Peppol.Profile, which calls Peppol.Build, and
-- written by Mime.Writing over Serialise. Peppol/Profile/Completed joins all of these, from `build` by
-- way of `receive` to `receive_signal`.
--
-- A method is a function of the source's name. What it raises is a value of `Raised`; an `except`
-- clause is a function on results. A loop is recursion over its list, and a function stands for one
-- round where the round has several exits. Bytes are lists of numbers, times are numbers, a set of
-- texts is a list, a dict keeps its order. Only the chain of certificates counts its rounds: the
-- maximum depth bounds them in the source as well, since a round adds one certificate.
--
-- Parameters: RSA, hashes, AES-GCM, gzip, base64 and X.509 (Platform), lxml's parser, paths and
-- canonicalisation, pydantic's validation (Environment), the email parser, urllib3's encoder, the
-- clock, the random values and the uuids (Supplies, Writer). Only the round trips assume laws of
-- them, each as a named hypothesis: `Opening` (RSA-OAEP, AES-GCM, base64), `Verifiable` (RSA
-- signatures, base64), `Unzips` (gzip), `ParsesBack` (the email parser), `Arrives` (lxml and pydantic
-- on a serialised envelope), `Received` (canonicalisation of what was parsed), `Reads` (the parse
-- of a written document), and `Returns` (both, for a signal). These do not take what is read for what
-- was built: Serialise/Reading gives a model the element that `element_to_dict` adds, drops the
-- attributes that `dump_to_xml` does not write, and cuts the times to what is written (`read_time`).
-- Such a hypothesis can hold only where no text is empty. Peppol/Build/Read and Peppol/Build/ReadBack
-- carry the lemmas of Accepted and Delivered from the envelope as built to the envelope as read.
--
-- Not modelled: the constant certificates of as4/profiles/peppol/pki.py; the schema of the business
-- document header; the wildcard content of models that nothing reads and that a sender does not fill;
-- and the prefixes of namespaces. What a receiver parses from a built envelope is related to it by
-- the hypotheses of the round trip, not by a model of lxml.
pub mod Base
pub mod Errors
pub mod Outcome
pub mod Etree
pub mod Platform
pub mod Profiles
pub mod Storage
pub mod Models
pub mod Dsig
pub mod Parties
pub mod Documents
pub mod Environment
pub mod Message
pub mod References
pub mod Serialise
pub mod Receipt
pub mod Exchange
pub mod Trust
pub mod Mime
pub mod Peppol
pub mod Tests
