-- ===== src/Models.antt =====
-- The document models of as4/models: one record for each class, one field for each field of it. An
-- element with a single text is a record too, as in the source. `etree_element` is kept where the
-- program reads it.
pub mod Transforms
pub mod Reference
pub mod Tokens
pub mod KeyInfo
pub mod Signature
pub mod Xenc
pub mod Security
pub mod MessageInfo
pub mod UserMessage
pub mod SignalMessage
pub mod Messaging
pub mod Soap
pub mod Sbdh
pub mod Wildcard
pub mod Mapping
