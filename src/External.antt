-- ===== src/External.antt =====
-- What the agent uses of crates that are not part of the repository: parameters of the model, each
-- a record of operations with the laws that the crate documents, and a value that meets them.
pub mod Sled
pub mod SledModel
pub mod SortedEntries
pub mod Serde
pub mod Codec
