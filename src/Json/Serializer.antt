-- ===== src/Json/Serializer.antt =====
-- AWSTSerializer (src/json/AWSTSerializer.cpp): AWST as the JSON documents that the backend reads.
pub mod Texts
pub mod Types
pub mod Integer
pub mod Parts
pub mod Nodes
pub mod Statements
pub mod Roots
