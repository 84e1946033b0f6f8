-- ===== src/Json.antt =====
-- src/json: JSON documents, the base85 text of byte payloads, and the serialiser of AWST.
pub mod Base85
pub mod Value
pub mod Serializer
