-- ===== src/Protocol.antt =====
-- base/oac_tree_protocol.cpp: names, values and helper functions of the protocol between servers and clients.
pub mod Text
pub mod Decimal
pub mod Base64
pub mod Names
pub mod Fields
pub mod ValueName
pub mod Values
pub mod Results
