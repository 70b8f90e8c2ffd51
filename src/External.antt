-- ===== src/External.antt =====
-- The libraries that the program calls, as parameters: sup-dto, sup-protocol and the oac-tree core.
pub mod Scalars
pub mod Dto
pub mod UserInput
pub mod Codec
pub mod OacTree
pub mod Rpc
pub mod LocalJob
