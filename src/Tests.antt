-- ===== src/Tests.antt =====
-- Concrete libraries for the parameters, and the theorems at concrete inputs.
mod SampleDto
mod SampleInput
mod Names
mod Entries
mod Input
mod Queue
mod SampleTree
mod Jobs
mod Manager
mod SampleRpc
mod Remote
mod InputRemote
mod ClientJob
mod IoClient
mod Launch
mod Asked
mod Delivery
