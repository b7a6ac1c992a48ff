-- ===== src/Tests.antt =====
-- The theorems at concrete inputs.
mod Inputs
mod Operators
mod Batches
mod Transfers
mod Basics
mod Choices
mod Transport
mod Supply
mod Polls
mod Tables
mod Conversions
