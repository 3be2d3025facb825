-- ===== src/Tests.antt =====
-- The theorems at concrete inputs, and runs of the definitions.
mod CipherTests
mod NegotiationTests
mod EncryptedTests
mod AuthTests
mod SshReadTests
mod ClientTests
mod DialogueTests
mod CodesTests
mod SessionTests
mod KexTests
mod LoopTests
mod ClientKexTests
mod ServerTests
