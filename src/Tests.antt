-- ===== src/Tests.antt =====
-- Runs of the model at concrete inputs, and the theorems applied there.
mod Samples
mod TextTests
mod OutboxTests
mod MailboxTests
mod BuildTests
mod ProtocolTests
mod HelperTests
mod HostTests
mod RuntimeTests
mod TableTests
mod ServeTests
mod StdioTests
mod CompileTests
