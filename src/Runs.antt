-- ===== src/Runs.antt =====
-- Runs of the code on concrete inputs, where the hypotheses of the theorems hold.
pub mod Fixtures
pub mod CodecRuns
pub mod RegistryRuns
pub mod NetRuns
pub mod ImportRuns
pub mod EchoRuns
pub mod EchoedRuns
pub mod RegisteringRuns
pub mod PipelineRuns
pub mod ConnectionRuns
pub mod SystemRuns
pub mod Stages
pub mod RegistryTests
pub mod DisconnectTests
pub mod WireTests
pub mod HandshakeTests
pub mod Serving
pub mod AcceptTests
pub mod SessionTests
pub mod EchoTests
pub mod Outcomes
pub mod CodecTests
pub mod CodecErrorTests
