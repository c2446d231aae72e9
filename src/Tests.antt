-- ===== src/Tests.antt =====
-- Concrete runs: tests, and an instance of each theorem that has hypotheses.
pub mod Toy
mod WireTests
mod ReplayTests
mod CryptoTests
mod HandshakeTests
mod EngineTests
mod ServerTests
mod ConfigTests
mod DesktopTests
mod ExperimentTests
mod TrafficTests
mod SessionTests
mod BenchmarkTests
mod ServerCliTests
mod KeyTests
