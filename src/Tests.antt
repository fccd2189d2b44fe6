-- ===== src/Tests.antt =====
-- Tests on concrete inputs, and each theorem that has hypotheses at an input that meets them.
mod Fixtures
mod FilterTests
mod StoreTests
mod EngineTests
mod InterleaveTests
mod SourcesTests
mod ScheduleTests
mod DeliveryTests
mod ReceiptTests
mod ContractTests
mod AiTests
mod LoopTests
mod WiringTests
mod SpanTests
mod WebTests
mod SummaryTests
