-- ===== src/Tests.antt =====
-- Concrete inputs: each theorem applied where its hypotheses hold, and runs of the definitions.
mod CoreTests
mod JobsTests
mod SecurityTests
mod MessagingTests
mod DataTests
mod ConfigTests
mod SchedulerTests
mod ProbeTests
mod AuthTests
mod HttpTests
