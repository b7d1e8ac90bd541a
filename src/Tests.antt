-- ===== src/Tests.antt =====
-- Tests of the definitions at concrete inputs, and the theorems applied to such inputs.
mod Codec
mod Registry
mod ProxyTests
mod PublisherTests
mod RoutingTests
mod InboundTests
mod AutoindexTests
mod EdgeTests
mod ClientTests
mod ConfigTests
mod ErrorTests
mod ChallengeTests
