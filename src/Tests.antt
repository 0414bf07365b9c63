-- ===== src/Tests.antt =====
-- The theorems at concrete inputs, and runs of the model.
mod Fixtures
mod Circuit
mod Server
mod Transformer
mod Sweep
mod RoundTrip
mod Dialer
mod EndpointMap
mod GivesUp
mod Life
mod Store
mod Forwarder
mod FirstWrite
mod Api
mod Worker
mod System
mod Recovery
mod Postgres
