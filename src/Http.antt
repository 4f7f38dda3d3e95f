-- ===== src/Http.antt =====
-- What the SDK does to the world and what the world answers: HTTP requests (net/http), waiting
-- (`select` on a context and a timer), the rate limiter and the clock. The SDK's side is a trace of
-- actions; the other side is any function of the trace so far.
mod Header
pub mod Env
pub mod Within
pub mod Ensures
unfoldable pub use Header.*
