-- ===== src/RateLimit.antt =====
-- server/src/zaqorincore_server/rate_limit.py: the sliding-window limiter of the API.
-- Times are whole milliseconds of the monotonic clock, so that the window of 60.0 s is 60000.
pub mod Bucket
pub mod Middleware
pub mod Window
pub mod Allow
pub mod Prune
pub mod Throttle
pub mod Budget
pub mod Retry
mod Tests
