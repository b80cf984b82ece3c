-- ===== src/Telemetry.antt =====
-- Telemetry (src/app/modules/telemetry): the writers' queues, the filters, the composer and the
-- daemon's way to build it, the rate limits of the Telegram writer, the reader of log files, and the
-- masking of secrets.
pub mod Writer
pub mod Composer
pub mod Runner
pub mod Bucket
pub mod Telegram
pub mod Reader
pub mod Masking
mod Tests
mod LimitTests
