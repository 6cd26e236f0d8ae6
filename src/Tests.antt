-- ===== src/Tests.antt =====
-- Tests of the development at concrete inputs.
mod Data
mod Cursor
mod Marks
mod Caddyfile
mod Lifecycle
mod Breakers
mod Checks
mod Requests
mod Settings
mod Protocols
