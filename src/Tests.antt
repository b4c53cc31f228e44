-- ===== src/Tests.antt =====
-- The theorems applied at concrete inputs.
mod Memory
mod Scheduling
mod Files
mod Text
mod Printing
mod Commands
mod Tables
mod Display
mod Routing
mod Listing
mod Consoles
