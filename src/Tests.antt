-- ===== src/Tests.antt =====
-- The theorems at concrete stations, inputs and configurations.
mod Numbers
mod Stations
mod Inputs
mod Files
mod Commands
mod Programs
mod Parsed
mod Printing
mod Networks
mod Entry
mod Threads
