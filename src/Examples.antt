-- ===== src/Examples.antt =====
-- Runs of the code on concrete inputs: tests, and instances of the theorems.
mod Halves
mod Transfers
mod Channels
mod Keys
mod Requests
mod Forwards
mod Attempts
mod Copies
