-- ===== src/Examples.antt =====
-- Runs of the modelled code on concrete inputs, and the theorems applied to them.
mod Devices
mod Modbus
mod Retries
mod Writes
mod Health
mod Commands
mod Publishing
mod Shaping
mod Merging
mod Polls
mod Pooling
mod Plc
