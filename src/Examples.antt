-- ===== src/Examples.antt =====
-- Tests of the model at concrete inputs, and the theorems applied there.
mod Samples
mod Vmx
mod Emu
mod Trace
mod Formats
mod Translate
mod Backend
mod Switch
mod Hypervisor
mod Session
mod Check
mod Plugin
