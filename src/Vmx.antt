-- ===== src/Vmx.antt =====
-- The VMX model of src/kern_vmx.hpp: field encodings (`Fields`, `Encodings`), controls, exit reasons
-- and opcodes (`Controls`), and the shadow VMCS (`Shadow`).
pub mod Fields
pub mod Controls
pub mod Shadow
pub mod Encodings
