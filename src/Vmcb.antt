-- ===== src/Vmcb.antt =====
-- The VMCB page of src/SVM.h: bytes and accessors (`Page`), the constants (`Constants`), the packed
-- structure and the offsets of the state-save area (`Layout`, `Members`), the segment slots
-- (`Segment`), sequences of stores (`Stores`), event injection (`Event`).
pub mod Page
pub mod Constants
pub mod Layout
pub mod Stores
pub mod Segment
pub mod Members
pub mod Event
