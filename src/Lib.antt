-- ===== src/Lib.antt =====
-- AMDV: VMX instructions of a hypervisor emulated on AMD SVM. Apple's hypervisor
-- executes VMX instructions, each of which is an undefined opcode on AMD. The #UD
-- handler decodes it at the trap's RIP and emulates it on a shadow VMCS. A launch
-- translates the shadow VMCS into a VMCB, enters the guest, and translates the VMCB
-- back.
--
-- Which file models which part:
--   Base, Bits       C's casts, comparisons and shifts over natural numbers, and
--                    the laws of bitwise AND and OR with masks
--   Vmcb             src/SVM.h: constants, the packed vmcb_t by the sizes of its
--                    members, a VMCB page as bytes with its accessors, segment
--                    slots, eventinj_make. Vmcb.Stores runs a list of stores
--   Vmx              src/kern_vmx.hpp: the enumerations; Vmx.Shadow is ShadowVMCS
--                    (read and write: src/kern_vmcs_vmcb.cpp)
--   Segment          vmxArToSvmAttrib and svmAttribToVmxAr
--   Exit             svmExitToVmxReason
--   Ept              eptEntryToNpt and buildNptFromEpt; Ept.Walk has the walks of
--                    either kind of table, and nested tables made with the first
--   Entry            translateVmcsToVmcb, block by block
--   Sync             translateVmcbToVmcs
--                    (the last five: src/kern_vmcs_vmcb.cpp)
--   Trap             src/kern_trap.hpp: the saved state, and amdv_gpr
--   Emu              src/kern_vmx_emu.hpp and src/kern_vmx_emu.cpp: VmxEmulator with
--                    its operations, decodeVmx (Emu.Decode), vmlaunchResume
--                    (Emu.Launch) and handleUD (Emu.Handle). Emu.Talk is a hypervisor
--                    whose traps depend on the answers so far, Emu.Session a session
--                    of VMWRITE, VMLAUNCH and VMREAD, Emu.Resumed.Loop launches
--                    one after another
--   Backend          src/kern_svm.hpp and src/kern_svm.cpp: SvmBackend, over the
--                    MSRs, the pages and the descriptors that are held;
--                    Backend.Processors gives each processor its own MSRs
--   Switch           src/svm_switch.S: the instructions of _svmWorldSwitch, and how
--                    they run on registers, stack and GuestGprs; Switch.Host has the
--                    registers that VMLOAD replaces apart, Switch.Wrappers is the
--                    inline assembly of src/SVM.h
--   Hypervisor       src/kern_hv_amd.hpp and src/kern_hv_amd.cpp: HypervisorAMD, which
--                    brings up the backend, patches the kernel and binds the emulator;
--                    plugin_start is the call in src/kern_start.cpp. Its Lifecycle is
--                    the order of registration, loading, traps and unloading; its
--                    Session puts backend, emulator and world switch together
--   Plugin           src/kern_start.cpp and src/kmod_info.c: the configuration for Lilu,
--                    and the structure and symbols by which the kernel loads the plugin
--   Check            tests/svmcheck.c: the program that reports SVM from user space
--   Examples         the theorems at concrete inputs, and tests
--
-- Names are those of the source, in snake case. A method takes the object and
-- returns the one after it. A pointer to a member of the trap state is a `Slot`;
-- the pointer to the VMCB is an address into the pages of a `Machine`, where a page
-- that is not allocated is absent, and an access to it is the result `none`. Log
-- output is left out.
--
-- Bounds: a loop over the slots of the shadow VMCS runs as long as its count, at
-- most 256 of them. What an exit writes is at most 42 fields, so a store of at most
-- 214 fields has room for all of them (`Sync.Room`), and room that is there stays.
-- Integers keep their widths: a valid store has 32-bit encodings and 64-bit values,
-- and casts are remainders.
--
-- Parameters: `hde64_disasm` of Lilu, from an address to the report on the bytes
-- there. For a launch, the world switch, absent where AMDV_ENABLE_GUEST_LAUNCH is 0;
-- for the code of the switch, what VMLOAD, VMRUN and VMSAVE do (`Svm`), and
-- `entered` then is such a world switch. The guest does not write to the caller's
-- stack or to GuestGprs; what it writes to its own memory, and the processor to the
-- save area, is not modelled, so a theorem on pages is one on what the code here
-- writes. What a theorem wants of the switch beyond that (bytes in the
-- VMCB, no access outside of its page, control fields left alone) is a hypothesis of
-- its own. For the backend: CPUID, what a write of an MSR does, and
-- IOKit's answers to the requests for memory; `IsPlatform` says what their manuals
-- promise. For tests/svmcheck.c: the compiler's __get_cpuid (`IsGetCpuid`). For
-- loading: the answers of Lilu's patcher and of the kernel (`Patcher`). For the
-- plugin's declarations: what Lilu's headers define (`Lilu`) and the build's
-- settings.
--
-- Not modelled: src/Info.plist and the constant _kext_apple_cc; the wrapper of CPUID
-- in src/SVM.h, which is a parameter; the build, and the shell script of the
-- hardware tests; the text that tests/svmcheck.c prints beside the values.
pub mod Base
pub mod Bits
pub mod Vmcb
pub mod Vmx
pub mod Segment
pub mod Exit
pub mod Ept
pub mod Entry
pub mod Sync
pub mod Trap
pub mod Emu
pub mod Backend
pub mod Switch
pub mod Hypervisor
pub mod Check
pub mod Plugin
pub mod Examples
