-- ===== src/Emu.antt =====
-- `VmxEmulator` of src/kern_vmx_emu.hpp and src/kern_vmx_emu.cpp: its state and the VMX operations.
-- `Decode` finds the instruction behind a #UD, `Launch` runs VMLAUNCH, `Handle` is the #UD handler.
-- `Kept`, `RoundTrip` and `Entered` are about one launch, `Resumed` about one launch after another,
-- `Trace` and `Serve` about one trap after another, `Session` about three of them. `Contents` and
-- `Talk` compare machines that differ in the order of slots, `Confined` is about what is written at
-- all, `Spared` and `Lasting` about what stays, and `Spec` is the abstract machine.
pub mod Decode
pub mod Launch
pub mod Handle
pub mod Kept
pub mod Spared
pub mod RoundTrip
pub mod Trace
pub mod Entered
pub mod Resumed
pub mod Serve
pub mod Contents
pub mod Talk
pub mod Session
pub mod Confined
pub mod Lasting
pub mod Spec
use svm_stuff.Base.{ℕ, Bool, true, false, Option, none, some}
use svm_stuff.Vmcb.Page.{Page}
use svm_stuff.Vmx.Shadow.{ShadowVmcs, fresh, read, write, set_launched}

pub record GuestGprs : Type 0 where
  pub rbx : ℕ
  pub rcx : ℕ
  pub rdx : ℕ
  pub rbp : ℕ
  pub rsi : ℕ
  pub rdi : ℕ
  pub r8 : ℕ
  pub r9 : ℕ
  pub r10 : ℕ
  pub r11 : ℕ
  pub r12 : ℕ
  pub r13 : ℕ
  pub r14 : ℕ
  pub r15 : ℕ

-- `vmcb` is the pointer to the bound VMCB, 0 where none is bound.
pub record VmxEmulator : Type 0 where
  pub vmcs : ShadowVmcs
  pub gprs : GuestGprs
  pub guest_rax : ℕ
  pub vmcb : ℕ
  pub vmcb_pa : ℕ
  pub svm_features : ℕ
  pub vmx_root : Bool

-- The state that the emulator reaches: its own, and the pages of memory at their addresses. A page
-- that was never allocated, or that was given back, is `none`.
pub record Machine : Type 0 where
  pub emu : VmxEmulator
  pub pages : ℕ → Option Page

abbrev pub no_gprs : GuestGprs
no_gprs = record {
  rbx = 0;
  rcx = 0;
  rdx = 0;
  rbp = 0;
  rsi = 0;
  rdi = 0;
  r8 = 0;
  r9 = 0;
  r10 = 0;
  r11 = 0;
  r12 = 0;
  r13 = 0;
  r14 = 0;
  r15 = 0;
}

-- A new object.
abbrev pub unbound : VmxEmulator
unbound = record {
  vmcs = fresh;
  gprs = no_gprs;
  guest_rax = 0;
  vmcb = 0;
  vmcb_pa = 0;
  svm_features = 0;
  vmx_root = false;
}

unfoldable pub bind : ℕ → ℕ → ℕ → VmxEmulator → VmxEmulator
bind vmcb vmcb_pa svm_features e = record e {
  vmcb = vmcb;
  vmcb_pa = vmcb_pa;
  svm_features = svm_features;
}

unfoldable pub vmxon : VmxEmulator → VmxEmulator
vmxon e = record e { vmx_root = true }

unfoldable pub vmxoff : VmxEmulator → VmxEmulator
vmxoff e = record e { vmx_root = false }

unfoldable pub vmptrld : VmxEmulator → VmxEmulator
vmptrld e = record e { vmcs = set_launched e.vmcs false }

unfoldable pub vmclear : VmxEmulator → VmxEmulator
vmclear e = record e { vmcs = set_launched e.vmcs false }

unfoldable pub vmwrite : ℕ → ℕ → VmxEmulator → VmxEmulator × Bool
vmwrite f v e = let (s, stored) = write e.vmcs f v in (record e { vmcs = s }, stored)

unfoldable pub vmread : ℕ → VmxEmulator → ℕ
vmread f e = read e.vmcs f
