-- ===== src/Emu/Launch.antt =====
-- `vmlaunchResume` of src/kern_vmx_emu.cpp. `svmWorldSwitch` is assembly around VMRUN (Switch):
-- given the physical address of the VMCB and the registers it leaves a VMCB and registers. It is a
-- parameter here, which stands for what of its effect the code reads afterwards, and not for what
-- the guest does to memory of its own or the processor to its save area.
-- It is `none` where AMDV_ENABLE_GUEST_LAUNCH is 0 and the call is compiled out.
use svm_stuff.Base.{ℕ, true, Option, none, some, ◌==◌, if◌then◌else◌, u32}
use svm_stuff.Vmcb.Page.{Page, vmcb_get64, vmcb_set64}
use svm_stuff.Vmcb.Constants
use svm_stuff.Vmcb.Layout
use svm_stuff.Vmcb.Segment.{set_member}
use svm_stuff.Vmx.Fields.{VmcsField}
use svm_stuff.Vmx.Controls.{unknown, reason_code}
use svm_stuff.Vmx.Shadow.{set_launched}
use svm_stuff.Entry.{field, translate_vmcs_to_vmcb}
use svm_stuff.Sync.{translate_vmcb_to_vmcs}
use svm_stuff.Emu.{GuestGprs, VmxEmulator, Machine}

abbrev pub WorldSwitch : Type 0
WorldSwitch = ℕ → GuestGprs → Page → Page × GuestGprs

-- The VMCB as it is handed to the world switch.
unfoldable pub prepare : VmxEmulator → Page → Page
prepare e p = vmcb_set64 (translate_vmcs_to_vmcb e.vmcs p) Layout.vmcb_rax e.guest_rax

-- With the switch compiled out, the exit is marked as invalid.
unfoldable pub enter_guest : Option WorldSwitch → VmxEmulator → Page → Page × GuestGprs
enter_guest none e p = (set_member Layout.exit_code p Constants.vmexit_invalid, e.gprs)
enter_guest (some switch) e p = switch e.vmcb_pa e.gprs p

-- What follows the exit.
unfoldable pub finish : VmxEmulator → Page × GuestGprs → VmxEmulator
finish e (p, gprs) = record e {
  vmcs = set_launched (translate_vmcb_to_vmcs p e.vmcs e.svm_features) true;
  gprs = gprs;
  guest_rax = vmcb_get64 p Layout.vmcb_rax;
}

abbrev pub set_page : (ℕ → Option Page) → ℕ → Page → ℕ → Option Page
set_page pages a p b = if b == a then some p else pages b

unfoldable pub run_guest : Option WorldSwitch → Machine → Page → ℕ × Machine
run_guest switch m p =
    let exit = enter_guest switch m.emu (prepare m.emu p) in
    let e = finish m.emu exit in
    (
      u32 (field e.vmcs VmcsField.vm_exit_reason),
      record { emu = e; pages = set_page m.pages (m.emu).vmcb exit.0 },
    )

-- The result is the exit reason; `none` is an access through a pointer to a page that is gone.
unfoldable pub vmlaunch_resume : Option WorldSwitch → Machine → Option (ℕ × Machine)
vmlaunch_resume switch m =
    if (m.emu).vmcb == 0
    then some (reason_code unknown, m)
    else elim (m.pages (m.emu).vmcb) [ none ↦ none | some p ↦ some (run_guest switch m p) ]
