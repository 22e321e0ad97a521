-- ===== src/Examples/Hypervisor.antt =====
-- Loading on a kernel that knows the first gate symbol and the latch, a trap, and unloading.
use svm_stuff.Base.{none-ne-some, ℕ, ◌≡◌, refl, arith, Bool, true, false, none, some, [], ◌∷◌, ◌≤◌}
use svm_stuff.Vmx.Controls
use svm_stuff.Emu.{Machine, unbound, bind}
use svm_stuff.Emu.Handle.{advance, handle_ud}
use svm_stuff.Emu.Handle.Fields.{after_vmwrite, step_length, handle-vmwrite}
use svm_stuff.Trap.{SavedState64}
use svm_stuff.Backend.{
  initial, detect, enable, enable_svme, enable_vmcb, alloc_contiguous_page, keep_page,
}
use svm_stuff.Hypervisor.{
  Symbol, vmx_hv_support, vmx_is_available, hv_support_available, Patcher, Kernel, World,
  on_patcher_load, patch_kernel, plugin_start, init, machine_of, with_machine, deinit,
}
use svm_stuff.Hypervisor.Patch.{Patched, patch_kernel-Patched}
use svm_stuff.Hypervisor.Serve.{IsReady}
use svm_stuff.Hypervisor.Lifecycle.{Reaches, boot, start, load_up, ud, up, Holds}
use svm_stuff.Hypervisor.Lifecycle.Invariant.{Reaches-Holds}
use svm_stuff.Hypervisor.Lifecycle.Serve.{Reaches-Serves, Reaches-deinit_dangling}
use svm_stuff.Hypervisor.Lifecycle.Unset.{unset_ranges, NeverSet, Reaches-NeverSet}
use svm_stuff.Vmcb.Stores.Ranges.{in_ranges}
use svm_stuff.Vmcb.Page.{vmcb_set64, set_bytes-Outside}
use svm_stuff.Emu.Launch.{prepare}
use svm_stuff.Emu.Spared.{SwitchSpares}
use svm_stuff.Backend.{first_vmcb}
use svm_stuff.Switch.Refine.{entered}
use svm_stuff.Hypervisor.Session.{by_code, Serves, Reaches-Session}
use svm_stuff.Emu.Launch.{WorldSwitch}
use svm_stuff.Switch.{word}
use svm_stuff.Vmx.Fields.{VmcsField}
use svm_stuff.Examples.Switch.{halting, halting-KeepsBytes, caller}
use svm_stuff.Examples.Session.{value_fits, names_cr0, vmlaunch-IsVmx}
use svm_stuff.Examples.Samples.{sample, sample-IsValid, sample_count}
use svm_stuff.Examples.Backend.{hardware, boot_system, hardware-IsPlatform}
use svm_stuff.Examples.Emu.{code, trap_at, vmwrite-Traps, vmread-Traps}
use svm_stuff.Examples.Trace.{trap_at-HasWords}

abbrev addresses : Symbol → ℕ
addresses vmx_hv_support = 0xFFFFFF8000300000
addresses vmx_is_available = 0
addresses hv_support_available = 0xFFFFFF8000C00000

abbrev patcher : Patcher
patcher = record {
  solve = addresses;
  routes = λ s. true;
  trampoline = λ s. 0xFFFFFF7F80001000;
  writing = true;
  amdvgate = true;
}

abbrev kernel : Kernel
kernel = record {
  ints = λ a. 0;
  writable = false;
  routed = [];
  error = false;
  org_vmx_is_available = 0;
}

abbrev world : World
world = record {
  sys = boot_system;
  kernel = kernel;
  svm = initial;
  vmx = record unbound { vmcs = sample };
  callback_inst = false;
  registered = false;
}

world-IsReady : IsReady world
world-IsReady = record {
  off = refl;
  no_vmcb = refl;
  vmcs = sample-IsValid;
  rax = omega arith;
  bytes = λ a p e. absurd (none-ne-some p e);
}

patch_kernel-Patched_example : Patched patcher kernel (patch_kernel patcher kernel)
patch_kernel-Patched_example = patch_kernel-Patched patcher kernel

comes_up : ((on_patcher_load hardware patcher (plugin_start world)).svm).enabled ≡ true
unfolding plugin_start init on_patcher_load detect enable enable_svme enable_vmcb
    alloc_contiguous_page keep_page
comes_up = refl

abbrev loaded : World
loaded = on_patcher_load hardware patcher (plugin_start world)

is_registered : (plugin_start world).registered ≡ true
unfolding plugin_start init
is_registered = refl

abbrev after_trap : World
after_trap = with_machine loaded (after_vmwrite code (trap_at 0x100) (machine_of loaded))

-- Registration, loading, and a trap of VMWRITE.
serves : Reaches hardware patcher code none tt world up after_trap
serves =
    ud (trap_at 0x100) (advance (step_length code Controls.vmwrite (trap_at 0x100)) (trap_at 0x100))
      true (load_up (start boot) is_registered comes_up) trap_at-HasWords
      (handle-vmwrite code none (trap_at 0x100) (machine_of loaded) vmwrite-Traps)

Reaches-Holds_example : Holds patcher world up after_trap
Reaches-Holds_example =
    Reaches-Holds hardware patcher code none tt world hardware-IsPlatform world-IsReady serves

Reaches-Serves_example :
    (b : Bool) × (st' : SavedState64) × (m : Machine) × (handle_ud code none
        (trap_at 0x100)
        (machine_of after_trap)
      ≡ some (b, st', m))
    × Reaches hardware patcher code none tt world up (with_machine after_trap m)
Reaches-Serves_example =
    Reaches-Serves hardware patcher code none tt world (trap_at 0x100) hardware-IsPlatform
      world-IsReady serves trap_at-HasWords

Reaches-deinit_dangling_example :
    handle_ud code none (trap_at 0x106) (machine_of (deinit hardware after_trap)) ≡ none
Reaches-deinit_dangling_example =
    Reaches-deinit_dangling hardware patcher code none tt world (trap_at 0x106) hardware-IsPlatform
      world-IsReady serves vmlaunch-IsVmx

-- The same plugin with the world switch compiled in.
abbrev switch : WorldSwitch
switch = by_code halting

launches : Reaches hardware patcher code (some switch) halting-KeepsBytes world up loaded
launches = load_up (start boot) is_registered comes_up

loaded_count : ((loaded.vmx).vmcs).count ≤ 213
unfolding plugin_start init on_patcher_load detect enable enable_svme enable_vmcb
    alloc_contiguous_page keep_page bind
loaded_count = omega (arith, sample_count)

Reaches-Session_example :
    Serves hardware patcher code halting halting-KeepsBytes world loaded caller
      (word 0x1234)
      (word 99 ∷ [])
      (trap_at 0x100)
      (trap_at 0x106)
      (trap_at 0x103)
      VmcsField.guest_cr0
Reaches-Session_example =
    Reaches-Session hardware patcher code halting halting-KeepsBytes world caller (word 0x1234)
      (word 99 ∷ []) (trap_at 0x100) (trap_at 0x106) (trap_at 0x103) VmcsField.guest_cr0
      hardware-IsPlatform world-IsReady launches loaded_count value_fits vmwrite-Traps
      vmlaunch-IsVmx vmread-Traps names_cr0

first_page : (loaded.sys).pages (loaded.vmx).vmcb ≡ some (first_vmcb (λ a. 0))
unfolding plugin_start init on_patcher_load detect enable enable_svme enable_vmcb
    alloc_contiguous_page keep_page bind
first_page = refl

halting_spares : (a : ℕ) → in_ranges a unset_ranges ≡ true → SwitchSpares (some switch) a
unfolding entered vmcb_set64
halting_spares a h pa g p = set_bytes-Outside 8 p 0x070 0x78 a (ground (arith, h))

Reaches-NeverSet_example : NeverSet (prepare loaded.vmx (first_vmcb (λ a. 0)))
Reaches-NeverSet_example =
    Reaches-NeverSet hardware patcher code (some switch) halting-KeepsBytes world
      (first_vmcb (λ a. 0)) halting_spares hardware-IsPlatform world-IsReady launches first_page
