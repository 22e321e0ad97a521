-- ===== src/Hypervisor.antt =====
-- src/kern_hv_amd.hpp and src/kern_hv_amd.cpp: the plugin's object. When Lilu's patcher has loaded it
-- brings SVM up, patches the kernel and binds the emulator. Lilu and the kernel it patches are not
-- in the repository: `Patcher` holds their answers.
pub mod Patch
pub mod Load
pub mod Serve
pub mod Lifecycle
pub mod Session
use svm_stuff.Base.{ℕ, Bool, true, false, not, List, [], ◌∷◌, ◌==◌, if◌then◌else◌}
use svm_stuff.Backend.{Platform, System, SvmBackend, detect, enable, disable}
use svm_stuff.Emu.{VmxEmulator, Machine, bind}

-- The kernel symbols that the code names.
pub data Symbol : Type 0 where
  vmx_hv_support : Symbol
  vmx_is_available : Symbol
  hv_support_available : Symbol

-- `solve` is a symbol's address, 0 if it is unknown; `routes` says whether a symbol that is known can
-- be routed, and `trampoline` is what the original function is then reached by; `writing` says
-- whether write protection can be lifted, and `amdvgate` whether the boot argument is there.
pub record Patcher : Type 0 where
  pub solve : Symbol → ℕ
  pub routes : Symbol → Bool
  pub trampoline : Symbol → ℕ
  pub writing : Bool
  pub amdvgate : Bool

-- The kernel and the patcher as the code changes them: the integers at their addresses, whether
-- write protection is lifted, the functions routed to `wrapVmxIsAvailable`, the last first, the
-- patcher's error, and the static `orgVmxIsAvailable`, which the router writes.
pub record Kernel : Type 0 where
  pub ints : ℕ → ℕ
  pub writable : Bool
  pub routed : List Symbol
  pub error : Bool
  pub org_vmx_is_available : ℕ

-- The object `hvAmd`, its statics, and what it reaches. `registered` says that Lilu has the callback.
pub record World : Type 0 where
  pub sys : System
  pub kernel : Kernel
  pub svm : SvmBackend
  pub vmx : VmxEmulator
  pub callback_inst : Bool
  pub registered : Bool

abbrev pub vmx_avail_symbols : List Symbol
vmx_avail_symbols = vmx_hv_support ∷ vmx_is_available ∷ []

unfoldable pub wrap_vmx_is_available : Bool
wrap_vmx_is_available = true

unfoldable pub solve_symbol : Patcher → Symbol → Kernel → Kernel × ℕ
solve_symbol pt s k = (if pt.solve s == 0 then record k { error = true } else k, pt.solve s)

abbrev pub clear_error : Kernel → Kernel
clear_error k = record k { error = false }

unfoldable pub route_multiple : Patcher → Symbol → Kernel → Kernel × Bool
route_multiple pt s k =
    if pt.routes s
    then (record k { routed = s ∷ k.routed; org_vmx_is_available = pt.trampoline s }, true)
    else (record k { error = true }, false)

abbrev pub write_int : ℕ → ℕ → Kernel → Kernel
write_int addr v k = record k { ints = λ a. if a == addr then v else k.ints a }

unfoldable pub set_hv_support_available : Patcher → ℕ → Kernel → Kernel × Bool
unfolding solve_symbol
set_hv_support_available pt value k =
    let (k, addr) = solve_symbol pt hv_support_available k in
    let k = clear_error k in
    if addr == 0
    then (k, false)
    else if not pt.writing
    then (k, false)
    else let k = write_int addr value (record k { writable = true }) in
      let k = record k { writable = false } in (k, k.ints addr == value)

-- One round of the loop over the symbols, true where it ends the loop.
unfoldable pub try_route : Patcher → Symbol → Kernel → Kernel × Bool
unfolding solve_symbol route_multiple
try_route pt s k =
    let (k, addr) = solve_symbol pt s k in
    let k = clear_error k in
    if addr == 0
    then (k, false)
    else let (k, done) = route_multiple pt s k in if done then (k, true) else (clear_error k, false)

unfoldable pub route_gate : Patcher → List Symbol → Kernel → Kernel × Bool
unfolding try_route
route_gate pt [] k = (k, false)
route_gate pt (s ∷ ss) k =
    let (k, done) = try_route pt s k in elim done [ true ↦ (k, true) | false ↦ route_gate pt ss k ]

-- The latch: written with -amdvgate, and read for the log without.
unfoldable pub set_latch : Patcher → Kernel → Kernel
unfolding set_hv_support_available solve_symbol
set_latch pt k =
    if pt.amdvgate
    then (set_hv_support_available pt 1 k).0
    else clear_error (solve_symbol pt hv_support_available k).0

unfoldable pub patch_kernel : Patcher → Kernel → Kernel
unfolding route_gate set_latch
patch_kernel pt k = set_latch pt (route_gate pt vmx_avail_symbols k).0

unfoldable pub on_patcher_load : Platform → Patcher → World → World
on_patcher_load hw pt w =
    let (svm, found) = detect hw w.sys w.svm in
    if not found
    then record w { svm = svm }
    else let (sys, svm, on) = enable hw w.sys svm in
      if not on then record w { sys = sys; svm = svm } else record w {
        sys = sys;
        svm = svm;
        kernel = patch_kernel pt w.kernel;
        vmx = bind svm.vmcb svm.vmcb_pa svm.svm_features w.vmx;
      }

-- The callback that Lilu is given calls `on_patcher_load` on this object.
unfoldable pub init : World → World
init w = record w { callback_inst = true; registered = true }

unfoldable pub deinit : Platform → World → World
deinit hw w = let (sys, svm) = disable hw w.sys w.svm in record w { sys = sys; svm = svm }

-- The function of the plugin's configuration in src/kern_start.cpp.
unfoldable pub plugin_start : World → World
unfolding init
plugin_start w = init w

-- What the emulator reaches of the world, and the world after it.
abbrev pub machine_of : World → Machine
machine_of w = record { emu = w.vmx; pages = (w.sys).pages }

abbrev pub with_machine : World → Machine → World
with_machine w m = record w { vmx = m.emu; sys = record (w.sys) { pages = m.pages } }
