-- ===== src/Hypervisor/Patch.antt =====
-- The routes and the latch of src/kern_hv_amd.cpp: what the patches leave of the kernel.
use svm_stuff.Base.{ℕ, ◌≡◌, arith, Bool, false, ◌&&◌, not, ◌∷◌, ◌==◌, if◌then◌else◌}
use svm_stuff.Hypervisor.{
  Symbol, vmx_hv_support, vmx_is_available, hv_support_available, Patcher, Kernel,
  set_hv_support_available, patch_kernel,
}

-- The address of the latch, and whether the patches write there.
abbrev pub latch : Patcher → ℕ
latch pt = pt.solve hv_support_available

abbrev pub latch_set : Patcher → Bool
latch_set pt = (pt.amdvgate && pt.writing) && not (latch pt == 0)

abbrev pub can_route : Patcher → Symbol → Bool
can_route pt s = not (pt.solve s == 0) && pt.routes s

-- What depends on the symbol that is routed: the first that is known and can be, if there is one.
abbrev pub by_gate : {A : Type 0} → Patcher → (Symbol → A) → A → A
by_gate pt routed otherwise =
    if can_route pt vmx_hv_support
    then routed vmx_hv_support
    else if can_route pt vmx_is_available
    then routed vmx_is_available
    else otherwise

pub record Patched (pt : Patcher) (k k' : Kernel) : Type 0 where
  pub ints : (a : ℕ) → k'.ints a ≡ (if latch_set pt && (a == latch pt) then 1 else k.ints a)
  pub routed : k'.routed ≡ by_gate pt (λ s. s ∷ k.routed) k.routed
  pub org : k'.org_vmx_is_available ≡ by_gate pt pt.trampoline k.org_vmx_is_available
  pub error : k'.error ≡ false
  pub writable : k'.writable ≡ (if latch_set pt then false else k.writable)

-- One function is routed, that of the first gate symbol that is known and can be, or none; the
-- static for the original holds its trampoline. No integer of the kernel changes but the latch,
-- which becomes 1 if -amdvgate is given, the latch is known and write protection can be lifted.
-- Protection is back then, and the patcher is left with no error.
pub patch_kernel-Patched : (pt : Patcher) (k : Kernel) → Patched pt k (patch_kernel pt k)
unfolding patch_kernel
patch_kernel-Patched pt k = record {
  ints = λ a. ground arith;
  routed = ground arith;
  org = ground arith;
  error = ground arith;
  writable = ground arith;
}

-- The write of the latch reports success exactly if the latch is known and write protection can be
-- lifted; the latch then holds the value, and otherwise no integer has changed.
pub set_hv_support_available_lem :
    (pt : Patcher) (value : ℕ) (k : Kernel) (a : ℕ)
    → ((set_hv_support_available pt value k).1 ≡ (pt.writing && not (latch pt == 0)))
      × ((set_hv_support_available pt value k).0.ints a
          ≡ (if (pt.writing && not (latch pt == 0)) && (a == latch pt) then value else k.ints a))
unfolding set_hv_support_available
set_hv_support_available_lem pt value k a = (ground arith, ground arith)
