-- ===== src/Entry/Control.antt =====
-- The control area of the VMCB after the translation: intercepts, nested paging, ASID, event.
use svm_stuff.Base.{
  ℕ, ◌+◌, ◌*◌, ◌/◌, ◌%◌, ◌^◌, ◌<◌, ◌≡◌, ◌≢◌, refl, arith, ◌==◌, ◌&&◌, if◌then◌else◌, truthy, u32,
  Bool-cases, inl, inr, ◌∙◌,
}
use svm_stuff.Bits.{bit_or_bit, bit_and_bit, bit_and_field}
use svm_stuff.Vmcb.Page.{Page}
use svm_stuff.Vmcb.Layout
use svm_stuff.Vmcb.Segment.{get_member}
use svm_stuff.Vmx.Fields.{VmcsField, encoding}
use svm_stuff.Vmx.Shadow.{ShadowVmcs}
use svm_stuff.Vmx.Shadow.Invariant.{IsValid, read-lt}
use svm_stuff.Ept.{build_npt_from_ept}
use svm_stuff.Entry.{
  field, pin_controls, cpu_controls, sec_controls, intercept_word, npt_root, translate_vmcs_to_vmcb,
}
use svm_stuff.Entry.Stores.{paging_enabled, asid}
use svm_stuff.Entry.State.{translate-hit}

-- Bit `i` of a field.
abbrev pub control : ShadowVmcs → VmcsField → ℕ → ℕ
control s f i = field s f / 2 ^ i % 2

-- The intercepts that the VMX controls ask for: physical interrupts and HLT; VMRUN always.
pub record InterceptsLoaded (s : ShadowVmcs) (q : Page) : Type 0 where
  pub first :
      get_member Layout.intercept_1 q
      ≡ control s VmcsField.pin_exec_control 0 + control s VmcsField.cpu_exec_control 7 * 2 ^ 24
  pub second : get_member Layout.intercept_2 q ≡ 1
  pub exceptions :
      get_member Layout.intercept_exceptions q ≡ u32 (field s VmcsField.exception_bitmap)

intercept_as_sum : (pin cpu : ℕ) → intercept_word pin cpu ≡ pin % 2 + cpu / 2 ^ 7 % 2 * 2 ^ 24
unfolding intercept_word
intercept_as_sum pin cpu =
    ground (arith, bit_and_bit 0 pin, bit_and_bit 7 cpu, bit_or_bit 24 1, bit_or_bit 24 0)

-- After the translation the VMCB intercepts physical interrupts just if the pin controls ask for
-- it, HLT just if the processor controls do, and the exceptions in the bitmap. Of the second word
-- VMRUN alone is left: CPUID and VMMCALL are not intercepted.
pub translate-InterceptsLoaded :
    (s : ShadowVmcs) (p : Page) → InterceptsLoaded s (translate_vmcs_to_vmcb s p)
unfolding get_member pin_controls cpu_controls
translate-InterceptsLoaded s p = record {
  first = translate-hit s p 4 0x00C refl (omega (arith, e)) ∙ omega (arith, e);
  second = translate-hit s p 4 0x010 refl (omega arith);
  exceptions = translate-hit s p 4 0x008 refl (omega arith);
}
  where
    e :
        intercept_word (pin_controls s) (cpu_controls s)
        ≡ pin_controls s % 2 + cpu_controls s / 2 ^ 7 % 2 * 2 ^ 24
    e = intercept_as_sum (pin_controls s) (cpu_controls s)

-- A secondary control counts only if the primary controls activate the secondary ones.
abbrev pub secondary : ShadowVmcs → ℕ → ℕ
secondary s i =
    if control s VmcsField.cpu_exec_control 31 == 1
    then control s VmcsField.secondary_exec_ctl i
    else 0

-- Nested paging is on exactly if EPT is; N_CR3 is then the page of the EPT root.
pub record PagingLoaded (s : ShadowVmcs) (q : Page) : Type 0 where
  pub enabled : get_member Layout.np_enable q ≡ secondary s 1
  pub root :
      get_member Layout.nested_cr3 q
      ≡ (if secondary s 1 == 1 then field s VmcsField.ept_pointer / 2 ^ 12 * 2 ^ 12 else 0)

-- The address space is VPID, cut to 32 bits, where VPIDs are enabled and it is not 0, else 1.
abbrev pub asid_wanted : ShadowVmcs → ℕ
asid_wanted s =
    if (secondary s 5 == 1) && truthy (u32 (field s VmcsField.virtual_processor_id))
    then u32 (field s VmcsField.virtual_processor_id)
    else 1

pub record AsidLoaded (s : ShadowVmcs) (q : Page) : Type 0 where
  pub wanted : get_member Layout.guest_asid q ≡ asid_wanted s
  pub ne_zero : get_member Layout.guest_asid q ≢ 0

paging_on : (s : ShadowVmcs) → (if paging_enabled s then 1 else 0) ≡ secondary s 1
unfolding sec_controls cpu_controls
paging_on s = ground (
  arith,
  bit_and_bit 31 (u32 (field s VmcsField.cpu_exec_control)),
  bit_and_bit 1 (u32 (field s VmcsField.secondary_exec_ctl)),
)

npt_root_as_sum :
    (s : ShadowVmcs)
    → field s VmcsField.ept_pointer < 2 ^ 64
    → npt_root s ≡ field s VmcsField.ept_pointer / 2 ^ 12 * 2 ^ 12
unfolding npt_root build_npt_from_ept
npt_root_as_sum s h = ground (arith, bit_and_field 12 52 (field s VmcsField.ept_pointer))

paging_root :
    (s : ShadowVmcs)
    → field s VmcsField.ept_pointer < 2 ^ 64
    → (if paging_enabled s then npt_root s else 0)
      ≡ (if secondary s 1 == 1 then field s VmcsField.ept_pointer / 2 ^ 12 * 2 ^ 12 else 0)
paging_root s h = rw (← paging_on s) (elim (Bool-cases (paging_enabled s)) [
  | inl on ↦ rw on (npt_root_as_sum s h)
  | inr off ↦ rw off
])

-- From a valid shadow VMCS, nested paging is enabled exactly if the secondary controls are active
-- and enable EPT. N_CR3 is then the page of the EPT root itself, and 0 otherwise.
pub translate-PagingLoaded :
    (s : ShadowVmcs) (p : Page) → IsValid s → PagingLoaded s (translate_vmcs_to_vmcb s p)
unfolding get_member
translate-PagingLoaded s p valid = record {
  enabled = translate-hit s p 8 0x090 refl (rw (paging_on s) (ground arith)) ∙ paging_on s;
  root =
      translate-hit s p 8 0x0B0 refl
        (rw e (ground (arith, read-lt s (encoding VmcsField.ept_pointer) valid)))
      ∙ e;
}
  where
    e :
        (if paging_enabled s then npt_root s else 0)
        ≡ (if secondary s 1 == 1 then field s VmcsField.ept_pointer / 2 ^ 12 * 2 ^ 12 else 0)
    e = paging_root s (read-lt s (encoding VmcsField.ept_pointer) valid)

asid-wanted : (s : ShadowVmcs) → asid s ≡ asid_wanted s
unfolding sec_controls cpu_controls
asid-wanted s = ground (
  arith,
  bit_and_bit 31 (u32 (field s VmcsField.cpu_exec_control)),
  bit_and_bit 5 (u32 (field s VmcsField.secondary_exec_ctl)),
)

-- The ASID is the VPID cut to 32 bits where VPIDs are enabled and that is not 0, and 1 otherwise;
-- it is never 0, which is the host's.
pub translate-AsidLoaded : (s : ShadowVmcs) (p : Page) → AsidLoaded s (translate_vmcs_to_vmcb s p)
unfolding get_member
translate-AsidLoaded s p = record { wanted = e; ne_zero = rw e (ground arith) }
  where
    e : get_member Layout.guest_asid (translate_vmcs_to_vmcb s p) ≡ asid_wanted s
    e = translate-hit s p 4 0x058 refl (rw (asid-wanted s) (ground arith)) ∙ asid-wanted s
