-- ===== src/Vmx/Encodings.antt =====
-- The field encodings of src/kern_vmx.hpp against one another.
use svm_stuff.Base.{
  ℕ, ◌≡◌, ◌≢◌, refl, sym, ap, ◌∙◌, Bool, true, false, ◌&&◌, Option, none, some, List, [], ◌∷◌, ◌==◌,
  if◌then◌else◌, ==_ne,
}
use svm_stuff.Vmx.Fields.{VmcsField, encoding}
use svm_stuff.Vmx.Shadow.{ShadowVmcs, read, write}
use svm_stuff.Vmx.Shadow.Refine.{read-write}

abbrev all_fields : List VmcsField
all_fields =
    VmcsField.virtual_processor_id ∷ VmcsField.guest_es_selector ∷ VmcsField.guest_cs_selector
    ∷ VmcsField.guest_ss_selector ∷ VmcsField.guest_ds_selector ∷ VmcsField.guest_fs_selector
    ∷ VmcsField.guest_gs_selector ∷ VmcsField.guest_ldtr_selector ∷ VmcsField.guest_tr_selector
    ∷ VmcsField.io_bitmap_a ∷ VmcsField.msr_bitmap ∷ VmcsField.link_pointer ∷ VmcsField.ept_pointer
    ∷ VmcsField.guest_ia32_pat ∷ VmcsField.guest_ia32_efer ∷ VmcsField.pin_exec_control
    ∷ VmcsField.cpu_exec_control ∷ VmcsField.exception_bitmap ∷ VmcsField.vm_exit_controls
    ∷ VmcsField.vm_entry_controls ∷ VmcsField.vm_entry_intr_info
    ∷ VmcsField.vm_entry_exception_error ∷ VmcsField.vm_entry_instr_len
    ∷ VmcsField.secondary_exec_ctl ∷ VmcsField.vm_exit_reason ∷ VmcsField.vm_exit_intr_info
    ∷ VmcsField.vm_exit_intr_error ∷ VmcsField.idt_vectoring_info ∷ VmcsField.vm_exit_instr_len
    ∷ VmcsField.guest_es_limit ∷ VmcsField.guest_cs_limit ∷ VmcsField.guest_ss_limit
    ∷ VmcsField.guest_ds_limit ∷ VmcsField.guest_fs_limit ∷ VmcsField.guest_gs_limit
    ∷ VmcsField.guest_ldtr_limit ∷ VmcsField.guest_tr_limit ∷ VmcsField.guest_gdtr_limit
    ∷ VmcsField.guest_idtr_limit ∷ VmcsField.guest_es_ar ∷ VmcsField.guest_cs_ar
    ∷ VmcsField.guest_ss_ar ∷ VmcsField.guest_ds_ar ∷ VmcsField.guest_fs_ar ∷ VmcsField.guest_gs_ar
    ∷ VmcsField.guest_ldtr_ar ∷ VmcsField.guest_tr_ar ∷ VmcsField.guest_interruptibility
    ∷ VmcsField.guest_cr0 ∷ VmcsField.guest_cr3 ∷ VmcsField.guest_cr4 ∷ VmcsField.guest_es_base
    ∷ VmcsField.guest_cs_base ∷ VmcsField.guest_ss_base ∷ VmcsField.guest_ds_base
    ∷ VmcsField.guest_fs_base ∷ VmcsField.guest_gs_base ∷ VmcsField.guest_ldtr_base
    ∷ VmcsField.guest_tr_base ∷ VmcsField.guest_gdtr_base ∷ VmcsField.guest_idtr_base
    ∷ VmcsField.guest_rsp ∷ VmcsField.guest_rip ∷ VmcsField.guest_rflags ∷ VmcsField.guest_cr2 ∷ []

-- The field with an encoding.
abbrev find : ℕ → List VmcsField → Option VmcsField
find e [] = none
find e (f ∷ fs) = if encoding f == e then some f else find e fs

find-encoding : (f : VmcsField) → find (encoding f) all_fields ≡ some f
find-encoding VmcsField.virtual_processor_id = refl
find-encoding _ = refl

pub encoding-injective : (f g : VmcsField) → encoding f ≡ encoding g → f ≡ g
encoding-injective f g e =
    let same : some f ≡ some g =
      sym (find-encoding f) ∙ ap (λ e. find e all_fields) e ∙ find-encoding g in
    cc

-- A write of one field of the enumeration leaves every other as it was, also where the store is
-- full.
pub read-write_other :
    (s : ShadowVmcs) (f g : VmcsField) (v : ℕ)
    → f ≢ g
    → read (write s (encoding f) v).0 (encoding g) ≡ read s (encoding g)
read-write_other s f g v ne =
    read-write s (encoding g) (encoding f) v
    ∙ rw (==_ne (encoding f) (encoding g) (λ e. ne (encoding-injective f g e)))
        (unstored (write s (encoding f) v).1)
  where
    unstored : (b : Bool) → (if b && false then v else read s (encoding g)) ≡ read s (encoding g)
    unstored true = refl
    unstored false = refl
