-- ===== src/Entry/Injection.antt =====
-- The event that the VMCB injects after the translation.
use svm_stuff.Base.{
  Bool-cases, inl, inr, ℕ, ◌/◌, ◌%◌, ◌^◌, ◌<◌, ◌≡◌, refl, Bool, true, false, arith, bit_and, ◌==◌,
  if◌then◌else◌, truthy, u32, ◌∙◌, ap,
}
use native.Mathlib.Nat.{one-le-pow}
use svm_stuff.Bits.{bit_and_bit, bit_and_field}
use svm_stuff.Vmcb.Page.{Page, vmcb_get64}
use svm_stuff.Vmcb.Layout
use svm_stuff.Vmcb.Event.{IsEvent, eventinj_make-IsEvent}
use svm_stuff.Vmx.Fields.{VmcsField}
use svm_stuff.Vmx.Controls.{vmx_entry_vector, vmx_entry_type}
use svm_stuff.Vmx.Shadow.{ShadowVmcs}
use svm_stuff.Entry.{field, svm_event_type, event_word, translate_vmcs_to_vmcb}
use svm_stuff.Entry.Stores.{event}
use svm_stuff.Entry.State.{translate-hit}
use svm_stuff.Entry.Control.{control}

-- The type of the event in SVM: software exceptions and INT1 become exceptions.
abbrev pub type_wanted : ℕ → ℕ
type_wanted t = if t == 0 then 0 else if t == 2 then 2 else if t == 4 then 4 else 3

-- The event that VMX asks for, if its valid bit is set, is the event that VMRUN injects.
pub data EventLoaded (s : ShadowVmcs) (q : Page) : Type 0 where
  injected :
      control s VmcsField.vm_entry_intr_info 31 ≡ 1
      → IsEvent
          (field s VmcsField.vm_entry_intr_info % 2 ^ 8)
          (type_wanted (field s VmcsField.vm_entry_intr_info / 2 ^ 8 % 8))
          (control s VmcsField.vm_entry_intr_info 11 == 1)
          (u32 (field s VmcsField.vm_entry_exception_error))
          (vmcb_get64 q Layout.vmcb_ctl_eventinj)
      → EventLoaded s q
  not_injected :
      control s VmcsField.vm_entry_intr_info 31 ≡ 0
      → vmcb_get64 q Layout.vmcb_ctl_eventinj ≡ 0
      → EventLoaded s q

vector_lem : (info : ℕ) → vmx_entry_vector info ≡ info % 2 ^ 8
unfolding vmx_entry_vector
vector_lem info = omega (arith, bit_and_field 0 8 info)

type_lem : (info : ℕ) → svm_event_type (vmx_entry_type info) ≡ type_wanted (info / 2 ^ 8 % 8)
unfolding vmx_entry_type svm_event_type
type_lem info =
    let low : bit_and (info / 2 ^ 8) 7 ≡ info / 2 ^ 8 % 8 =
      omega (arith, bit_and_field 0 3 (info / 2 ^ 8)) in
    ap type_wanted low

flag_lem : (k info : ℕ) → truthy (bit_and info (2 ^ k)) ≡ (info / 2 ^ k % 2 == 1)
flag_lem k info = ground (arith, bit_and_bit k info, one-le-pow k 2)

entry_word-IsEvent :
    (info err : ℕ)
    → info / 2 ^ 31 % 2 ≡ 1
    → err < 2 ^ 32
    → IsEvent
        (info % 2 ^ 8)
        (type_wanted (info / 2 ^ 8 % 8))
        (info / 2 ^ 11 % 2 == 1)
        err
        (event_word info err)
unfolding event_word
entry_word-IsEvent info err on h =
    rw (flag_lem 31 info, on, vector_lem info, type_lem info, flag_lem 11 info)
      (eventinj_make-IsEvent (info % 2 ^ 8) (type_wanted (info / 2 ^ 8 % 8))
        (info / 2 ^ 11 % 2 == 1) err (omega arith) (ground arith) h)

no_event : (info err : ℕ) → info / 2 ^ 31 % 2 ≡ 0 → event_word info err ≡ 0
unfolding event_word
no_event info err off = rw (flag_lem 31 info, off)

IsEvent-lt : (v t : ℕ) (b : Bool) (c e : ℕ) → c < 2 ^ 32 → IsEvent v t b c e → e < 2 ^ 64
IsEvent-lt v t true c e h is = omega arith
IsEvent-lt v t false c e h is = omega arith

-- The cast to 32 bits keeps the fields.
cut_word-IsEvent :
    (x err : ℕ)
    → x / 2 ^ 31 % 2 ≡ 1
    → err < 2 ^ 32
    → IsEvent
        (x % 2 ^ 8)
        (type_wanted (x / 2 ^ 8 % 8))
        (x / 2 ^ 11 % 2 == 1)
        err
        (event_word (u32 x) err)
cut_word-IsEvent x err on h =
    let vector : u32 x % 2 ^ 8 ≡ x % 2 ^ 8 = omega arith in
    let kind : u32 x / 2 ^ 8 % 8 ≡ x / 2 ^ 8 % 8 = omega arith in
    let flag : u32 x / 2 ^ 11 % 2 ≡ x / 2 ^ 11 % 2 = omega arith in
    rw (vector, kind, flag) at (entry_word-IsEvent (u32 x) err (omega arith) h)

event-lt : (s : ShadowVmcs) → event s < 2 ^ 64
event-lt s = elim (Bool-cases (info / 2 ^ 31 % 2 == 1)) [
  | inl set ↦
      IsEvent-lt _ _ _ err (event s) (omega arith)
        (cut_word-IsEvent info err (ground arith) (omega arith))
  | inr clear ↦
      let off : info / 2 ^ 31 % 2 ≡ 0 = ground arith in
      let none_due : event s ≡ 0 = no_event (u32 info) err (omega arith) in
      rw none_due (omega arith)
]
  where
    info : ℕ
    info = field s VmcsField.vm_entry_intr_info

    err : ℕ
    err = u32 (field s VmcsField.vm_entry_exception_error)

-- The event due is what EVENTINJ holds.
pub translate-eventinj :
    (s : ShadowVmcs) (p : Page)
    → vmcb_get64 (translate_vmcs_to_vmcb s p) Layout.vmcb_ctl_eventinj ≡ event s
unfolding vmcb_get64
translate-eventinj s p = translate-hit s p 8 0x0A8 refl (event-lt s)

-- If the valid bit of the VM-entry interruption information is set, EVENTINJ holds a valid event
-- with its vector, its type in AMD's numbering, and the error code where its error-code bit is
-- set; if it is clear, EVENTINJ is 0.
pub translate-EventLoaded : (s : ShadowVmcs) (p : Page) → EventLoaded s (translate_vmcs_to_vmcb s p)
translate-EventLoaded s p = elim (Bool-cases (info / 2 ^ 31 % 2 == 1)) [
  | inl set ↦
      let on : info / 2 ^ 31 % 2 ≡ 1 = ground arith in
      let is = cut_word-IsEvent info err on (omega arith) in
      injected on (rw (translate-eventinj s p) is)
  | inr clear ↦
      let off : info / 2 ^ 31 % 2 ≡ 0 = ground arith in
      let none_due : event s ≡ 0 = no_event (u32 info) err (omega arith) in
      not_injected off (translate-eventinj s p ∙ none_due)
]
  where
    info : ℕ
    info = field s VmcsField.vm_entry_intr_info

    err : ℕ
    err = u32 (field s VmcsField.vm_entry_exception_error)
