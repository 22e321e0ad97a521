-- ===== src/Emu/Spec.antt =====
-- The emulator of src/kern_vmx_emu.cpp as an abstract machine: a VMCS is a bounded map, and an
-- instruction is what it does to that map, to the trap frame and to the page of the VMCB.
use svm_stuff.Base.{
  ℕ, ◌≡◌, refl, ap, subst, ◌≢◌, ◌∙◌, Bool, true, false, Option, none, some, ◌==◌, if◌then◌else◌,
  Bool-cases, inl, inr,
}
use mathlib.Core.Option
use svm_stuff.Vmcb.Page.{Page, vmcb_get64, vmcb_set64}
use svm_stuff.Vmcb.Layout
use svm_stuff.Vmcb.Constants
use svm_stuff.Vmcb.Segment.{set_member}
use svm_stuff.Vmx.Controls
use svm_stuff.Vmx.Controls.{VmxOpcode}
use svm_stuff.Vmx.Shadow.Contents.{
  Contents, put_value, put_values, contents-write, contents-set_launched, read-contents,
}
use svm_stuff.Entry.{translate_vmcs_to_vmcb}
use svm_stuff.Sync.Writes.{sync_writes}
use svm_stuff.Trap.{SavedState64}
use svm_stuff.Emu.{GuestGprs, Machine, vmxon, vmxoff, vmptrld, vmclear, vmwrite, vmread}
use svm_stuff.Emu.Decode.{Hde64s, VmxDecoded, decode_vmx}
use svm_stuff.Emu.Launch.{
  WorldSwitch, prepare, enter_guest, finish, set_page, run_guest, vmlaunch_resume,
}
use svm_stuff.Emu.Handle.{advance, dispatch, handle_ud, store_result}
use svm_stuff.Emu.Decode.Classify.{TakenFor, decode_vmx-IsVmx}
use svm_stuff.Emu.Handle.Laws.{no_op-TakenFor}
use svm_stuff.Emu.Handle.Cases.{handle_ud_cases}
use svm_stuff.Emu.Contents.{
  Seen, seen, seen_answer, completed_seen, seen_answer-completed, contents-finish,
}

-- What the map holds of a field, 0 if it has none.
abbrev pub value_in : Contents → ℕ → ℕ
value_in c k = Option.get_or (c.values k) 0

-- What is handed to the switch, given the VMCB that the translation makes of the map, and what comes
-- back; without a switch, an invalid exit.
abbrev pub exit_of : Option WorldSwitch → Seen → Page → Page × GuestGprs
exit_of none x q = (set_member Layout.exit_code q Constants.vmexit_invalid, x.gprs)
exit_of (some switch) x q = switch x.vmcb_pa x.gprs q

-- An exit: the map takes what the VMCB holds of the guest, as far as there is room, and is launched.
abbrev pub after_exit : Seen → Page × GuestGprs → Seen
after_exit x (q, g) = record x {
  vmcs = record (put_values (sync_writes q x.svm_features) x.vmcs) { launched = true };
  gprs = g;
  guest_rax = vmcb_get64 q Layout.vmcb_rax;
  pages = λ a. if a == x.vmcb then some q else x.pages a;
}

-- A launch, where the translation makes `translated p` of a page `p`; `none` is a fault.
abbrev pub abstract_launch : Option WorldSwitch → (Page → Page) → Seen → Option Seen
abstract_launch switch translated x = if x.vmcb == 0 then some x else elim (x.pages x.vmcb) [
  | none ↦ none
  | some p ↦
      some (after_exit x (exit_of switch x (vmcb_set64 (translated p) Layout.vmcb_rax x.guest_rax)))
]

-- What each instruction does to the machine.
abbrev pub abstract_step :
    Option WorldSwitch → (Page → Page) → VmxDecoded → VmxOpcode → Seen → Option Seen
abstract_step switch translated d Controls.vmxon x = some (record x { vmx_root = true })
abstract_step switch translated d Controls.vmxoff x = some (record x { vmx_root = false })
abstract_step switch translated d Controls.vmptrld x =
    some (record x { vmcs = record (x.vmcs) { launched = false } })
abstract_step switch translated d Controls.vmclear x =
    some (record x { vmcs = record (x.vmcs) { launched = false } })
abstract_step switch translated d Controls.vmwrite x =
    some (record x { vmcs = put_value d.field d.src_value x.vmcs })
abstract_step switch translated d Controls.vmlaunch x = abstract_launch switch translated x
abstract_step switch translated d Controls.vmresume x = abstract_launch switch translated x
abstract_step switch translated d _ x = some x

-- And to the trap frame: VMREAD loads its register, and every instruction is stepped over.
abbrev pub abstract_frame : VmxDecoded → VmxOpcode → SavedState64 → Seen → SavedState64
abstract_frame d Controls.vmread st x =
    advance d (store_result d.dst_reg (value_in x.vmcs d.field) st)
abstract_frame d _ st x = advance d st

abbrev pub answering : SavedState64 → Option Seen → Option (Bool × SavedState64 × Seen)
answering st none = none
answering st (some x) = some (true, st, x)

-- The handler: refused with nothing changed, or emulated.
abbrev pub abstract_trap :
    Option WorldSwitch
    → (Page → Page)
    → SavedState64
    → Seen
    → Option VmxDecoded
    → Option (Bool × SavedState64 × Seen)
abstract_trap switch translated st x none = some (false, st, x)
abstract_trap switch translated st x (some d) =
    answering (abstract_frame d d.op st x) (abstract_step switch translated d d.op x)

completed_seen-answering :
    (d : VmxDecoded) (st : SavedState64) (o : Option Seen)
    → completed_seen d (answering st o) ≡ answering (advance d st) o
completed_seen-answering d st none = refl
completed_seen-answering d st (some x) = refl

module _ (switch : Option WorldSwitch) (m : Machine) where
  abbrev translated : Page → Page
  translated = translate_vmcs_to_vmcb (m.emu).vmcs

  exited-after_exit :
      (x : Page × GuestGprs)
      → seen (record { emu = finish m.emu x; pages = set_page m.pages (m.emu).vmcb x.0 })
        ≡ after_exit (seen m) x
  unfolding finish
  exited-after_exit (q, g) = rw (contents-finish m.emu (q, g)) refl

  run_guest-after_exit :
      (p : Page)
      → seen (run_guest switch m p).1
        ≡ after_exit
            (seen m)
            (exit_of switch (seen m) (vmcb_set64 (translated p) Layout.vmcb_rax (m.emu).guest_rax))
  unfolding run_guest enter_guest prepare
  run_guest-after_exit p = exited-after_exit _ ∙ ap (after_exit (seen m)) (entered switch)
    where
      entered :
          (o : Option WorldSwitch)
          → enter_guest o m.emu (prepare m.emu p)
            ≡ exit_of o (seen m) (vmcb_set64 (translated p) Layout.vmcb_rax (m.emu).guest_rax)
      entered none = refl
      entered (some switch) = refl

  vmlaunch_resume-abstract_launch :
      (st : SavedState64)
      → seen_answer (elim (vmlaunch_resume switch m) [
        | none ↦ none
        | some (reason, m') ↦ some (true, st, m')
      ])
        ≡ answering st (abstract_launch switch translated (seen m))
  unfolding vmlaunch_resume
  vmlaunch_resume-abstract_launch st = elim (Bool-cases ((m.emu).vmcb == 0)) [
    | inl unbound ↦ rw unbound refl
    | inr bound ↦ rw bound (at_page (m.pages (m.emu).vmcb))
  ]
    where
      at_page :
          (o : Option Page)
          → seen_answer
              (elim (elim o as (λ x. Option (ℕ × Machine)) [
                | none ↦ none
                | some p ↦ some (run_guest switch m p)
              ]) [ none ↦ none | some (reason, m') ↦ some (true, st, m') ])
            ≡ answering st (elim o [
              | none ↦ none
              | some p ↦ some (
                  after_exit (seen m) (
                    exit_of switch
                      (seen m)
                      (vmcb_set64 (translated p) Layout.vmcb_rax (m.emu).guest_rax)))
            ])
      at_page none = refl
      at_page (some p) = ap (λ x. some (true, st, x)) (run_guest-after_exit p)

  dispatch-abstract_step :
      (d : VmxDecoded) (op : VmxOpcode) (st : SavedState64)
      → op ≢ Controls.no_op
      → completed_seen d (seen_answer (dispatch switch d op st m))
        ≡ answering
            (abstract_frame d op st (seen m))
            (abstract_step switch translated d op (seen m))
  unfolding dispatch vmxon vmxoff vmptrld vmclear vmwrite vmread
  dispatch-abstract_step d Controls.no_op st ne = absurd (ne refl)
  dispatch-abstract_step d Controls.vmlaunch st ne =
      ap (completed_seen d) (vmlaunch_resume-abstract_launch st) ∙ completed_seen-answering d st _
  dispatch-abstract_step d Controls.vmresume st ne =
      ap (completed_seen d) (vmlaunch_resume-abstract_launch st) ∙ completed_seen-answering d st _
  dispatch-abstract_step d Controls.vmptrld st ne =
      rw (contents-set_launched (m.emu).vmcs false) refl
  dispatch-abstract_step d Controls.vmclear st ne =
      rw (contents-set_launched (m.emu).vmcs false) refl
  dispatch-abstract_step d Controls.vmwrite st ne =
      rw (contents-write (m.emu).vmcs d.field d.src_value) refl
  dispatch-abstract_step d Controls.vmread st ne = rw (read-contents (m.emu).vmcs d.field) refl
  dispatch-abstract_step d _ st ne = refl

  -- Up to the order of the slots, the #UD handler does what the abstract machine does, on every trap:
  -- it refuses what does not decode and changes nothing; every instruction that decodes is stepped
  -- over; VMWRITE updates a bounded map and VMREAD loads from it, 0 for a field it does not have;
  -- VMXON and VMXOFF set the mode, VMPTRLD and VMCLEAR clear the launch flag. A launch does nothing
  -- without a VMCB, and faults if the page is gone. Else it enters the guest with the translated VMCB,
  -- puts what the exit saves into the map in order, as far as there is room, takes the registers
  -- and RAX of the exit, and sets the launch flag. The other instructions change nothing else.
  pub handle_ud-abstract_trap :
      (hde64_disasm : ℕ → Hde64s) (st : SavedState64)
      → seen_answer (handle_ud hde64_disasm switch st m)
        ≡ abstract_trap switch
            (translate_vmcs_to_vmcb (m.emu).vmcs)
            st
            (seen m)
            (decode_vmx hde64_disasm st)
  handle_ud-abstract_trap hde64_disasm st =
      handle_ud_cases hde64_disasm switch st m
        (λ r.
          seen_answer r ≡ abstract_trap switch translated st (seen m) (decode_vmx hde64_disasm st))
        (λ e. rw e refl)
        (λ d e. rw e (
          seen_answer-completed d (dispatch switch d d.op st m)
          ∙ dispatch-abstract_step d d.op st (decoded_op d e)))
    where
      decoded_op : (d : VmxDecoded) → decode_vmx hde64_disasm st ≡ some d → d.op ≢ Controls.no_op
      decoded_op d e z = no_op-TakenFor (hde64_disasm (st.isf).rip) (
          subst (TakenFor (hde64_disasm (st.isf).rip)) z
            (decode_vmx-IsVmx hde64_disasm st d e).encodes)
