-- ===== src/Emu/Contents.antt =====
-- The emulator of src/kern_vmx_emu.cpp up to the order of the slots of its shadow VMCS: what is seen of
-- a machine, and what a trap makes of machines that look the same.
use svm_stuff.Base.{
  ℕ, ◌≡◌, refl, sym, ap, ◌∙◌, Bool, true, false, Option, none, some, ◌==◌, Bool-cases, inl, inr,
}
use mathlib.Core.Option
use svm_stuff.Vmcb.Page.{Page}
use svm_stuff.Vmx.Controls
use svm_stuff.Vmx.Controls.{VmxOpcode}
use svm_stuff.Vmx.Shadow.{ShadowVmcs, read}
use svm_stuff.Vmx.Shadow.Contents.{
  Contents, contents, put_values, contents-write, contents-set_launched, read-contents,
  contents-run_writes,
}
use svm_stuff.Entry.Order.{translate-SameFields}
use svm_stuff.Sync.{translate_vmcb_to_vmcs}
use svm_stuff.Sync.Writes.{sync_writes, sync-run}
use svm_stuff.Trap.{SavedState64}
use svm_stuff.Emu.{
  GuestGprs, VmxEmulator, Machine, vmxon, vmxoff, vmptrld, vmclear, vmwrite, vmread,
}
use svm_stuff.Emu.Decode.{Hde64s, VmxDecoded, decode_vmx}
use svm_stuff.Emu.Launch.{
  WorldSwitch, prepare, enter_guest, finish, set_page, run_guest, vmlaunch_resume,
}
use svm_stuff.Emu.Handle.Cases.{completed}
use svm_stuff.Emu.Handle.{Handled, advance, dispatch, complete, handle_ud}

-- The machine with contents for its shadow VMCS.
pub record Seen : Type 0 where
  pub vmcs : Contents
  pub gprs : GuestGprs
  pub guest_rax : ℕ
  pub vmcb : ℕ
  pub vmcb_pa : ℕ
  pub svm_features : ℕ
  pub vmx_root : Bool
  pub pages : ℕ → Option Page

abbrev pub seen : Machine → Seen
seen m = record {
  vmcs = contents (m.emu).vmcs;
  gprs = (m.emu).gprs;
  guest_rax = (m.emu).guest_rax;
  vmcb = (m.emu).vmcb;
  vmcb_pa = (m.emu).vmcb_pa;
  svm_features = (m.emu).svm_features;
  vmx_root = (m.emu).vmx_root;
  pages = m.pages;
}

abbrev pub seen_answer : Option Handled → Option (Bool × SavedState64 × Seen)
seen_answer none = none
seen_answer (some (b, st, m)) = some (b, st, seen m)

-- The same machine with other slots.
abbrev with_vmcs : Machine → ShadowVmcs → Machine
with_vmcs m t = record m { emu = record (m.emu) { vmcs = t } }

read-same : (s t : ShadowVmcs) → contents s ≡ contents t → (k : ℕ) → read s k ≡ read t k
read-same s t h k =
    read-contents s k ∙ ap (λ c. Option.get_or (c.values k) 0) h ∙ sym (read-contents t k)

contents-sync :
    (p : Page) (s : ShadowVmcs) (n : ℕ)
    → contents (translate_vmcb_to_vmcs p s n) ≡ put_values (sync_writes p n) (contents s)
contents-sync p s n = ap contents (sync-run p s n) ∙ contents-run_writes (sync_writes p n) s

abbrev relaunched : Contents → Contents
relaunched c = record c { launched = true }

pub contents-finish :
    (e : VmxEmulator) (x : Page × GuestGprs)
    → contents (finish e x).vmcs
      ≡ relaunched (put_values (sync_writes x.0 e.svm_features) (contents e.vmcs))
unfolding finish
contents-finish e (q, g) =
    contents-set_launched (translate_vmcb_to_vmcs q e.vmcs e.svm_features) true
    ∙ ap relaunched (contents-sync q e.vmcs e.svm_features)

-- The machine that an exit leaves.
abbrev exited : Machine → Page × GuestGprs → Machine
exited m x = record { emu = finish m.emu x; pages = set_page m.pages (m.emu).vmcb x.0 }

abbrev launch_end : SavedState64 → Option (ℕ × Machine) → Option Handled
launch_end st none = none
launch_end st (some (reason, m')) = some (true, st, m')

abbrev pub completed_seen :
    VmxDecoded → Option (Bool × SavedState64 × Seen) → Option (Bool × SavedState64 × Seen)
completed_seen d none = none
completed_seen d (some (true, st, x)) = some (true, advance d st, x)
completed_seen d (some (false, st, x)) = some (false, st, x)

pub seen_answer-completed :
    (d : VmxDecoded) (r : Option Handled)
    → seen_answer (completed d r) ≡ completed_seen d (seen_answer r)
seen_answer-completed d none = refl
seen_answer-completed d (some (true, st, m)) = refl
seen_answer-completed d (some (false, st, m)) = refl

module _ (m : Machine) (t : ShadowVmcs) (h : contents (m.emu).vmcs ≡ contents t) where
  exited-same : (x : Page × GuestGprs) → seen (exited m x) ≡ seen (exited (with_vmcs m t) x)
  unfolding finish
  exited-same (q, g) =
      rw (contents-finish m.emu (q, g), contents-finish (with_vmcs m t).emu (q, g), h) refl

  prepare-same : (p : Page) → prepare m.emu p ≡ prepare (with_vmcs m t).emu p
  unfolding prepare
  prepare-same p = rw (translate-SameFields (m.emu).vmcs t p (read-same (m.emu).vmcs t h)) refl

  run_guest-same :
      (switch : Option WorldSwitch) (p : Page)
      → seen (run_guest switch m p).1 ≡ seen (run_guest switch (with_vmcs m t) p).1
  unfolding run_guest enter_guest
  run_guest-same none p =
      ap (λ q. seen (exited m (enter_guest none m.emu q))) (prepare-same p) ∙ exited-same _
  run_guest-same (some switch) p =
      ap (λ q. seen (exited m (enter_guest (some switch) m.emu q))) (prepare-same p) ∙ exited-same _

  vmlaunch_resume-same :
      (switch : Option WorldSwitch) (st : SavedState64)
      → seen_answer (launch_end st (vmlaunch_resume switch m))
        ≡ seen_answer (launch_end st (vmlaunch_resume switch (with_vmcs m t)))
  unfolding vmlaunch_resume
  vmlaunch_resume-same switch st = elim (Bool-cases ((m.emu).vmcb == 0)) [
    | inl unbound ↦ rw unbound (ap (λ c. some (true, st, record (seen m) { vmcs = c })) h)
    | inr bound ↦ rw bound (at_page (m.pages (m.emu).vmcb))
  ]
    where
      at_page :
          (o : Option Page)
          → seen_answer
              (launch_end st (elim o [ none ↦ none | some p ↦ some (run_guest switch m p) ]))
            ≡ seen_answer (
                launch_end st
                  (elim o [ none ↦ none | some p ↦ some (run_guest switch (with_vmcs m t) p) ]))
      at_page none = refl
      at_page (some p) = ap (λ x. some (true, st, x)) (run_guest-same switch p)

  dispatch-same :
      (switch : Option WorldSwitch) (d : VmxDecoded) (op : VmxOpcode) (st : SavedState64)
      → seen_answer (dispatch switch d op st m)
        ≡ seen_answer (dispatch switch d op st (with_vmcs m t))
  unfolding dispatch vmxon vmxoff vmptrld vmclear vmwrite vmread
  dispatch-same switch d Controls.vmlaunch st = vmlaunch_resume-same switch st
  dispatch-same switch d Controls.vmresume st = vmlaunch_resume-same switch st
  dispatch-same switch d Controls.vmptrld st =
      rw (contents-set_launched (m.emu).vmcs false, contents-set_launched t false, h) refl
  dispatch-same switch d Controls.vmclear st =
      rw (contents-set_launched (m.emu).vmcs false, contents-set_launched t false, h) refl
  dispatch-same switch d Controls.vmwrite st =
      rw (contents-write (m.emu).vmcs d.field d.src_value, contents-write t d.field d.src_value, h)
        refl
  dispatch-same switch d Controls.vmread st = rw (read-same (m.emu).vmcs t h d.field, h) refl
  dispatch-same switch d _ st = rw h refl

  complete-same :
      (d : VmxDecoded) (r r' : Option Handled)
      → seen_answer r ≡ seen_answer r'
      → seen_answer (completed d r) ≡ seen_answer (completed d r')
  complete-same d r r' e =
      seen_answer-completed d r ∙ ap (completed_seen d) e ∙ sym (seen_answer-completed d r')

  handle_ud-same :
      (hde64_disasm : ℕ → Hde64s) (switch : Option WorldSwitch) (st : SavedState64)
      → seen_answer (handle_ud hde64_disasm switch st m)
        ≡ seen_answer (handle_ud hde64_disasm switch st (with_vmcs m t))
  unfolding handle_ud
  handle_ud-same hde64_disasm switch st = decoded_as (decode_vmx hde64_disasm st)
    where
      decoded_as :
          (o : Option VmxDecoded)
          → seen_answer (elim o [
            | none ↦ some (false, st, m)
            | some d ↦ elim (dispatch switch d d.op st m) [
              | none ↦ none
              | some r ↦ some (complete d r)
            ]
          ])
            ≡ seen_answer (elim o [
              | none ↦ some (false, st, with_vmcs m t)
              | some d ↦ elim (dispatch switch d d.op st (with_vmcs m t)) [
                | none ↦ none
                | some r ↦ some (complete d r)
              ]
            ])
      decoded_as none = rw h refl
      decoded_as (some d) = complete-same d _ _ (dispatch-same switch d d.op st)

-- The machine that looks like `x` and has the slots of `t`.
abbrev rebuilt : ShadowVmcs → Seen → Machine
rebuilt t x = record {
  emu = record {
    vmcs = t;
    gprs = x.gprs;
    guest_rax = x.guest_rax;
    vmcb = x.vmcb;
    vmcb_pa = x.vmcb_pa;
    svm_features = x.svm_features;
    vmx_root = x.vmx_root;
  };
  pages = x.pages;
}

pub handle_ud-seen :
    (hde64_disasm : ℕ → Hde64s) (switch : Option WorldSwitch) (st : SavedState64) (m m' : Machine)
    → seen m ≡ seen m'
    → seen_answer (handle_ud hde64_disasm switch st m)
      ≡ seen_answer (handle_ud hde64_disasm switch st m')
handle_ud-seen hde64_disasm switch st m m' e =
    handle_ud-same m (m'.emu).vmcs (ap (λ x. x.vmcs) e) hde64_disasm switch st
    ∙ ap (λ n. seen_answer (handle_ud hde64_disasm switch st n)) (ap (rebuilt (m'.emu).vmcs) e)
