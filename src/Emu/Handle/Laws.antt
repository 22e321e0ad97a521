-- ===== src/Emu/Handle/Laws.antt =====
-- What the #UD handler does to the trap frame and to the shadow VMCS.
use svm_stuff.Base.{
  ℕ, ◌+◌, ◌^◌, ◌<◌, ◌≡◌, ◌⊎◌, refl, ap, arith, true, false, Option, none, some, bit_and, inl, inr,
  subst, u64,
}
use svm_stuff.Bits.{bit_and_complement, bit_and-complement_zero}
use svm_stuff.Vmx.Controls
use svm_stuff.Vmx.Controls.{VmxOpcode}
use svm_stuff.Trap.{SavedState64, Slot}
use svm_stuff.Trap.Slots.{store-frame}
use svm_stuff.Emu.{Machine, vmread}
use svm_stuff.Emu.Decode.{Hde64s, VmxDecoded, classify, decode_vmx}
use svm_stuff.Emu.Decode.Classify.{TakenFor, classify-TakenFor_iff, decode_vmx-IsVmx}
use svm_stuff.Emu.Launch.{WorldSwitch, vmlaunch_resume}
use svm_stuff.Emu.Handle.{Handled, advance, store_result, dispatch, handle_ud, rflags_status_mask}
use svm_stuff.Emu.Handle.Cases.{completed, handle_ud_cases}

-- The frame's pointer and flags do not change before the instruction is completed.
abbrev SameFrame : SavedState64 → SavedState64 → Type 0
SameFrame st st' = ((st'.isf).rip ≡ (st.isf).rip) × ((st'.isf).rflags ≡ (st.isf).rflags)

-- A dispatch ends with true and the frame's pointer and flags kept, or it was given no instruction.
abbrev Dispatched : VmxOpcode → SavedState64 → Machine → Option Handled → Type 0
Dispatched op st m none = (op ≡ Controls.vmlaunch) ⊎ (op ≡ Controls.vmresume)
Dispatched op st m (some (true, st', m')) = SameFrame st st'
Dispatched op st m (some (false, st', m')) = (op ≡ Controls.no_op) × (st' ≡ st) × (m' ≡ m)

store_result-frame :
    (o : Option Slot) (v : ℕ) (st : SavedState64) → SameFrame st (store_result o v st)
store_result-frame none v st = (refl, refl)
store_result-frame (some slot) v st = store-frame slot v st

launch-Dispatched :
    (op : VmxOpcode) (st : SavedState64) (m : Machine) (r : Option (ℕ × Machine))
    → (op ≡ Controls.vmlaunch) ⊎ (op ≡ Controls.vmresume)
    → Dispatched op st m (elim r [ none ↦ none | some (reason, m') ↦ some (true, st, m') ])
launch-Dispatched op st m none h = h
launch-Dispatched op st m (some (reason, m')) h = (refl, refl)

dispatch-Dispatched :
    (switch : Option WorldSwitch) (d : VmxDecoded) (op : VmxOpcode) (st : SavedState64)
    (m : Machine)
    → Dispatched op st m (dispatch switch d op st m)
unfolding dispatch
dispatch-Dispatched switch d Controls.no_op st m = (refl, refl, refl)
dispatch-Dispatched switch d Controls.vmread st m =
    store_result-frame d.dst_reg (vmread d.field m.emu) st
dispatch-Dispatched switch d Controls.vmlaunch st m =
    launch-Dispatched Controls.vmlaunch st m (vmlaunch_resume switch m) (inl refl)
dispatch-Dispatched switch d Controls.vmresume st m =
    launch-Dispatched Controls.vmresume st m (vmlaunch_resume switch m) (inr refl)
dispatch-Dispatched switch d _ st m = (refl, refl)

-- What an emulated instruction does to the frame: the pointer is past it, the status flags are
-- clear (bits 0, 2, 4, 6, 7 and 11), and the other flags are as they were.
pub record Advanced (length : ℕ) (st st' : SavedState64) : Type 0 where
  pub rip : (st'.isf).rip ≡ u64 ((st.isf).rip + length)
  pub status_clear : bit_and (st'.isf).rflags 0x8D5 ≡ 0
  pub other_flags : (st'.isf).rflags + bit_and (st.isf).rflags 0x8D5 ≡ (st.isf).rflags

-- How the handler ends: refused, emulated, or with a fault in a launch.
abbrev pub Completed : (ℕ → Hde64s) → SavedState64 → Machine → Option Handled → Type 0
Completed hde64_disasm st m (some (false, st', m')) =
    (decode_vmx hde64_disasm st ≡ none) × (st' ≡ st) × (m' ≡ m)
Completed hde64_disasm st m (some (true, st', m')) =
    (d : VmxDecoded) × (decode_vmx hde64_disasm st ≡ some d) × Advanced d.length st st'
Completed hde64_disasm st m none =
    (d : VmxDecoded) × (decode_vmx hde64_disasm st ≡ some d)
    × ((d.op ≡ Controls.vmlaunch) ⊎ (d.op ≡ Controls.vmresume))

pub no_op-TakenFor : (hs : Hde64s) → ¬ TakenFor hs Controls.no_op
unfolding classify
no_op-TakenFor hs h = let e = classify-TakenFor_iff hs Controls.no_op in absurd (ground arith)

module _ (hde64_disasm : ℕ → Hde64s) (st : SavedState64) (m : Machine)
    (fits : (st.isf).rflags < 2 ^ 64) where
  frame-Advanced :
      (d : VmxDecoded) (st' : SavedState64)
      → SameFrame st st'
      → Advanced d.length st (advance d st')
  unfolding advance
  frame-Advanced d st' (rip_same, flags_same) = record {
    rip = ap (λ x. u64 (x + d.length)) rip_same;
    status_clear = bit_and-complement_zero 64 (st'.isf).rflags rflags_status_mask (omega arith);
    other_flags =
        rw flags_same
          (omega (arith, fits, bit_and_complement 64 (st.isf).rflags rflags_status_mask));
  }

  complete-Completed :
      (d : VmxDecoded)
      → decode_vmx hde64_disasm st ≡ some d
      → (r : Option Handled) → Dispatched d.op st m r
      → Completed hde64_disasm st m (completed d r)
  complete-Completed d found none is = (d, found, is)
  complete-Completed d found (some (true, st', m')) same = (d, found, frame-Advanced d st' same)
  complete-Completed d found (some (false, st', m')) is = absurd (
      no_op-TakenFor (hde64_disasm (st.isf).rip) (
        subst (TakenFor (hde64_disasm (st.isf).rip)) is.0
          ((decode_vmx-IsVmx hde64_disasm st d found).encodes)))

  -- The handler returns false only where nothing is decoded, and has changed nothing then. Where it
  -- returns true the instruction decoded is advanced past, with CF, PF, AF, ZF, SF and OF cleared
  -- and the other flags kept. It faults in a launch only.
  pub handle_ud-Completed :
      (switch : Option WorldSwitch)
      → Completed hde64_disasm st m (handle_ud hde64_disasm switch st m)
  handle_ud-Completed switch =
      handle_ud_cases hde64_disasm switch st m (Completed hde64_disasm st m) (λ e. (e, refl, refl))
        (λ d e.
          complete-Completed d e (dispatch switch d d.op st m)
            (dispatch-Dispatched switch d d.op st m))
