-- ===== src/Emu/Session.antt =====
-- A hypervisor's session with src/kern_vmx_emu.cpp: it writes a field, launches the guest, and reads
-- a field after the exit. Three traps, with the world switch between them.
use svm_stuff.Base.{
  ℕ, ◌^◌, ◌≤◌, ◌<◌, ◌≡◌, ◌≢◌, ap, ◌∙◌, arith, true, some, ◌==◌, ◌&&◌, if◌then◌else◌,
}
use svm_stuff.Vmcb.Page.{Page}
use svm_stuff.Vmx.Controls
use svm_stuff.Vmx.Fields.{VmcsField, encoding}
use svm_stuff.Vmx.Shadow.{read, write}
use svm_stuff.Vmx.Shadow.Invariant.{IsValid, write-IsValid}
use svm_stuff.Vmx.Shadow.Refine.{read-write}
use svm_stuff.Entry.Order.{write-count}
use svm_stuff.Sync.Fields.{exit_value}
use svm_stuff.Trap.{SavedState64, load}
use svm_stuff.Emu.{Machine, vmwrite}
use svm_stuff.Emu.Decode.{Hde64s}
use svm_stuff.Emu.Decode.Classify.{IsVmx}
use svm_stuff.Emu.Launch.{WorldSwitch}
use svm_stuff.Emu.Entered.{Entered, vmlaunch_resume-Entered}
use svm_stuff.Emu.Handle.{advance, handle_ud}
use svm_stuff.Emu.Handle.Launches.{for_vmlaunch, handle-launch}
use svm_stuff.Emu.Handle.Fields.{
  Traps, field_of, value_of, value_reg, after_vmwrite, step_length, handle-vmwrite, handle-vmread,
  vmread_frame, load-vmread_frame,
}

module _ (hde64_disasm : ℕ → Hde64s) where
  -- A VMREAD of `f` at `st'` after the launch at `st`, from `m`.
  pub record Observed (switch : WorldSwitch) (m : Machine) (st st' : SavedState64) (f : VmcsField)
      : Type 0 where
    pub reason : ℕ
    pub given : Page
    pub frame : SavedState64
    pub after : Machine
    pub entered : Entered switch m after reason given
    pub launches :
        handle_ud hde64_disasm (some switch) st m
        ≡ some (true, advance (step_length hde64_disasm Controls.vmlaunch st) st, after)
    pub reads : handle_ud hde64_disasm (some switch) st' after ≡ some (true, frame, after)
    pub value :
        load (value_reg hde64_disasm st') frame
        ≡ exit_value
            (switch (m.emu).vmcb_pa (m.emu).gprs given).0
            (m.emu).svm_features
            f
            (read (m.emu).vmcs (encoding f))

  launch-Observed :
      (switch : WorldSwitch) (m : Machine) (st st' : SavedState64) (f : VmcsField) (p : Page)
      → (m.emu).vmcb ≢ 0
      → m.pages (m.emu).vmcb ≡ some p
      → IsValid (m.emu).vmcs
      → (m.emu).guest_rax < 2 ^ 64
      → ((m.emu).vmcs).count ≤ 214
      → IsVmx (hde64_disasm (st.isf).rip) Controls.vmlaunch
      → Traps hde64_disasm st' Controls.vmread
      → field_of hde64_disasm st' ≡ encoding f
      → Observed switch m st st' f
  launch-Observed switch m st st' f p bound here valid rax few launch vmread names =
      let (reason, after, given, e, entered) =
        vmlaunch_resume-Entered switch m p bound here valid rax few in
      record {
        reason = reason;
        given = given;
        frame =
            advance (step_length hde64_disasm Controls.vmread st')
              (vmread_frame hde64_disasm st' after);
        after = after;
        entered = entered;
        launches = handle-launch hde64_disasm (some switch) st m after reason for_vmlaunch launch e;
        reads = handle-vmread hde64_disasm (some switch) st' after vmread;
        value =
            load-vmread_frame hde64_disasm st' after
            ∙ ap (read (after.emu).vmcs) names
            ∙ entered.kept.values f;
      }

  -- What the hypervisor has written when it launches, and what it finds.
  pub record Session (switch : WorldSwitch) (m : Machine) (st1 st2 st3 : SavedState64)
      (f : VmcsField) : Type 0 where
    pub writes :
        handle_ud hde64_disasm (some switch) st1 m
        ≡ some (
          true,
          advance (step_length hde64_disasm Controls.vmwrite st1) st1,
          after_vmwrite hde64_disasm st1 m,
        )
    pub written :
        (k : ℕ)
        → read (after_vmwrite hde64_disasm st1 m).emu.vmcs k ≡ (
            if (write (m.emu).vmcs (field_of hde64_disasm st1) (value_of hde64_disasm st1)).1
              && (field_of hde64_disasm st1 == k)
            then value_of hde64_disasm st1
            else read (m.emu).vmcs k)
    pub observed : Observed switch (after_vmwrite hde64_disasm st1 m) st2 st3 f

  -- With a world switch, a VMCB bound that is allocated, a valid shadow VMCS of at most 213 fields, a
  -- 64-bit guest RAX and 64-bit operands: a trap of VMWRITE, one of VMLAUNCH and one of VMREAD are
  -- all emulated. The VMWRITE changes its field alone. The switch gets a VMCB with the state that
  -- the shadow VMCS has then, and the VMREAD puts into its register what the exit left of the field
  -- it names: what `exit_value` takes from the VMCB, or the value from before the launch.
  pub handle_ud-Session :
      (switch : WorldSwitch) (m : Machine) (st1 st2 st3 : SavedState64) (f : VmcsField) (p : Page)
      → (m.emu).vmcb ≢ 0
      → m.pages (m.emu).vmcb ≡ some p
      → IsValid (m.emu).vmcs
      → (m.emu).guest_rax < 2 ^ 64
      → ((m.emu).vmcs).count ≤ 213
      → value_of hde64_disasm st1 < 2 ^ 64
      → Traps hde64_disasm st1 Controls.vmwrite
      → IsVmx (hde64_disasm (st2.isf).rip) Controls.vmlaunch
      → Traps hde64_disasm st3 Controls.vmread
      → field_of hde64_disasm st3 ≡ encoding f
      → Session switch m st1 st2 st3 f
  unfolding vmwrite
  handle_ud-Session switch m st1 st2 st3 f p bound here valid rax few small vmwrite launch vmread
        names =
      let s = (m.emu).vmcs in
      let e = field_of hde64_disasm st1 in
      let v = value_of hde64_disasm st1 in
      record {
        writes = handle-vmwrite hde64_disasm (some switch) st1 m vmwrite;
        written = λ k. read-write s k e v;
        observed =
            launch-Observed switch (after_vmwrite hde64_disasm st1 m) st2 st3 f p bound here
              (write-IsValid s e v (omega arith) small valid) rax (omega (arith, write-count s e v))
              launch vmread names;
      }
