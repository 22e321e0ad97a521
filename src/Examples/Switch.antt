-- ===== src/Examples/Switch.antt =====
-- A world switch on a processor whose guest sets RBX and halts, and a launch with it.
use svm_stuff.Base.{ℕ, ◌≡◌, refl, arith, true, none, some, [], ◌∷◌}
use svm_stuff.Vmcb.Page.{Page, vmcb_get64, vmcb_set64, set_bytes-IsBytes}
use svm_stuff.Emu.{Machine}
use svm_stuff.Emu.Launch.{vmlaunch_resume}
use svm_stuff.Emu.Trace.{KeepsBytes}
use svm_stuff.Emu.Resumed.Loop.{Rounds, vmlaunch_resume-Rounds}
use svm_stuff.Sync.Room.{exit_fields-RoomFor}
use svm_stuff.Examples.Trace.{bound-IsSound}
use svm_stuff.Emu.Entered.{Handed, Entered, vmlaunch_resume-Entered}
use svm_stuff.Switch.{word}
use svm_stuff.Switch.Run.{Svm, Cpu, run, svm_world_switch}
use svm_stuff.Switch.Refine.{entered, calling, Returned, svm_world_switch-Returned}
use svm_stuff.Switch.Host.{HostLost, svm_world_switch-HostLost}
use svm_stuff.Vmcb.Layout
use svm_stuff.Examples.Samples.{zero_page, sample, sample-IsValid, sample_count}
use svm_stuff.Examples.Emu.{bound}

abbrev pub halting : Svm Page
halting = record {
  do_vmload = λ a p. p;
  do_vmrun = λ a g p. (vmcb_set64 p 0x070 0x78, record g { rbx = 7 });
  do_vmsave = λ a p. p;
}

abbrev pub caller : Cpu Page
caller = record {
  regs = record {
    a = word 0;
    b = word 1;
    c = word 2;
    d = word 3;
    bp = word 4;
    si = word 5;
    di = word 6;
    e8 = word 8;
    e9 = word 9;
    e10 = word 10;
    e11 = word 11;
    e12 = word 12;
    e13 = word 13;
    e14 = word 14;
    e15 = word 15;
  };
  stack = [];
  gprs_at = 0x5000;
  gprs = (bound.emu).gprs;
  gif = true;
  hw = zero_page;
  ret_to = none;
}

svm_world_switch-Returned_example :
    (c' : Cpu Page) × (run halting svm_world_switch
        (calling 0x7000 (word 0x1234) (word 99 ∷ []) caller)
      ≡ some c')
    × Returned halting caller c' 0x7000 (word 0x1234) (word 99 ∷ [])
svm_world_switch-Returned_example =
    svm_world_switch-Returned halting caller 0x7000 (word 0x1234) (word 99 ∷ [])

vmlaunch_resume-Entered_example :
    (reason : ℕ) × (m' : Machine) × (given : Page) × (vmlaunch_resume
        (some (λ pa g p. entered halting pa g p))
        bound
      ≡ some (reason, m'))
    × Entered (λ pa g p. entered halting pa g p) bound m' reason given
vmlaunch_resume-Entered_example =
    vmlaunch_resume-Entered (λ pa g p. entered halting pa g p) bound zero_page (λ e. omega arith)
      refl sample-IsValid (omega arith) (omega (arith, sample_count))

pub halting-KeepsBytes : KeepsBytes (some (λ pa g p. entered halting pa g p))
unfolding entered vmcb_set64
halting-KeepsBytes pa g p bytes = set_bytes-IsBytes 8 p 0x070 0x78 bytes

vmlaunch_resume-Rounds_example :
    (reason : ℕ) × (m' : Machine) × (given : Page) × (vmlaunch_resume
        (some (λ pa g p. entered halting pa g p))
        bound
      ≡ some (reason, m'))
    × Handed bound.emu given
    × ((m'.emu).gprs ≡ (entered halting 0x7000 (bound.emu).gprs given).1)
    × Rounds
        (λ pa g p. entered halting pa g p)
        3
        m'
        given
        (entered halting 0x7000 (bound.emu).gprs given).0
vmlaunch_resume-Rounds_example =
    vmlaunch_resume-Rounds (λ pa g p. entered halting pa g p) halting-KeepsBytes 3 bound zero_page
      (λ e. omega arith) refl bound-IsSound
      (exit_fields-RoomFor sample (omega (arith, sample_count)))

-- The same guest on a processor of which KernelGSBase is told.
abbrev with_kernel_gs : Svm (ℕ × Page)
with_kernel_gs = record {
  do_vmload = λ a h. (vmcb_get64 h.1 Layout.vmcb_kgsbase, h.1);
  do_vmrun = λ a g h. ((h.0, vmcb_set64 h.1 0x070 0x78), record g { rbx = 7 });
  do_vmsave = λ a h. (h.0, vmcb_set64 h.1 Layout.vmcb_kgsbase h.0);
}

abbrev host_caller : Cpu (ℕ × Page)
host_caller = record {
  regs = caller.regs;
  stack = [];
  gprs_at = 0x5000;
  gprs = (bound.emu).gprs;
  gif = true;
  hw = (0, zero_page);
  ret_to = none;
}

svm_world_switch-HostLost_example :
    HostLost with_kernel_gs host_caller 0x7000
      (word 0x1234)
      (word 99 ∷ [])
      0xFFFFFF8012345000
      0
      zero_page
svm_world_switch-HostLost_example =
    svm_world_switch-HostLost with_kernel_gs host_caller 0x7000 (word 0x1234) (word 99 ∷ [])
      0xFFFFFF8012345000 0 zero_page (record { replaced = λ pa x x' p. refl })
      (λ e. omega (arith, e))
