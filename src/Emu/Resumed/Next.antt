-- ===== src/Emu/Resumed/Next.antt =====
-- Two launches of src/kern_vmx_emu.cpp in a row.
use svm_stuff.Base.{ℕ, ◌≡◌, ◌≢◌, refl, sym, ◌∙◌, some, ==_ne, ==_self}
use svm_stuff.Vmcb.Page.{Page, IsBytes, vmcb_get64}
use svm_stuff.Vmcb.Layout
use svm_stuff.Vmx.Shadow.{set_launched}
use svm_stuff.Vmx.Shadow.Refine.{view}
use svm_stuff.Vmx.Shadow.Room.{RoomFor}
use svm_stuff.Sync.Room.{exit_fields, HasRoom-RoomFor, sync-RoomFor}
use svm_stuff.Emu.{GuestGprs, Machine}
use svm_stuff.Emu.Launch.{WorldSwitch, prepare, enter_guest, finish, run_guest, vmlaunch_resume}
use svm_stuff.Emu.Entered.{Handed, Kept, prepare-Handed, finish-Kept}
use svm_stuff.Emu.Trace.{IsSound, KeepsBytes, prepare-IsBytes, run_guest-IsSound}
use svm_stuff.Emu.Resumed.{Resumed, Kept-Resumed, prepare-eventinj, event-stale}

module _ (switch : WorldSwitch) (keeps : KeepsBytes (some switch)) (m : Machine) (p : Page)
    (bound : (m.emu).vmcb ≢ 0) (here : m.pages (m.emu).vmcb ≡ some p) (sound : IsSound m)
    (room : RoomFor exit_fields (m.emu).vmcs) where
  abbrev pub given : Page
  given = prepare m.emu p

  -- What the first exit leaves, and the machine after it.
  abbrev pub exit : Page × GuestGprs
  exit = switch (m.emu).vmcb_pa (m.emu).gprs given

  abbrev pub next : Machine
  next = (run_guest (some switch) m p).1

  exit-IsBytes : IsBytes exit.0
  exit-IsBytes = keeps _ _ given (prepare-IsBytes m.emu p (sound.bytes _ p here))

  pub next-IsSound : IsSound next
  next-IsSound = run_guest-IsSound (some switch) m p keeps (sound.bytes _ p here) sound

  next-Kept : Kept m.emu next.emu exit.0
  unfolding run_guest enter_guest
  next-Kept =
      finish-Kept m.emu exit.0 exit.1
        (HasRoom-RoomFor exit.0 (m.emu).svm_features (m.emu).vmcs room)

  next_eventinj :
      vmcb_get64 (prepare next.emu exit.0) Layout.vmcb_ctl_eventinj
      ≡ vmcb_get64 given Layout.vmcb_ctl_eventinj
  next_eventinj =
      prepare-eventinj next.emu exit.0
      ∙ event-stale (m.emu).vmcs (next.emu).vmcs next-Kept.stale
      ∙ sym (prepare-eventinj m.emu p)

  pub next-RoomFor : RoomFor exit_fields (next.emu).vmcs
  unfolding run_guest enter_guest finish RoomFor set_launched view
  next-RoomFor = sync-RoomFor exit.0 (m.emu).svm_features (m.emu).vmcs room

  next-Handed : Handed next.emu (prepare next.emu exit.0)
  next-Handed = prepare-Handed next.emu exit.0 next-IsSound.vmcs next-IsSound.rax

  -- The launch does not fault, and its VMCB is there for the next one, bound as before.
  pub vmlaunch-next : vmlaunch_resume (some switch) m ≡ some ((run_guest (some switch) m p).0, next)
  unfolding vmlaunch_resume
  vmlaunch-next = rw (==_ne (m.emu).vmcb 0 bound, here)

  pub next_page : next.pages (next.emu).vmcb ≡ some exit.0
  unfolding run_guest finish enter_guest
  next_page = rw (==_self (m.emu).vmcb) refl

  pub next_vmcb : (next.emu).vmcb ≡ (m.emu).vmcb
  unfolding run_guest finish
  next_vmcb = refl

  pub next-Resumed : Resumed given exit.0 (prepare next.emu exit.0)
  next-Resumed =
      Kept-Resumed m.emu next.emu given exit.0 (prepare next.emu exit.0) exit-IsBytes
        (prepare-Handed m.emu p sound.vmcs sound.rax) next-Kept next-Handed next_eventinj

  -- With a world switch that leaves bytes in the VMCB, a sound machine, a VMCB bound that is
  -- allocated and a shadow VMCS with room for what an exit writes: after a launch and an exit, a second launch
  -- hands over the registers, RAX and the segments as the exit left them, but SVME is set in EFER
  -- and a segment that is not present has lost its rights. GDTR, IDTR, PAT and the event to inject
  -- are those of the first launch again, whatever the guest did in between.
  pub vmlaunch_resume-Resumed :
      (reason reason' : ℕ) × (m' m'' : Machine) × (again : Page) × (vmlaunch_resume (some switch) m
        ≡ some (reason, m'))
      × (vmlaunch_resume (some switch) m' ≡ some (reason', m''))
      × (m'.pages (m.emu).vmcb ≡ some exit.0)
      × (m''.pages (m.emu).vmcb ≡ some (switch (m.emu).vmcb_pa exit.1 again).0)
      × Resumed given exit.0 again
  unfolding vmlaunch_resume run_guest finish enter_guest
  vmlaunch_resume-Resumed = (
    (run_guest (some switch) m p).0,
    (run_guest (some switch) next exit.0).0,
    next,
    (run_guest (some switch) next exit.0).1,
    prepare next.emu exit.0,
    rw (==_ne (m.emu).vmcb 0 bound, here),
    rw (==_ne (m.emu).vmcb 0 bound, ==_self (m.emu).vmcb),
    rw (==_self (m.emu).vmcb) refl,
    rw (==_self (m.emu).vmcb) refl,
    next-Resumed,
  )
