-- ===== src/Emu/Resumed/Loop.antt =====
-- Launches of src/kern_vmx_emu.cpp one after another: a hypervisor that resumes its guest at every exit.
use svm_stuff.Base.{ℕ, zero, suc, ◌≡◌, ◌≢◌, refl, sym, ap, ◌∙◌, subst, some}
use svm_stuff.Vmcb.Page.{Page}
use svm_stuff.Vmx.Shadow.Room.{RoomFor}
use svm_stuff.Sync.Room.{exit_fields}
use svm_stuff.Emu.{Machine}
use svm_stuff.Emu.Launch.{WorldSwitch, prepare, enter_guest, finish, run_guest, vmlaunch_resume}
use svm_stuff.Emu.Entered.{Handed, prepare-Handed}
use svm_stuff.Emu.Trace.{IsSound, KeepsBytes}
use svm_stuff.Emu.Resumed.{Resumed}
use svm_stuff.Emu.Resumed.Next.{
  exit, next, next-IsSound, next-RoomFor, vmlaunch-next, next_page, next_vmcb, next-Resumed,
}

-- So many more launches from `m`, where `given` was handed over last and the exit left `left`.
pub data Rounds (switch : WorldSwitch) : ℕ → Machine → Page → Page → Type 0 where
  stop : {m : Machine} {given left : Page} → Rounds switch zero m given left
  again :
      {n : ℕ} {m m' : Machine} {given left : Page} (reason : ℕ) (handed : Page)
      → vmlaunch_resume (some switch) m ≡ some (reason, m')
      → Resumed given left handed
      → m'.pages (m.emu).vmcb ≡ some (switch (m.emu).vmcb_pa (m.emu).gprs handed).0
      → (m'.emu).gprs ≡ (switch (m.emu).vmcb_pa (m.emu).gprs handed).1
      → Rounds switch n m' handed (switch (m.emu).vmcb_pa (m.emu).gprs handed).0
      → Rounds switch (suc n) m given left

module _ (switch : WorldSwitch) (keeps : KeepsBytes (some switch)) where
  next_bound :
      (m : Machine) (p : Page) (bound : (m.emu).vmcb ≢ 0) (here : m.pages (m.emu).vmcb ≡ some p)
      (sound : IsSound m) (room : RoomFor exit_fields (m.emu).vmcs)
      → ((next switch keeps m p bound here sound room).emu).vmcb ≢ 0
  next_bound m p bound here sound room =
      subst (λ a. a ≢ 0) (sym (next_vmcb switch keeps m p bound here sound room)) bound

  own_page :
      (m : Machine) (p : Page) (bound : (m.emu).vmcb ≢ 0) (here : m.pages (m.emu).vmcb ≡ some p)
      (sound : IsSound m) (room : RoomFor exit_fields (m.emu).vmcs)
      → (next switch keeps m p bound here sound room).pages (m.emu).vmcb
        ≡ some (switch (m.emu).vmcb_pa (m.emu).gprs (prepare m.emu p)).0
  own_page m p bound here sound room =
      ap (next switch keeps m p bound here sound room).pages
        (sym (next_vmcb switch keeps m p bound here sound room))
      ∙ next_page switch keeps m p bound here sound room

  own_gprs :
      (m : Machine) (p : Page)
      → ((run_guest (some switch) m p).1.emu).gprs
        ≡ (switch (m.emu).vmcb_pa (m.emu).gprs (prepare m.emu p)).1
  unfolding run_guest finish enter_guest
  own_gprs m p = refl

  later_Rounds :
      (n : ℕ) (m : Machine) (p : Page) (bound : (m.emu).vmcb ≢ 0)
      (here : m.pages (m.emu).vmcb ≡ some p) (sound : IsSound m)
      (room : RoomFor exit_fields (m.emu).vmcs)
      → Rounds switch n
          (next switch keeps m p bound here sound room)
          (prepare m.emu p)
          (switch (m.emu).vmcb_pa (m.emu).gprs (prepare m.emu p)).0
  later_Rounds zero m p bound here sound room = stop
  later_Rounds (suc n) m p bound here sound room =
      let left = (exit switch keeps m p bound here sound room).0 in
      let m1 = next switch keeps m p bound here sound room in
      let bound1 = next_bound m p bound here sound room in
      let here1 = next_page switch keeps m p bound here sound room in
      let sound1 = next-IsSound switch keeps m p bound here sound room in
      let room1 = next-RoomFor switch keeps m p bound here sound room in
      again (run_guest (some switch) m1 left).0 (prepare m1.emu left)
        (vmlaunch-next switch keeps m1 left bound1 here1 sound1 room1)
        (next-Resumed switch keeps m p bound here sound room)
        (own_page m1 left bound1 here1 sound1 room1) (own_gprs m1 left)
        (later_Rounds n m1 left bound1 here1 sound1 room1)

  -- With a world switch that leaves bytes in the VMCB, a sound machine, a VMCB bound that is
  -- allocated and a shadow VMCS with room for what an exit writes: a launch, and any number of
  -- launches after it, each on the machine that the one before left, all return. The first hands over the
  -- guest's state in the shadow VMCS. Each later one hands over the registers, RAX and the segments
  -- as the exit before left them, but SVME is set in EFER and a segment that is not present has
  -- lost its rights; the switch also gets the other registers of that exit. GDTR, IDTR, PAT and the event to
  -- inject are those of the launch before, and so of the first.
  pub vmlaunch_resume-Rounds :
      (n : ℕ) (m : Machine) (p : Page)
      → (m.emu).vmcb ≢ 0
      → m.pages (m.emu).vmcb ≡ some p
      → IsSound m
      → RoomFor exit_fields (m.emu).vmcs
      → (reason : ℕ) × (m' : Machine) × (given : Page) × (vmlaunch_resume (some switch) m
          ≡ some (reason, m'))
        × Handed m.emu given
        × ((m'.emu).gprs ≡ (switch (m.emu).vmcb_pa (m.emu).gprs given).1)
        × Rounds switch n m' given (switch (m.emu).vmcb_pa (m.emu).gprs given).0
  vmlaunch_resume-Rounds n m p bound here sound room = (
    (run_guest (some switch) m p).0,
    next switch keeps m p bound here sound room,
    prepare m.emu p,
    vmlaunch-next switch keeps m p bound here sound room,
    prepare-Handed m.emu p sound.vmcs sound.rax,
    own_gprs m p,
    later_Rounds n m p bound here sound room,
  )
