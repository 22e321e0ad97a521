-- ===== src/Hypervisor/Lifecycle/Unset.antt =====
-- What stays in the VMCB as src/kern_svm.cpp first set it up, through the whole life of the plugin.
use svm_stuff.Base.{
  some-injective, ℕ, ◌+◌, ◌≤◌, ◌<◌, ◌≡◌, refl, sym, ap, ◌∙◌, arith, Bool, true, Option, some, List,
  [], ◌∷◌,
}
use svm_stuff.Vmcb.Page.{Page, get_bytes, get_bytes_agree}
use svm_stuff.Vmcb.Layout
use svm_stuff.Vmcb.Segment.{get_member, set_member}
use svm_stuff.Vmcb.Stores.Ranges.{in_ranges, clear, clear-in_ranges}
use svm_stuff.Backend.{Platform, first_vmcb}
use svm_stuff.Backend.Power.{IsPlatform}
use svm_stuff.Emu.{Machine, bind}
use svm_stuff.Emu.Decode.{Hde64s}
use svm_stuff.Emu.Launch.{WorldSwitch, prepare}
use svm_stuff.Trap.{SavedState64}
use svm_stuff.Emu.Handle.{handle_ud}
use svm_stuff.Emu.Spared.{
  IsSpared, SwitchSpares, HasByte, launch_ranges, handle_ud-HasByte, prepare-spared,
}
use svm_stuff.Emu.Trace.{KeepsBytes}
use svm_stuff.Hypervisor.{Patcher, World, on_patcher_load, machine_of, with_machine}
use svm_stuff.Hypervisor.Load.{Loaded, unsupported, failed, running, on_patcher_load-Loaded}
use svm_stuff.Hypervisor.Serve.{IsReady}
use svm_stuff.Hypervisor.Lifecycle.{
  Phase, up, Reaches, boot, start, load_up, load_down, ud, unload, unload_down,
}
use svm_stuff.Hypervisor.Lifecycle.Invariant.{Reaches-Holds}

-- While SVM is on, the byte is as it was set up.
abbrev AsSetUp : ℕ → Phase → World → Type 0
AsSetUp a up w = HasByte a (first_vmcb (λ b. 0) a) (machine_of w)
AsSetUp a _ w = Unit {0}

module _ (hw : Platform) (pt : Patcher) (hde64_disasm : ℕ → Hde64s) (switch : Option WorldSwitch)
    (k : KeepsBytes switch) (w0 : World) where
  Loaded-AsSetUp :
      (a : ℕ) (w w' : World) → Loaded hw pt w w' → (w'.svm).enabled ≡ true → AsSetUp a up w'
  unfolding bind
  Loaded-AsSetUp a w w' (unsupported n c v y e) on p there = cc
  Loaded-AsSetUp a w w' (failed s c v e) on p there = cc
  Loaded-AsSetUp a w w' (running h v s patched sv d e z page bound) on p there =
      let same : first_vmcb (λ b. 0) ≡ p =
        some-injective _ _ (sym page ∙ ap (w'.sys).pages (sym (ap (λ e. e.vmcb) bound)) ∙ there) in
      ap (λ q. q a) (sym same)

  ud-AsSetUp :
      (a : ℕ) (ph : Phase) (w : World) (m : Machine) (st st' : SavedState64) (b : Bool)
      → IsSpared switch a
      → handle_ud hde64_disasm switch st (machine_of w) ≡ some (b, st', m)
      → AsSetUp a ph w
      → AsSetUp a ph (with_machine w m)
  ud-AsSetUp a up w m st st' b s e h =
      handle_ud-HasByte switch a (first_vmcb (λ b. 0) a) s hde64_disasm st st' (machine_of w) m b e
        h
  ud-AsSetUp a _ w m st st' b s e h = tt

  Reaches-AsSetUp :
      (a : ℕ) {ph : Phase} {w : World}
      → IsSpared switch a
      → IsPlatform hw
      → IsReady w0
      → Reaches hw pt hde64_disasm switch k w0 ph w
      → AsSetUp a ph w
  Reaches-AsSetUp a s is ready boot = tt
  Reaches-AsSetUp a s is ready (start r) = tt
  Reaches-AsSetUp a s is ready (load_up {w} r reg on) =
      let h = Reaches-Holds hw pt hde64_disasm switch k w0 is ready r in
      Loaded-AsSetUp a w (on_patcher_load hw pt w)
        (on_patcher_load-Loaded hw is pt w (h.ready).off (h.ready).no_vmcb) on
  Reaches-AsSetUp a s is ready (load_down r reg gone) = tt
  Reaches-AsSetUp a s is ready (ud {ph} {w} {m} st st' b r words e) =
      ud-AsSetUp a ph w m st st' b s e (Reaches-AsSetUp a s is ready r)
  Reaches-AsSetUp a s is ready (unload r) = tt
  Reaches-AsSetUp a s is ready (unload_down r) = tt

-- Where the permission maps, the TSC offset and TLB_CONTROL are.
abbrev pub unset_ranges : List (ℕ × ℕ)
unset_ranges = (0x040, 24) ∷ (0x05C, 1) ∷ []

-- No permission maps, no offset of the TSC, and no flush of the TLB.
pub record NeverSet (p : Page) : Type 0 where
  pub iopm : get_member Layout.iopm_base_pa p ≡ 0
  pub msrpm : get_member Layout.msrpm_base_pa p ≡ 0
  pub tsc : get_member Layout.tsc_offset p ≡ 0
  pub tlb : get_member Layout.tlb_control p ≡ 0

module _ (hw : Platform) (pt : Patcher) (hde64_disasm : ℕ → Hde64s) (switch : Option WorldSwitch)
    (k : KeepsBytes switch) (w0 : World) where
  handed :
      (n at : ℕ) {w : World} (p : Page)
      → clear at n launch_ranges ≡ true
      → ((a : ℕ) → at ≤ a → a < at + n → SwitchSpares switch a)
      → IsPlatform hw
      → IsReady w0
      → Reaches hw pt hde64_disasm switch k w0 up w
      → (w.sys).pages (w.vmx).vmcb ≡ some p
      → get_bytes n (prepare w.vmx p) at ≡ get_bytes n (first_vmcb (λ b. 0)) at
  handed n at {w} p free spares is ready r there =
      get_bytes_agree n (prepare w.vmx p) (first_vmcb (λ b. 0)) at (λ a lo hi.
        prepare-spared switch a (first_vmcb (λ b. 0) a) (spared a lo hi) w.vmx p
        ∙ Reaches-AsSetUp hw pt hde64_disasm switch k w0 a (spared a lo hi) is ready r p there)
    where
      spared : (a : ℕ) → at ≤ a → a < at + n → IsSpared switch a
      spared a lo hi = record {
        outside = clear-in_ranges at n a launch_ranges free lo hi;
        by_switch = spares a lo hi;
      }

  -- On hardware and with an allocator that do what their manuals say, from a world whose backend was
  -- off, and with a world switch that leaves bytes in the VMCB and does not write the bases of the
  -- permission maps, the TSC offset and TLB_CONTROL: in any world reached with SVM on, whatever was
  -- trapped before, INVEPT, INVVPID and launches included, a launch hands over a VMCB in which all of
  -- these are 0. So no entry ever flushes the TLB.
  pub Reaches-NeverSet :
      {w : World} (p : Page)
      → ((a : ℕ) → in_ranges a unset_ranges ≡ true → SwitchSpares switch a)
      → IsPlatform hw
      → IsReady w0
      → Reaches hw pt hde64_disasm switch k w0 up w
      → (w.sys).pages (w.vmx).vmcb ≡ some p
      → NeverSet (prepare w.vmx p)
  unfolding get_member set_member get_bytes svm_stuff.Vmcb.Page.set_bytes svm_stuff.Vmcb.Page.put
  Reaches-NeverSet p spares is ready r there = record {
    iopm = handed 8 0x040 p refl (λ a lo hi. spares a (ground arith)) is ready r there;
    msrpm = handed 8 0x048 p refl (λ a lo hi. spares a (ground arith)) is ready r there;
    tsc = handed 8 0x050 p refl (λ a lo hi. spares a (ground arith)) is ready r there;
    tlb = handed 1 0x05C p refl (λ a lo hi. spares a (ground arith)) is ready r there;
  }
