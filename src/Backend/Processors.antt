-- ===== src/Backend/Processors.antt =====
-- src/kern_svm.cpp with more than one processor: MSRs are those of the processor that runs the code,
-- memory and descriptors are shared.
use svm_stuff.Base.{
  ℕ, ◌≡◌, ◌≢◌, refl, Bool, true, false, Option, none, List, ◌∷◌, ◌==◌, if◌then◌else◌, ==_ne,
  ==_self,
}
use svm_stuff.Vmcb.Page.{Page}
use svm_stuff.Vmcb.Constants.{msr_vm_hsave_pa}
use svm_stuff.Backend.{Descriptor, Platform, System, SvmBackend, enable, disable}
use svm_stuff.Backend.Power.{
  IsPlatform, svme, Enabled, on, no_hsave, not_stuck, no_vmcb, enable-Enabled,
}
use svm_stuff.Backend.Off.{disable-SwitchedOff}

-- The MSRs of each processor, and what the processors share.
pub record Processors : Type 0 where
  pub msrs : ℕ → ℕ → ℕ
  pub pages : ℕ → Option Page
  pub allocations : ℕ
  pub live : List Descriptor

-- The system as the code sees it on processor `c`, and the processors after it ran there.
abbrev pub seen_on : ℕ → Processors → System
seen_on c s = record { msr = s.msrs c; pages = s.pages; allocations = s.allocations; live = s.live }

abbrev pub ran_on : ℕ → System → Processors → Processors
ran_on c y s = record {
  msrs = λ i. if i == c then y.msr else s.msrs i;
  pages = y.pages;
  allocations = y.allocations;
  live = y.live;
}

abbrev pub enable_on : Platform → ℕ → Processors → SvmBackend → Processors × SvmBackend × Bool
enable_on hw c s k = let (y, k', up) = enable hw (seen_on c s) k in (ran_on c y s, k', up)

abbrev pub disable_on : Platform → ℕ → Processors → SvmBackend → Processors × SvmBackend
disable_on hw c s k = let (y, k') = disable hw (seen_on c s) k in (ran_on c y s, k')

-- SVM on, on `c` alone; then off, on `d`.
pub record Elsewhere (s on_c off_d : Processors) (c d : ℕ) : Type 0 where
  pub hsave : Descriptor
  pub vmcb : Descriptor
  pub held : on_c.live ≡ vmcb ∷ hsave ∷ s.live
  pub set_here : svme (seen_on c on_c) ≡ 1
  pub others : (i : ℕ) → i ≢ c → on_c.msrs i ≡ s.msrs i
  pub given_back : off_d.live ≡ s.live
  pub cleared : svme (seen_on d off_d) ≡ 0
  pub still_set : svme (seen_on c off_d) ≡ 1
  pub stale_save_area : off_d.msrs c msr_vm_hsave_pa ≡ hsave.pa

module _ (hw : Platform) (is : IsPlatform hw) (s : Processors) (k : SvmBackend) (c d : ℕ) where
  Enabled-Elsewhere :
      (r : System × SvmBackend × Bool)
      → Enabled hw (seen_on c s) k r
      → r.2 ≡ true
      → c ≢ d
      → Elsewhere s (ran_on c r.0 s) (disable_on hw d (ran_on c r.0 s) r.1).0 c d
  Enabled-Elsewhere r (on {y'} {k'} h v sv p l g z (e, eh, ev, eb, ea, ep) w) t ne =
      let o =
        disable-SwitchedOff hw is (seen_on c s) (seen_on d (ran_on c y' s)) k' h v e eh ev l in
      record {
        hsave = h;
        vmcb = v;
        held = l;
        set_here = rw (==_self c) sv;
        others = λ i n. rw (==_ne i c n) refl;
        given_back = o.live;
        cleared = rw (==_self d) o.svme_clear;
        still_set = rw (==_ne c d ne, ==_self c) sv;
        stale_save_area = rw (==_ne c d ne, ==_self c) p;
      }
  Enabled-Elsewhere r (no_hsave l m w) t ne = cc
  Enabled-Elsewhere r (not_stuck h x l e w) t ne = cc
  Enabled-Elsewhere r (no_vmcb h x p l g e w) t ne = cc

  -- On hardware and with an allocator that do what their manuals say, and with a backend that is off
  -- and holds no VMCB: an `enable` that returned true on processor `c` sets SVME there and changes no
  -- other processor. If `disable` then runs on another processor `d`, it gives back both pages and
  -- clears SVME on `d`, but `c` keeps SVME set, and its VM_HSAVE_PA is the address of the save area
  -- that was given back.
  pub disable_on-Elsewhere :
      k.enabled ≡ false
      → k.vmcb_desc ≡ none
      → (enable_on hw c s k).2 ≡ true
      → c ≢ d
      → Elsewhere s
          (enable_on hw c s k).0
          (disable_on hw d (enable_on hw c s k).0 (enable_on hw c s k).1).0
          c
          d
  disable_on-Elsewhere off unset t ne =
      Enabled-Elsewhere (enable hw (seen_on c s) k) (enable-Enabled hw is (seen_on c s) k off unset)
        t ne
