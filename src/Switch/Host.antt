-- ===== src/Switch/Host.antt =====
-- What src/svm_switch.S does to the registers that VMLOAD loads: FS, GS, TR and LDTR with their hidden
-- parts, KernelGSBase and the MSRs of SYSCALL and SYSENTER. The state that VMLOAD, VMRUN and VMSAVE
-- work on is a pair here: those registers, and the memory.
use svm_stuff.Base.{ℕ, ◌≡◌, ◌≢◌, sym, ap, ◌∙◌, some, List}
use svm_stuff.Switch.{Value}
use svm_stuff.Switch.Run.{Svm, Cpu, run, svm_world_switch}
use svm_stuff.Switch.Refine.{calling, returned, run-returned}

module _ {X : Type 0} {M : Type 0} where
  -- VMLOAD replaces all of those registers by what it finds in memory.
  pub record LoadsAll (m : Svm (X × M)) : Type 0 where
    pub replaced : (pa : ℕ) (x x' : X) (p : M) → m.do_vmload pa (x, p) ≡ m.do_vmload pa (x', p)

  abbrev pub holding : X → M → Cpu (X × M) → Cpu (X × M)
  holding x p c = record c { hw = (x, p) }

  -- The code between its call and its return, for callers that hold `x` and `x'`.
  pub record HostLost (m : Svm (X × M)) (c : Cpu (X × M)) (pa : ℕ) (back : Value)
      (below : List Value) (x x' : X) (p : M) : Type 0 where
    pub after : Cpu (X × M)
    pub first : run m svm_world_switch (calling pa back below (holding x p c)) ≡ some after
    pub second : run m svm_world_switch (calling pa back below (holding x' p c)) ≡ some after
    pub lost : ¬ ((after.hw.0 ≡ x) × (after.hw.0 ≡ x'))

  -- If VMLOAD replaces all of the registers that it loads, two callers that differ only in what those
  -- registers hold get the very same processor and memory back from the code: it restores the
  -- registers of at most one of the two.
  pub svm_world_switch-HostLost :
      (m : Svm (X × M)) (c : Cpu (X × M)) (pa : ℕ) (back : Value) (below : List Value) (x x' : X)
      (p : M)
      → LoadsAll m
      → x ≢ x'
      → HostLost m c pa back below x x' p
  svm_world_switch-HostLost m c pa back below x x' p loads differ = record {
    after = returned m c pa back below (m.do_vmload pa (x, p));
    first = run-returned m (holding x p c) pa back below;
    second =
        run-returned m (holding x' p c) pa back below
        ∙ ap (λ h. some (returned m c pa back below h)) (sym (loads.replaced pa x x' p));
    lost = λ e. differ (sym e.0 ∙ e.1);
  }
