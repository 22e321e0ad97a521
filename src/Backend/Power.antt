-- ===== src/Backend/Power.antt =====
-- Switching SVM on, on every branch.
use svm_stuff.Base.{
  suc, List, sym, subst, some-injective, ==_ne, ℕ, ◌/◌, ◌%◌, ◌^◌, ◌≡◌, ◌≢◌, refl, ap, ◌∙◌, arith,
  Bool, true, false, Option, none, some, ◌∷◌, bit_and, bit_or, ◌==◌, if◌then◌else◌, truthy, ==_self,
}
use svm_stuff.Bits.{bit_and_bit}
use svm_stuff.Vmcb.Constants.{msr_efer, msr_vm_hsave_pa, efer_svme}
use svm_stuff.Backend.{
  Descriptor, Platform, System, SvmBackend, release, alloc_contiguous_page, disable, enable,
  enable_svme, enable_vmcb, first_vmcb, remove, wrmsr64,
}
use svm_stuff.Vmcb.Page.{Page}
use svm_stuff.Backend.Laws.{
  Gives, Refuses, NotOffered, Requested, Allocated, alloc_contiguous_page-Allocated,
}
pub use svm_stuff.Backend.Outcomes.{IsPlatform, svme, Enabled, on, no_hsave, not_stuck, no_vmcb}
use svm_stuff.Backend.Outcomes.{efer_written, sticks, Spares, first_vmcb-IsFirstVmcb}

module _ (hw : Platform) (is : IsPlatform hw) (y0 : System) (k0 : SvmBackend)
    (off : k0.enabled ≡ false) (unset : k0.vmcb_desc ≡ none) where
  -- The backend once the save area is there.
  abbrev with_save : Descriptor → SvmBackend
  with_save h = record k0 { hsave_desc = some h; hsave_pa = h.pa }

  -- The system with the save area held, and EFER and VM_HSAVE_PA written.
  record Prepared (y : System) (h : Descriptor) : Type 0 where
    gives : Gives hw y0.allocations h
    stays : sticks hw y0 ≡ 1
    efer : y.msr msr_efer ≡ efer_written hw y0
    hsave : y.msr msr_vm_hsave_pa ≡ h.pa
    msrs : (r : ℕ) → r ≢ msr_efer → r ≢ msr_vm_hsave_pa → y.msr r ≡ y0.msr r
    live : y.live ≡ h ∷ y0.live
    allocations : y.allocations ≡ suc y0.allocations
    pages : (a : ℕ) → NotOffered hw y0.allocations a → y.pages a ≡ y0.pages a
    save_page : y.pages h.va ≡ some (λ a. 0)

  abbrev vmcb_end : System → Descriptor → System × Option Descriptor → System × SvmBackend × Bool
  vmcb_end y h (y', none) =
      let gone = disable hw y' (record (with_save h) { vmcb = 0 }) in (gone.0, gone.1, false)
  vmcb_end y h (y', some d) = (
    record y' { pages = λ b. if b == d.va then some (first_vmcb (λ a. 0)) else y'.pages b },
    record (with_save h) { vmcb_desc = some d; vmcb = d.va; vmcb_pa = d.pa; enabled = true },
    true,
  )

  -- What a request for the VMCB spares, whatever becomes of the page at `at` after it.
  Requested-Spares :
      (y y' : System) (h : Descriptor) (at : ℕ) (o : Option Page) (ds : List Descriptor)
      → Prepared y h
      → Requested hw y y'
      → ((a : ℕ) → NotOffered hw y0.allocations a → NotOffered hw (suc y0.allocations) a → a ≢ at)
      → Spares hw y0 (record y' { live = ds; pages = λ b. if b == at then o else y'.pages b })
  Requested-Spares y y' h at o ds p q away = record {
    efer = ap (λ m. m msr_efer) q.msr ∙ p.efer;
    msrs = λ r e s. ap (λ m. m r) q.msr ∙ p.msrs r e s;
    pages = λ a here there.
        rw (==_ne a at (away a here there)) (
          q.elsewhere a (subst (λ n. NotOffered hw n a) (sym p.allocations) there)
          ∙ p.pages a here);
  }

  vmcb_end-Enabled :
      (y : System) (h : Descriptor)
      → Prepared y h
      → (r : System × Option Descriptor) → Allocated hw y r
      → Enabled hw y0 k0 (vmcb_end y h r)
  unfolding disable release
  vmcb_end-Enabled y h p (y', none) (q, refused, l) =
      rw (off, unset)
        (no_vmcb h (ap (λ m. m msr_efer / 2 ^ 12 % 2) q.msr ∙ ap bit12 p.efer ∙ p.stays)
          (ap (λ m. m msr_vm_hsave_pa) q.msr ∙ p.hsave)
          (ap (remove h.id) (l ∙ p.live) ∙ rw (==_self h.id) refl) (rw (==_self h.va) refl)
          (refl, refl, refl)
          (record {
            save_area = p.gives;
            stays = p.stays;
            refused = subst (Refuses hw) p.allocations refused;
            spares =
                Requested-Spares y y' h h.va none (remove h.id y'.live) p q
                  (λ a here there. here h (p.gives).0);
            backend = refl;
          }))
    where
      bit12 : ℕ → ℕ
      bit12 x = x / 2 ^ 12 % 2
  vmcb_end-Enabled y h p (y', some d) (q, gives, l, page) =
      on h d (ap (λ m. m msr_efer / 2 ^ 12 % 2) q.msr ∙ ap (λ x. x / 2 ^ 12 % 2) p.efer ∙ p.stays)
        (ap (λ m. m msr_vm_hsave_pa) q.msr ∙ p.hsave) (l ∙ ap (d ∷◌) p.live)
        (rw (==_self d.va) refl) (gives.1).va (refl, refl, refl, refl, refl, refl)
        (record {
          save_area = p.gives;
          stays = p.stays;
          vmcb = given;
          spares =
              Requested-Spares y y' h d.va (some (first_vmcb (λ a. 0))) y'.live p q
                (λ a here there. there d given.0);
          save_page = λ ne.
              rw (==_ne h.va d.va ne)
                (q.elsewhere h.va (λ d' e. subst (λ x. h.va ≢ x.va) (same d' e) ne) ∙ p.save_page);
          first = first_vmcb-IsFirstVmcb;
          backend = refl;
        })
    where
      given : Gives hw (suc y0.allocations) d
      given = subst (λ n. Gives hw n d) p.allocations gives

      same : (d' : Descriptor) → hw.allocate y.allocations ≡ some d' → d ≡ d'
      same d' e = some-injective d d' (sym gives.0 ∙ e)

  svme_end-Enabled :
      (y : System) (h : Descriptor)
      → Allocated hw y0 (y, some h)
      → Enabled hw y0 k0 (enable_svme hw y (with_save h))
  unfolding enable_svme enable_vmcb
  svme_end-Enabled y h (q, gives, l, page) = split (bit_of wrote) refl
    where
      wrote : System
      wrote = wrmsr64 hw msr_efer (bit_or (y.msr msr_efer) efer_svme) y

      with_page : System
      with_page = wrmsr64 hw msr_vm_hsave_pa h.pa wrote

      bit_of : System → Bool
      bit_of y = truthy (bit_and (y.msr msr_efer) efer_svme)

      bit_is : bit_of wrote ≡ true → svme wrote ≡ 1
      bit_is e = ground (arith, bit_and_bit 12 (wrote.msr msr_efer))

      bit_is_not : bit_of wrote ≡ false → svme wrote ≡ 0
      bit_is_not e = ground (arith, bit_and_bit 12 (wrote.msr msr_efer))

      written : wrote.msr msr_efer ≡ efer_written hw y0
      written = ap (λ m. hw.wrmsr msr_efer (bit_or (m msr_efer) efer_svme) m msr_efer) q.msr

      others : (r : ℕ) → r ≢ msr_efer → wrote.msr r ≡ y0.msr r
      others r ne =
          is.other_msr msr_efer (bit_or (y.msr msr_efer) efer_svme) r y.msr ne ∙ ap (λ m. m r) q.msr

      kept : with_page.msr msr_efer ≡ wrote.msr msr_efer
      kept = is.other_msr msr_vm_hsave_pa h.pa msr_efer wrote.msr (omega arith)

      whole : h.pa % 0x1000 ≡ 0
      whole = is.aligned y0.allocations h gives.0

      split :
          (b : Bool)
          → bit_of wrote ≡ b
          → Enabled hw y0 k0
              (if b then enable_vmcb hw with_page (with_save h) else (wrote, with_save h, false))
      split false e =
          not_stuck h (bit_is_not e) l (off, refl)
            (record {
              save_area = gives;
              lost = sym (ap (λ x. x / 2 ^ 12 % 2) written) ∙ bit_is_not e;
              efer = written;
              msrs = others;
              pages = q.elsewhere;
              save_page = page;
              backend = refl;
            })
      split true e =
          vmcb_end-Enabled with_page h
            (record {
              gives = gives;
              stays = sym (ap (λ x. x / 2 ^ 12 % 2) written) ∙ bit_is e;
              efer = kept ∙ written;
              hsave = is.keeps_hsave h.pa wrote.msr whole;
              msrs = λ r ne ne'. is.other_msr msr_vm_hsave_pa h.pa r wrote.msr ne' ∙ others r ne;
              live = l;
              allocations = q.allocations;
              pages = q.elsewhere;
              save_page = page;
            })
            (alloc_contiguous_page hw with_page) (alloc_contiguous_page-Allocated hw with_page)

  hsave_end : System × Option Descriptor → System × SvmBackend × Bool
  hsave_end (y, none) = (y, k0, false)
  hsave_end (y, some d) = enable_svme hw y (with_save d)

  hsave_end-Enabled :
      (r : System × Option Descriptor) → Allocated hw y0 r → Enabled hw y0 k0 (hsave_end r)
  unfolding hsave_end
  hsave_end-Enabled (y, none) (q, refused, l) =
      no_hsave l q.msr (record { refused = refused; pages = q.elsewhere })
  hsave_end-Enabled (y, some d) a = svme_end-Enabled y d a

  -- On hardware and with an allocator that do what their manuals say, `enable` of a backend that is
  -- off and holds no VMCB ends in one of four ways, by IOKit's two answers and by whether EFER keeps
  -- SVME. If the first answer is no usable page, it returns false with nothing held and no MSR
  -- written. If it is one but SVME does not stick, it returns false with the save area still held and
  -- VM_HSAVE_PA as it was. If the second answer is no usable page, it returns false with both pages
  -- given back, but SVME set and VM_HSAVE_PA that of the page given back. Else it returns true with SVME
  -- set, VM_HSAVE_PA the save area's, and both pages held: the VMCB intercepts CPUID, HLT, VMRUN and
  -- VMMCALL, has ASID 1, and is 0 elsewhere. On every branch the backend is told in full, and no other
  -- MSR and no page but those that IOKit offered is changed.
  pub enable-Enabled : Enabled hw y0 k0 (enable hw y0 k0)
  unfolding enable hsave_end
  enable-Enabled =
      hsave_end-Enabled (alloc_contiguous_page hw y0) (alloc_contiguous_page-Allocated hw y0)
