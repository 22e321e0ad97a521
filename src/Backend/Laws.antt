-- ===== src/Backend/Laws.antt =====
-- What the backend's calls leave behind.
use svm_stuff.Base.{
  ℕ, List, sym, ◌∙◌, subst, some-injective, none-ne-some, ==_ne, suc, ◌/◌, ◌%◌, ◌^◌, ◌≤◌, ◌≡◌, ◌≢◌,
  ◌↔◌, refl, arith, Bool, true, false, ◌||◌, not, Option, none, some, ◌∷◌, ◌==◌, if◌then◌else◌, ltb,
  ==_self,
}
use svm_stuff.Bits.{bit_and_bit}
use svm_stuff.Backend.{
  Descriptor, Platform, System, SvmBackend, detect, release, keep_page, alloc_contiguous_page,
  set_page, remove,
}
use svm_stuff.Vmcb.Page.{Page}

-- The processor supports SVM, and the firmware has not disabled it.
pub record Supported (hw : Platform) (y : System) : Type 0 where
  pub vendor_b : (hw.cpuid 0 0).b ≡ 0x68747541
  pub vendor_d : (hw.cpuid 0 0).d ≡ 0x69746E65
  pub vendor_c : (hw.cpuid 0 0).c ≡ 0x444D4163
  pub has_leaf : 0x8000000A ≤ (hw.cpuid 0x80000000 0).a
  pub has_svm : (hw.cpuid 0x80000001 0).c / 2 ^ 2 % 2 ≡ 1
  pub not_locked : y.msr 0xC0010114 / 2 ^ 4 % 2 ≡ 0

-- SVM is detected exactly if the vendor is AuthenticAMD, the SVM leaf of CPUID is there, CPUID
-- advertises SVM, and VM_CR.SVMDIS is clear.
pub detect_iff :
    (hw : Platform) (y : System) (k : SvmBackend) → ((detect hw y k).1 ≡ true) ↔ Supported hw y
unfolding detect
detect_iff hw y k = (
  λ h. record {
    vendor_b = ground arith;
    vendor_d = ground arith;
    vendor_c = ground arith;
    has_leaf = ground arith;
    has_svm = ground (arith, bit_and_bit 2 (hw.cpuid 0x80000001 0).c);
    not_locked = ground (arith, bit_and_bit 4 (y.msr 0xC0010114));
  },
  λ is. ground (
    arith,
    is.vendor_b,
    is.vendor_c,
    is.vendor_d,
    is.has_leaf,
    is.has_svm,
    is.not_locked,
    bit_and_bit 2 (hw.cpuid 0x80000001 0).c,
    bit_and_bit 4 (y.msr 0xC0010114),
  ),
)

-- A descriptor that is prepared, with a whole page and addresses that are not null.
pub record IsUsable (d : Descriptor) : Type 0 where
  pub prepared : d.prepared ≡ true
  pub pa : d.pa ≢ 0
  pub va : d.va ≢ 0
  pub whole : 0x1000 ≤ d.seg

-- What IOKit's answer to the request number `n` is good for.
abbrev pub Gives : Platform → ℕ → Descriptor → Type 0
Gives hw n d = (hw.allocate n ≡ some d) × IsUsable d

abbrev pub Refuses : Platform → ℕ → Type 0
Refuses hw n = (d : Descriptor) → hw.allocate n ≡ some d → ¬ IsUsable d

-- The page at `a` is not what the request is answered with.
abbrev pub NotOffered : Platform → ℕ → ℕ → Type 0
NotOffered hw n a = (d : Descriptor) → hw.allocate n ≡ some d → a ≢ d.va

-- What a request changes whether it succeeds or not: no MSR, and no page but the one offered.
pub record Requested (hw : Platform) (y y' : System) : Type 0 where
  pub msr : y'.msr ≡ y.msr
  pub allocations : y'.allocations ≡ suc y.allocations
  pub elsewhere : (a : ℕ) → NotOffered hw y.allocations a → y'.pages a ≡ y.pages a

abbrev pub Allocated : Platform → System → System × Option Descriptor → Type 0
Allocated hw y (y', none) = Requested hw y y' × Refuses hw y.allocations × (y'.live ≡ y.live)
Allocated hw y (y', some d) =
    Requested hw y y'
    × Gives hw y.allocations d
    × (y'.live ≡ d ∷ y.live)
    × (y'.pages d.va ≡ some (λ a. 0))

-- If IOKit gives a page that can be used it is held and is all 0; if not, what is held is what was
-- held. No MSR changes, and no page but the one that was offered.
pub alloc_contiguous_page-Allocated :
    (hw : Platform) (y : System) → Allocated hw y (alloc_contiguous_page hw y)
unfolding alloc_contiguous_page keep_page release
alloc_contiguous_page-Allocated hw y = split (hw.allocate y.allocations) refl
  where
    called : System
    called = record y { allocations = suc y.allocations }

    page_of : Descriptor → System
    page_of d = record called { live = d ∷ y.live; pages = set_page y.pages d.va (some (λ a. 0)) }

    given_back : Descriptor → System
    given_back d = release d (record called { live = d ∷ y.live })

    requested :
        (d : Descriptor) (o : Option Page) (ds : List Descriptor)
        → hw.allocate y.allocations ≡ some d
        → Requested hw y (record called { live = ds; pages = set_page y.pages d.va o })
    requested d o ds e = record {
      msr = refl;
      allocations = refl;
      elsewhere = λ a free. rw (==_ne a d.va (free d e)) refl;
    }

    refused :
        (d : Descriptor)
        → hw.allocate y.allocations ≡ some d
        → ¬ IsUsable d
        → Allocated hw y (given_back d, none)
    refused d e bad = (
      requested d none (remove d.id (d ∷ y.live)) e,
      λ d' e'. subst (λ x. ¬ IsUsable x) (some-injective d d' (sym e ∙ e')) bad,
      rw (==_self d.id) refl,
    )

    keep :
        (d : Descriptor) (ready bad : Bool)
        → hw.allocate y.allocations ≡ some d
        → d.prepared ≡ ready
        → (((d.pa == 0) || (d.va == 0)) || ltb d.seg 0x1000) ≡ bad
        → Allocated hw y (
            if not ready
            then (given_back d, none)
            else if bad
            then (given_back d, none)
            else (page_of d, some d))
    keep d false bad e r c = refused d e (λ u. let yes = u.prepared in cc)
    keep d true true e r c = refused d e (λ u. absurd (ground (arith, c, u.pa, u.va, u.whole)))
    keep d true false e r c = (
      requested d (some (λ a. 0)) (d ∷ y.live) e,
      (e, record { prepared = r; pa = ground arith; va = ground arith; whole = ground arith }),
      refl,
      rw (==_self d.va) refl,
    )

    split :
        (o : Option Descriptor)
        → hw.allocate y.allocations ≡ o
        → Allocated hw y (elim o [
          | none ↦ (called, none)
          | some d ↦ keep_page d (record called { live = d ∷ y.live })
        ])
    split none e = (
      record { msr = refl; allocations = refl; elsewhere = λ a free. refl },
      λ d e'. absurd (none-ne-some d (sym e ∙ e')),
      refl,
    )
    split (some d) e = keep d d.prepared _ e refl refl
