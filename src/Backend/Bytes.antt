-- ===== src/Backend/Bytes.antt =====
-- Memory as pages of bytes, through the backend's calls.
use svm_stuff.Base.{
  ℕ, suc, ◌+◌, ◌^◌, ◌≡◌, arith, Bool, true, false, ◌||◌, Option, none, some, ◌∷◌, ◌==◌,
  if◌then◌else◌, ltb, truthy, Bool-cases, inl, inr, subst, bit_and, bit_or,
}
use svm_stuff.Vmcb.Page.{Page, IsBytes, set_bytes-IsBytes}
use svm_stuff.Vmcb.Constants
use svm_stuff.Vmcb.Segment.{set_member}
use svm_stuff.Backend.{
  Descriptor, Platform, System, SvmBackend, set_page, release, release_desc, keep_page,
  alloc_contiguous_page, switch_off, disable, first_vmcb, enable_vmcb, enable_svme, enable, wrmsr64,
}

abbrev pub AllBytes : (ℕ → Option Page) → Type 0
AllBytes pages = (a : ℕ) (p : Page) → pages a ≡ some p → IsBytes p

-- A page that is gone, or of bytes.
abbrev BytesIn : Option Page → Type 0
BytesIn none = Unit {0}
BytesIn (some p) = IsBytes p

BytesIn-some : (o : Option Page) (p : Page) → BytesIn o → o ≡ some p → IsBytes p
BytesIn-some none p b e = cc
BytesIn-some (some q) p b e = let same : q ≡ p = cc in subst IsBytes same b

set_page-AllBytes :
    (pages : ℕ → Option Page) (a : ℕ) (o : Option Page)
    → AllBytes pages
    → BytesIn o
    → AllBytes (set_page pages a o)
set_page-AllBytes pages a o all b c p e = elim (Bool-cases (c == a)) [
  | inl same ↦ BytesIn-some o p b (rw same at e)
  | inr other ↦ all c p (rw other at e)
]

pub first_vmcb-IsBytes : IsBytes (first_vmcb (λ a. 0))
unfolding set_member
first_vmcb-IsBytes = set_bytes-IsBytes 4 _ 0x058 1 (
    set_bytes-IsBytes 4 _ 0x010 3
      (set_bytes-IsBytes 4 (λ a. 0) 0x00C (2 ^ 18 + 2 ^ 24) (λ a. omega arith)))

release_desc-AllBytes :
    (o : Option Descriptor) (y : System) → AllBytes y.pages → AllBytes (release_desc o y).pages
unfolding release
release_desc-AllBytes none y h = h
release_desc-AllBytes (some d) y h = set_page-AllBytes y.pages d.va none h tt

keep_page-AllBytes :
    (d : Descriptor) (y : System) → AllBytes y.pages → AllBytes (keep_page d y).0.pages
unfolding keep_page release
keep_page-AllBytes d y h = elim (Bool-cases d.prepared) [
  | inr failed ↦ simp failed gone
  | inl ready ↦ elim (Bool-cases (((d.pa == 0) || (d.va == 0)) || ltb d.seg 0x1000)) [
    | inl bad ↦ simp (ready, bad) gone
    | inr good ↦
        simp (ready, good) (set_page-AllBytes y.pages d.va (some (λ a. 0)) h (λ a. omega arith))
  ]
]
  where
    gone : AllBytes (set_page y.pages d.va none)
    gone = set_page-AllBytes y.pages d.va none h tt

alloc_contiguous_page-AllBytes :
    (hw : Platform) (y : System) → AllBytes y.pages → AllBytes (alloc_contiguous_page hw y).0.pages
unfolding alloc_contiguous_page
alloc_contiguous_page-AllBytes hw y h = split (hw.allocate y.allocations)
  where
    held : Descriptor → System
    held d = record y { allocations = suc y.allocations; live = d ∷ y.live }

    split :
        (o : Option Descriptor)
        → AllBytes (
            let r : System × Option Descriptor = elim o [
              | none ↦ (record y { allocations = suc y.allocations }, none)
              | some d ↦ keep_page d (held d)
            ] in
            r.0.pages)
    split none = h
    split (some d) = keep_page-AllBytes d (held d) h

switched : (hw : Platform) (y : System) → AllBytes y.pages → AllBytes (switch_off hw y).pages
unfolding switch_off
switched hw y h = h

pub disable-AllBytes :
    (hw : Platform) (y : System) (k : SvmBackend)
    → AllBytes y.pages
    → AllBytes (disable hw y k).0.pages
unfolding disable
disable-AllBytes hw y k h =
    release_desc-AllBytes k.hsave_desc _
      (release_desc-AllBytes k.vmcb_desc (if k.enabled then switch_off hw y else y) (off k.enabled))
  where
    off : (b : Bool) → AllBytes (if b then switch_off hw y else y).pages
    off true = switched hw y h
    off false = h

-- The pages once the VMCB is asked for, once EFER is written, and at the end.
enable_vmcb-AllBytes :
    (hw : Platform) (y : System) (k : SvmBackend)
    → AllBytes y.pages
    → AllBytes (enable_vmcb hw y k).0.pages
unfolding enable_vmcb
enable_vmcb-AllBytes hw y k h =
    split (alloc_contiguous_page hw y) (alloc_contiguous_page-AllBytes hw y h)
  where
    ended : System × Option Descriptor → System × SvmBackend × Bool
    ended (y, none) = let gone = disable hw y (record k { vmcb = 0 }) in (gone.0, gone.1, false)
    ended (y, some d) = (
      record y { pages = set_page y.pages d.va (some (first_vmcb (λ a. 0))) },
      record k { vmcb_desc = some d; vmcb = d.va; vmcb_pa = d.pa; enabled = true },
      true,
    )

    split : (r : System × Option Descriptor) → AllBytes r.0.pages → AllBytes (ended r).0.pages
    split (y, none) b = disable-AllBytes hw y (record k { vmcb = 0 }) b
    split (y, some d) b =
        set_page-AllBytes y.pages d.va (some (first_vmcb (λ a. 0))) b first_vmcb-IsBytes

enable_svme-AllBytes :
    (hw : Platform) (y : System) (k : SvmBackend)
    → AllBytes y.pages
    → AllBytes (enable_svme hw y k).0.pages
unfolding enable_svme
enable_svme-AllBytes hw y k h =
    split (truthy (bit_and (wrote.msr Constants.msr_efer) Constants.efer_svme))
  where
    wrote : System
    wrote = wrmsr64 hw Constants.msr_efer (bit_or (y.msr Constants.msr_efer) Constants.efer_svme) y

    split :
        (b : Bool)
        → AllBytes (
            let r : System × SvmBackend × Bool =
              (if b
                then enable_vmcb hw (wrmsr64 hw Constants.msr_vm_hsave_pa k.hsave_pa wrote) k
                else (wrote, k, false)) in
            r.0.pages)
    split true = enable_vmcb-AllBytes hw _ k h
    split false = h

pub enable-AllBytes :
    (hw : Platform) (y : System) (k : SvmBackend)
    → AllBytes y.pages
    → AllBytes (enable hw y k).0.pages
unfolding enable
enable-AllBytes hw y k h =
    split (alloc_contiguous_page hw y) (alloc_contiguous_page-AllBytes hw y h)
  where
    ended : System × Option Descriptor → System × SvmBackend × Bool
    ended (y, none) = (y, k, false)
    ended (y, some d) = enable_svme hw y (record k { hsave_desc = some d; hsave_pa = d.pa })

    split : (r : System × Option Descriptor) → AllBytes r.0.pages → AllBytes (ended r).0.pages
    split (y, none) b = b
    split (y, some d) b = enable_svme-AllBytes hw y _ b
