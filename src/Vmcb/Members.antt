-- ===== src/Vmcb/Members.antt =====
-- Where the members of `vmcb_t` lie, against the comments of src/SVM.h and one another.
use svm_stuff.Base.{
  ℕ, zero, suc, ◌+◌, ◌^◌, ◌≤◌, ◌<◌, ◌≡◌, ◌≢◌, ◌⊎◌, refl, sym, ap, ◌∙◌, arith, Option, none, some,
  List, [], ◌∷◌, ◌==◌, if◌then◌else◌, Bool-cases, inl, inr, subst,
}
use svm_stuff.Vmcb.Page.{Page, Apart, get_bytes-set_bytes, get_bytes-set_bytes-Apart}
use svm_stuff.Vmcb.Layout
use svm_stuff.Vmcb.Layout.{Member, size_of, index, members, size_before, offset_of}
use svm_stuff.Vmcb.Segment.{get_member, set_member}

-- The offsets of the comments; the tail of the page begins behind `nested_cr3`.
abbrev pub documented : Member → ℕ
documented Layout.intercept_cr = 0x000
documented Layout.intercept_dr = 0x004
documented Layout.intercept_exceptions = 0x008
documented Layout.intercept_1 = 0x00C
documented Layout.intercept_2 = 0x010
documented Layout.reserved_1 = 0x014
documented Layout.pause_filter_thresh = 0x03C
documented Layout.pause_filter_count = 0x03E
documented Layout.iopm_base_pa = 0x040
documented Layout.msrpm_base_pa = 0x048
documented Layout.tsc_offset = 0x050
documented Layout.guest_asid = 0x058
documented Layout.tlb_control = 0x05C
documented Layout.reserved_2 = 0x05D
documented Layout.v_intr = 0x060
documented Layout.interrupt_shadow = 0x068
documented Layout.exit_code = 0x070
documented Layout.exit_info_1 = 0x078
documented Layout.exit_info_2 = 0x080
documented Layout.exit_int_info = 0x088
documented Layout.np_enable = 0x090
documented Layout.reserved_3 = 0x098
documented Layout.nested_cr3 = 0x0B0
documented Layout.raw_tail = 0x0B8

abbrev nth : ℕ → List Member → Option Member
nth i [] = none
nth zero (m ∷ ms) = some m
nth (suc i) (m ∷ ms) = nth i ms

nth-index : (m : Member) → nth (index m) members ≡ some m
nth-index Layout.intercept_cr = refl
nth-index _ = refl

size_before-nth :
    (k : ℕ) (ms : List Member) (m : Member)
    → nth k ms ≡ some m
    → size_before (suc k) ms ≡ size_before k ms + size_of m
size_before-nth zero [] m h = cc
size_before-nth (suc k) [] m h = cc
size_before-nth zero (n ∷ ms) m h = let same : n ≡ m = cc in omega (arith, ap size_of same)
size_before-nth (suc k) (n ∷ ms) m h = omega (arith, size_before-nth k ms m h)

size_before_mono : (k j : ℕ) (ms : List Member) → k ≤ j → size_before k ms ≤ size_before j ms
size_before_mono zero j ms h = omega arith
size_before_mono (suc k) zero ms h = absurd (omega arith)
size_before_mono (suc k) (suc j) [] h = omega arith
size_before_mono (suc k) (suc j) (m ∷ ms) h = omega (arith, size_before_mono k j ms (omega arith))

-- A member that comes before another ends before it begins.
before : (m n : Member) → index m < index n → offset_of m + size_of m ≤ offset_of n
before m n h = omega (
  arith,
  size_before-nth (index m) members m (nth-index m),
  size_before_mono (suc (index m)) (index n) members (omega arith),
)

index-injective : (m n : Member) → index m ≡ index n → m ≡ n
index-injective m n e =
    let same : some m ≡ some n = sym (nth-index m) ∙ ap (λ i. nth i members) e ∙ nth-index n in cc

lt_or_gt : (i j : ℕ) → i ≢ j → (i < j) ⊎ (j < i)
lt_or_gt i j ne = ground arith

offset_of-documented : (m : Member) → offset_of m ≡ documented m
offset_of-documented Layout.intercept_cr = refl
offset_of-documented _ = refl

-- The packed structure has each member at the offset in its comment and inside the page of 0x1000
-- bytes, which its sizes fill. A value that fits a member is read back from it, and any other
-- member reads as before.
pub get_member-set_member :
    (m n : Member) (p : Page) (v : ℕ)
    → v < 256 ^ size_of m
    → (offset_of m ≡ documented m)
      × (offset_of m + size_of m ≤ 0x1000)
      × (size_before 24 members ≡ 0x1000)
      × (get_member n (set_member m p v) ≡ (if index m == index n then v else get_member n p))
unfolding get_member set_member
get_member-set_member m n p v fits = (
  offset_of-documented m,
  inside m,
  refl,
  elim (Bool-cases (index m == index n)) [
    | inl same ↦ rw same (
        subst (λ k. get_member k (set_member m p v) ≡ v) (index-injective m n (ground arith))
          (get_bytes-set_bytes (size_of m) p (offset_of m) v fits))
    | inr other ↦ rw other (
        get_bytes-set_bytes-Apart (size_of m) (size_of n) p (offset_of m) v (offset_of n)
          (apart (ground arith)))
  ],
)
  where
    inside : (m : Member) → offset_of m + size_of m ≤ 0x1000
    inside Layout.intercept_cr = omega arith
    inside _ = omega arith

    apart : index m ≢ index n → Apart (size_of m) (offset_of m) (size_of n) (offset_of n)
    apart ne = elim (lt_or_gt (index m) (index n) ne) [
      | inl h ↦ inl (before m n h)
      | inr h ↦ inr (before n m h)
    ]
