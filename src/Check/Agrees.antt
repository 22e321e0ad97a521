-- ===== src/Check/Agrees.antt =====
-- The program of tests/svmcheck.c against `SvmBackend::detect` of src/kern_svm.cpp.
use svm_stuff.Base.{
  ℕ, ◌/◌, ◌%◌, ◌^◌, ◌<◌, ◌≡◌, ◌≢◌, ◌≤◌, ◌⊎◌, refl, ap, ◌∙◌, arith, Bool, true, false, ◌&&◌, ◌||◌,
  not, Option, none, some, List, [], ◌∷◌, ◌++◌, bit_and, ◌==◌, if◌then◌else◌, ltb, truthy,
  Bool-cases, inl, inr,
}
use svm_stuff.Vmcb.Constants
use svm_stuff.Backend.{CpuidRegs, Platform, System, SvmBackend, detect, vendor_differs}
use svm_stuff.Check.{
  Report, Summary, check_flags, check_leaves, svmcheck, chars, vendor, amd, same_string,
}

-- The highest leaf in the range of a leaf, as the processor reports it.
abbrev pub max_leaf : Platform → ℕ → ℕ
max_leaf hw leaf = (hw.cpuid (if ltb leaf (2 ^ 31) then 0 else 2 ^ 31) 0).a

-- `__get_cpuid` as the compiler documents it: 0 for a leaf that is not supported.
pub record IsGetCpuid (hw : Platform) (get_cpuid : ℕ → Option CpuidRegs) : Type 0 where
  pub reports :
      (leaf : ℕ)
      → get_cpuid leaf ≡ (
          if (max_leaf hw leaf == 0) || ltb (max_leaf hw leaf) leaf
          then none
          else some (hw.cpuid leaf 0))

-- The registers that name the vendor are 32 bits wide.
pub record HasVendor (r : CpuidRegs) : Type 0 where
  pub b : r.b < 2 ^ 32
  pub c : r.c < 2 ^ 32
  pub d : r.d < 2 ^ 32

-- Four characters are those of a word exactly if the word is that.
chars_iff :
    (w k : ℕ)
    → w < 2 ^ 32
    → k < 2 ^ 32
    → ((w % 2 ^ 8 == k % 2 ^ 8)
        && ((w / 2 ^ 8 % 2 ^ 8 == k / 2 ^ 8 % 2 ^ 8)
            && ((w / 2 ^ 16 % 2 ^ 8 == k / 2 ^ 16 % 2 ^ 8)
                && (w / 2 ^ 24 % 2 ^ 8 == k / 2 ^ 24 % 2 ^ 8))))
      ≡ (w == k)
chars_iff w k small bound = ground arith

-- A character that is not NUL goes on to the next.
next_char : (p z rest : Bool) → (p ≡ true → z ≡ false) → (p && (z || rest)) ≡ (p && rest)
next_char true z rest h = rw (h refl) refl
next_char false z rest h = refl

past_char :
    (a b : ℕ) (s t : List ℕ) → b ≢ 0 → same_string (a ∷ s) (b ∷ t) ≡ ((a == b) && same_string s t)
unfolding same_string
past_char a b s t h = next_char (a == b) (a == 0) (same_string s t) (λ e. ground arith)

and_assoc4 : (p q r u v : Bool) → (p && (q && (r && (u && v)))) ≡ ((p && (q && (r && u))) && v)
and_assoc4 true true true u v = refl
and_assoc4 true true false u v = refl
and_assoc4 true false r u v = refl
and_assoc4 false q r u v = refl

past_chars :
    (w k : ℕ) (s t : List ℕ)
    → w < 2 ^ 32
    → k < 2 ^ 32
    → k % 2 ^ 8 ≢ 0
    → k / 2 ^ 8 % 2 ^ 8 ≢ 0
    → k / 2 ^ 16 % 2 ^ 8 ≢ 0
    → k / 2 ^ 24 % 2 ^ 8 ≢ 0
    → same_string (chars w ++ s) (chars k ++ t) ≡ ((w == k) && same_string s t)
past_chars w k s t small bound h0 h1 h2 h3 =
    past_char _ _ _ _ h0
    ∙ ap (λ b. (w % 2 ^ 8 == k % 2 ^ 8) && b)
        (past_char _ _ _ _ h1
          ∙ ap (λ b. (w / 2 ^ 8 % 2 ^ 8 == k / 2 ^ 8 % 2 ^ 8) && b)
              (past_char _ _ _ _ h2
                ∙ ap (λ b. (w / 2 ^ 16 % 2 ^ 8 == k / 2 ^ 16 % 2 ^ 8) && b) (past_char _ _ _ _ h3)))
    ∙ and_assoc4 (w % 2 ^ 8 == k % 2 ^ 8) (w / 2 ^ 8 % 2 ^ 8 == k / 2 ^ 8 % 2 ^ 8)
        (w / 2 ^ 16 % 2 ^ 8 == k / 2 ^ 16 % 2 ^ 8) (w / 2 ^ 24 % 2 ^ 8 == k / 2 ^ 24 % 2 ^ 8)
        (same_string s t)
    ∙ ap (λ b. b && same_string s t) (chars_iff w k small bound)

differs_iff : (b d c : Bool) → (b && (d && (c && true))) ≡ not ((not b || not d) || not c)
differs_iff true true true = refl
differs_iff true true false = refl
differs_iff true false c = refl
differs_iff false d c = refl

nul_same : same_string (0 ∷ []) (0 ∷ []) ≡ true
unfolding same_string
nul_same = refl

vendor-same : (r : CpuidRegs) → HasVendor r → same_string (vendor r) amd ≡ not (vendor_differs r)
vendor-same r w =
    past_chars r.b 0x68747541 _ _ w.b (omega arith) (omega arith) (omega arith) (omega arith)
      (omega arith)
    ∙ ap (λ b. (r.b == 0x68747541) && b)
        (past_chars r.d 0x69746E65 _ _ w.d (omega arith) (omega arith) (omega arith) (omega arith)
            (omega arith)
          ∙ ap (λ b. (r.d == 0x69746E65) && b)
              (past_chars r.c 0x444D4163 (0 ∷ []) (0 ∷ []) w.c (omega arith) (omega arith)
                  (omega arith) (omega arith) (omega arith)
                ∙ ap (λ b. (r.c == 0x444D4163) && b) nul_same))
    ∙ differs_iff (r.b == 0x68747541) (r.d == 0x69746E65) (r.c == 0x444D4163)

module _ (hw : Platform) (get_cpuid : ℕ → Option CpuidRegs) (is : IsGetCpuid hw get_cpuid) where
  -- What the backend knows afterwards, by the program's report.
  abbrev pub learned : Option Summary → SvmBackend → SvmBackend
  learned none k = k
  learned (some s) k = record k { svm_revision = s.rev; num_asids = s.asids; svm_features = s.edx }

  basic_leaf : (hw.cpuid 0 0).a ≢ 0 → get_cpuid 0 ≡ some (hw.cpuid 0 0)
  basic_leaf h = is.reports 0 ∙ ground arith

  -- With the leaf of SVM, the extended leaves before it are there too.
  extended_leaf :
      (leaf : ℕ)
      → 0x80000000 ≤ leaf
      → leaf ≤ 0x8000000A
      → ltb (hw.cpuid 0x80000000 0).a 0x8000000A ≡ false
      → get_cpuid leaf ≡ some (hw.cpuid leaf 0)
  extended_leaf leaf lo hi e = is.reports leaf ∙ ground arith

  no_leaf :
      ltb (hw.cpuid 0x80000000 0).a 0x8000000A ≡ true
      → (get_cpuid 0x80000000 ≡ none) ⊎ (get_cpuid 0x80000000 ≡ some (hw.cpuid 0x80000000 0))
  no_leaf e =
      elim (Bool-cases
        (((hw.cpuid 0x80000000 0).a == 0) || ltb (hw.cpuid 0x80000000 0).a 0x80000000)) [
          | inl absent ↦ inl (is.reports 0x80000000 ∙ rw absent refl)
          | inr there ↦ inr (is.reports 0x80000000 ∙ rw there refl)
        ]

  -- The two stages of the program on such a processor.
  abbrev Agrees : System → SvmBackend → SvmBackend × Bool → Report → Type 0
  Agrees y k r report =
      (r.1 ≡ (
        (report.exit_code == 0)
        && not (truthy (bit_and (y.msr Constants.msr_vm_cr) Constants.vm_cr_svmdis))))
      × (r.0 ≡ learned report.summary k)

  flags_checked :
      (y : System) (k : SvmBackend)
      → ltb (hw.cpuid 0x80000000 0).a 0x8000000A ≡ false
      → vendor_differs (hw.cpuid 0 0) ≡ false
      → Agrees y k (detect hw y k) (check_flags get_cpuid (hw.cpuid 0x80000000 0))
  unfolding detect check_flags
  flags_checked y k long amd_vendor =
      rw
        (
          amd_vendor,
          long,
          extended_leaf 0x80000001 (omega arith) (omega arith) long,
          extended_leaf 0x8000000A (omega arith) (omega arith) long,
        )
        (elim (Bool-cases (truthy (bit_and (hw.cpuid 0x80000001 0).c (2 ^ 2)))) [
          | inl svm ↦ rw svm (refl, refl)
          | inr no_svm ↦ rw no_svm (refl, refl)
        ])

  leaves_checked :
      (y : System) (k : SvmBackend)
      → vendor_differs (hw.cpuid 0 0) ≡ false
      → Agrees y k (detect hw y k) (check_leaves get_cpuid)
  unfolding check_leaves
  leaves_checked y k amd_vendor = elim (Bool-cases (ltb (hw.cpuid 0x80000000 0).a 0x8000000A)) [
    | inl short ↦ elim (no_leaf short) [
      | inl gone ↦ rw (gone, check_leaves) (unfold detect in rw (amd_vendor, short) (refl, refl))
      | inr there ↦
          rw (there, check_leaves, short) (unfold detect in rw (amd_vendor, short) (refl, refl))
    ]
    | inr long ↦
        rw (extended_leaf 0x80000000 (omega arith) (omega arith) long, check_leaves, long)
          (flags_checked y k long amd_vendor)
  ]

  -- On a processor whose vendor registers are 32 bits wide and that has a basic leaf behind leaf 0:
  -- the backend detects SVM exactly if the program exits with 0 and VM_CR.SVMDIS is clear, which the
  -- program cannot see. The revision, the ASIDs and the features that the backend stores are those
  -- that the program prints, and where it prints none the backend stores nothing.
  pub svmcheck-detect :
      (y : System) (k : SvmBackend)
      → HasVendor (hw.cpuid 0 0)
      → (hw.cpuid 0 0).a ≢ 0
      → ((detect hw y k).1 ≡ (
          ((svmcheck get_cpuid).exit_code == 0)
          && not (truthy (bit_and (y.msr Constants.msr_vm_cr) Constants.vm_cr_svmdis))))
        × ((detect hw y k).0 ≡ learned (svmcheck get_cpuid).summary k)
  unfolding svmcheck
  svmcheck-detect y k words some_leaf =
      rw (basic_leaf some_leaf, svmcheck, vendor-same (hw.cpuid 0 0) words)
        (elim (Bool-cases (vendor_differs (hw.cpuid 0 0))) [
          | inl other ↦ rw other (unfold detect in rw other (refl, refl))
          | inr amd_vendor ↦ rw amd_vendor (leaves_checked y k amd_vendor)
        ])
