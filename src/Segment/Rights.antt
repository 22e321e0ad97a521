-- ===== src/Segment/Rights.antt =====
-- Both forms stand for the same rights.
use svm_stuff.Base.{ℕ, ◌+◌, ◌*◌, ◌/◌, ◌%◌, ◌^◌, ◌<◌, ◌≡◌, arith, ◌==◌, ◌&&◌, if◌then◌else◌}
use svm_stuff.Bits.{bit_or_low, bit_and_field, bit_and_bit}
use svm_stuff.Segment.{vmx_ar_to_svm_attrib, svm_attrib_to_vmx_ar}

-- The fields that the two forms share, as the comment in the source lays them out.
pub record Rights : Type 0 where
  pub kind : ℕ
  pub system : ℕ
  pub dpl : ℕ
  pub present : ℕ
  pub avl : ℕ
  pub long : ℕ
  pub big : ℕ
  pub granularity : ℕ

abbrev pub digits_at : ℕ → ℕ → ℕ → ℕ
digits_at x k w = x / 2 ^ k % 2 ^ w

abbrev pub vmx_rights : ℕ → Rights
vmx_rights ar = record {
  kind = digits_at ar 0 4;
  system = digits_at ar 4 1;
  dpl = digits_at ar 5 2;
  present = digits_at ar 7 1;
  avl = digits_at ar 12 1;
  long = digits_at ar 13 1;
  big = digits_at ar 14 1;
  granularity = digits_at ar 15 1;
}

abbrev pub svm_rights : ℕ → Rights
svm_rights attrib = record {
  kind = digits_at attrib 0 4;
  system = digits_at attrib 4 1;
  dpl = digits_at attrib 5 2;
  present = digits_at attrib 7 1;
  avl = digits_at attrib 8 1;
  long = digits_at attrib 9 1;
  big = digits_at attrib 10 1;
  granularity = digits_at attrib 11 1;
}

abbrev pub unusable : ℕ → ℕ
unusable ar = digits_at ar 16 1

-- The rights of a segment that cannot be used: nothing is set.
abbrev pub no_rights : Rights
no_rights = svm_rights 0

attrib_as_sum :
    (ar : ℕ)
    → vmx_ar_to_svm_attrib ar ≡ (if unusable ar == 1 then 0 else ar % 256 + ar / 2 ^ 12 % 16 * 256)
unfolding vmx_ar_to_svm_attrib
attrib_as_sum ar = ground (
  arith,
  bit_and_bit 16 ar,
  bit_and_field 0 8 ar,
  bit_and_field 8 4 (ar / 2 ^ 4),
  bit_or_low 8 (ar / 2 ^ 4 / 2 ^ 8 % 2 ^ 4) (ar % 2 ^ 8),
)

ar_as_sum :
    (attrib : ℕ)
    → svm_attrib_to_vmx_ar attrib
      ≡ (if digits_at attrib 7 1 == 0 then 2 ^ 16 else attrib % 256 + attrib / 2 ^ 8 % 16 * 2 ^ 12)
unfolding svm_attrib_to_vmx_ar
ar_as_sum attrib = ground (
  arith,
  bit_and_bit 7 attrib,
  bit_and_field 0 8 attrib,
  bit_and_field 8 4 attrib,
  bit_or_low 12 (attrib / 2 ^ 8 % 2 ^ 4) (attrib % 2 ^ 8),
)

-- The SVM attributes carry exactly the rights (type, S, DPL, P, AVL, L, D/B, G) of a VMX segment
-- whose unusable bit is clear, and are all 0 if it is set.
pub svm_rights-vmx_ar_to_svm_attrib :
    (ar : ℕ)
    → svm_rights (vmx_ar_to_svm_attrib ar) ≡ (if unusable ar == 1 then no_rights else vmx_rights ar)
svm_rights-vmx_ar_to_svm_attrib ar = rw (attrib_as_sum ar) (ground arith)

pub vmx_ar_to_svm_attrib-lt : (ar : ℕ) → vmx_ar_to_svm_attrib ar < 2 ^ 12
vmx_ar_to_svm_attrib-lt ar = ground (arith, attrib_as_sum ar)

-- A segment that is present in the SVM form has the same rights in VMX and is usable; one that is
-- not present becomes unusable.
pub vmx_rights-svm_attrib_to_vmx_ar :
    (attrib : ℕ)
    → ((svm_rights attrib).present ≡ 1
        → (vmx_rights (svm_attrib_to_vmx_ar attrib) ≡ svm_rights attrib)
          × (unusable (svm_attrib_to_vmx_ar attrib) ≡ 0))
      × ((svm_rights attrib).present ≡ 0 → unusable (svm_attrib_to_vmx_ar attrib) ≡ 1)
vmx_rights-svm_attrib_to_vmx_ar attrib = rw (ar_as_sum attrib) (ground arith)

-- Access rights taken to SVM and back: a usable, present segment loses its reserved bits alone; an
-- unusable one and one that is not present come back as unusable with no rights.
pub ar_round_trip :
    (ar : ℕ)
    → svm_attrib_to_vmx_ar (vmx_ar_to_svm_attrib ar) ≡ (
        if (unusable ar == 0) && (digits_at ar 7 1 == 1)
        then digits_at ar 0 8 + digits_at ar 12 4 * 2 ^ 12
        else 2 ^ 16)
ar_round_trip ar = rw (ar_as_sum (vmx_ar_to_svm_attrib ar), attrib_as_sum ar) (ground arith)

-- Twelve bits of attributes taken to VMX and back are kept if the segment is present, and cleared
-- if it is not.
pub attrib_round_trip :
    (attrib : ℕ)
    → attrib < 2 ^ 12
    → vmx_ar_to_svm_attrib (svm_attrib_to_vmx_ar attrib)
      ≡ (if (svm_rights attrib).present == 1 then attrib else 0)
attrib_round_trip attrib h =
    rw (attrib_as_sum (svm_attrib_to_vmx_ar attrib), ar_as_sum attrib) (ground arith)

-- The same for all sixteen bits of the slot, with the cast of the access rights to 32 bits.
pub slot_round_trip :
    (attrib : ℕ)
    → vmx_ar_to_svm_attrib (svm_attrib_to_vmx_ar attrib % 2 ^ 32)
      ≡ (if (svm_rights attrib).present == 1 then attrib % 2 ^ 12 else 0)
slot_round_trip attrib =
    rw (attrib_as_sum (svm_attrib_to_vmx_ar attrib % 2 ^ 32), ar_as_sum attrib) (ground arith)

pub svm_attrib_to_vmx_ar-lt : (attrib : ℕ) → svm_attrib_to_vmx_ar attrib < 2 ^ 17
svm_attrib_to_vmx_ar-lt attrib = ground (arith, ar_as_sum attrib)
