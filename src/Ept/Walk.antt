-- ===== src/Ept/Walk.antt =====
-- Tables that hold what `eptEntryToNpt` of src/kern_vmcs_vmcb.cpp makes of EPT entries, as the comment in
-- `buildNptFromEpt` describes them, and what the hardware's walks find in them. Both processors have
-- physical addresses of 52 bits, that of the EPT execute-only translations; the host of the nested
-- tables has NXE set and the PAT of a reset.
pub mod Parallel
use svm_stuff.Base.{
  ℕ, zero, suc, ◌+◌, ◌-◌, ◌*◌, ◌/◌, ◌%◌, ◌^◌, ◌<◌, ◌≡◌, Bool, true, false, ◌&&◌, ◌||◌, ◌==◌, not,
  if◌then◌else◌,
}
use svm_stuff.Ept.{ept_entry_to_npt}
use svm_stuff.Ept.Entry.{bit, frame, uncacheable, mem_type}

-- An entry of a table, by the level it stands at (0 is that of 4-KiB pages), the table's frame, and
-- the index.
abbrev pub Tables : Type 0
Tables = ℕ → ℕ → ℕ → ℕ

-- What a walk has granted so far, each a bit.
pub record Access : Type 0 where
  pub read : ℕ
  pub write : ℕ
  pub execute : ℕ

pub record Mapping : Type 0 where
  pub access : Access
  pub frame : ℕ
  pub level : ℕ
  pub uncached : ℕ

-- How one of the two architectures reads an entry: `refuses` says of an entry in use that the
-- hardware faults on its form, at its level.
pub record Format : Type 0 where
  pub in_use : ℕ → Bool
  pub refuses : ℕ → ℕ → Bool
  pub grant : ℕ → Access
  pub uncached : ℕ → ℕ

-- Whether an entry of a level maps a page, by its bit 7.
abbrev pub maps : ℕ → ℕ → Bool
maps zero b = true
maps (suc zero) b = b == 1
maps (suc (suc zero)) b = b == 1
maps (suc (suc (suc l))) b = false

-- An EPT misconfiguration: write permission without read permission; in a leaf a reserved memory type,
-- or a page that is not aligned to its size; in another entry reserved bits, with bit 7 at the
-- levels that have no large pages.
abbrev pub reserved_type : ℕ → Bool
reserved_type m = ((m == 2) || (m == 3)) || (m == 7)

abbrev pub ept_reserved : ℕ → ℕ → Bool
ept_reserved (suc (suc (suc l))) e = not (e / 2 ^ 3 % 2 ^ 5 == 0)
ept_reserved _ e = not (e / 2 ^ 3 % 2 ^ 4 == 0)

abbrev pub misconfigured : ℕ → ℕ → Bool
misconfigured l e =
    ((bit 0 e == 0) && (bit 1 e == 1))
    || (if maps l (bit 7 e)
        then reserved_type (mem_type e) || not (frame e % 2 ^ (9 * l) == 0)
        else ept_reserved l e)

abbrev pub ept_format : Format
ept_format = record {
  in_use = λ e. not (bit 0 e + bit 1 e + bit 2 e == 0);
  refuses = misconfigured;
  grant = λ e. record { read = bit 0 e; write = bit 1 e; execute = bit 2 e };
  uncached = uncacheable;
}

-- Reserved bits of a nested table: bit 7 where there are no large pages, and the address bits of a
-- large page below its size.
abbrev pub npt_reserved : ℕ → ℕ → Bool
npt_reserved (suc (suc (suc l))) n = bit 7 n == 1
npt_reserved l n = if maps l (bit 7 n) then not (frame n % 2 ^ (9 * l) == 0) else false

-- A guest's accesses are user accesses of the nested table.
abbrev pub npt_format : Format
npt_format = record {
  in_use = λ n. bit 0 n == 1;
  refuses = npt_reserved;
  grant =
      λ n. record { read = bit 2 n; write = bit 2 n * bit 1 n; execute = bit 2 n * (1 - bit 63 n) };
  uncached = λ n. bit 3 n * bit 4 n;
}

abbrev pub both : Access → Access → Access
both a b = record {
  read = a.read * b.read;
  write = a.write * b.write;
  execute = a.execute * b.execute;
}

abbrev pub index : ℕ → ℕ → ℕ
index l gpa = gpa / 2 ^ (12 + 9 * l) % 2 ^ 9

pub data Walked : Type 0 where
  unmapped : Walked
  faulty : Walked
  mapped : Mapping → Walked

-- What an entry of a level gives: nothing, a fault, a page, or what is found below.
unfoldable pub found : Format → ℕ → ℕ → Access → Walked → Walked
found w l e a below =
    if w.in_use e
    then if w.refuses l e
      then faulty
      else if maps l (bit 7 e)
      then mapped (record {
        access = both a (w.grant e);
        frame = frame e;
        level = l;
        uncached = w.uncached e;
      })
      else below
    else unmapped

-- The walk for a guest-physical address, from a table of level `l` down.
unfoldable pub walk : Format → Tables → ℕ → ℕ → Access → ℕ → Walked
unfolding found
walk w t gpa zero a f = found w 0 (t 0 f (index 0 gpa)) a unmapped
walk w t gpa (suc l) a f =
    let e = t (suc l) f (index (suc l) gpa) in
    found w (suc l) e a (walk w t gpa l (both a (w.grant e)) (frame e))

-- The entry with another address.
abbrev pub at_frame : ℕ → ℕ → ℕ
at_frame e g = e % 2 ^ 12 + g * 2 ^ 12 + e / 2 ^ 52 * 2 ^ 52

-- The nested entry for `e`: a leaf converted as a leaf; another entry converted with the address of
-- the parallel table, which is in the frame `g`.
abbrev pub counterpart : ℕ → ℕ → ℕ → ℕ
counterpart l e g =
    if maps l (bit 7 e) then ept_entry_to_npt e true else ept_entry_to_npt (at_frame e g) false

abbrev pub below : (ℕ → ℕ → ℕ) → ℕ → ℕ → ℕ
below place zero f = 0
below place (suc l) f = place l f

-- For the table of each level in each frame, `place` has the frame of a nested table that is filled
-- entry by entry.
pub record IsParallel (place : ℕ → ℕ → ℕ) (t n : Tables) : Type 0 where
  pub address : (l f : ℕ) → place l f < 2 ^ 40
  pub entries :
      (l f i : ℕ)
      → f < 2 ^ 40
      → n l (place l f) i ≡ counterpart l (t l f i) (below place l (frame (t l f i)))

-- A mapping that may be read as well.
abbrev pub readable : Access → Access
readable a = record a { read = 1 }

abbrev pub readable_walked : Walked → Walked
readable_walked unmapped = unmapped
readable_walked faulty = faulty
readable_walked (mapped m) = mapped (record m { access = readable m.access })
