-- ===== src/Vmcb/Segment.antt =====
-- `vmcb_seg_t` of src/SVM.h, a slot {selector, attrib, limit, base} of 16 bytes, and the named
-- members of `vmcb_t`, as accesses to the page.
use svm_stuff.Base.{ℕ, ◌+◌}
use svm_stuff.Vmcb.Page.{Page, set_bytes, get_bytes}
use svm_stuff.Vmcb.Layout.{Member, size_of, offset_of}

unfoldable pub get_selector : Page → ℕ → ℕ
get_selector p seg = get_bytes 2 p seg

unfoldable pub set_selector : Page → ℕ → ℕ → Page
set_selector p seg v = set_bytes 2 p seg v

unfoldable pub get_attrib : Page → ℕ → ℕ
get_attrib p seg = get_bytes 2 p (seg + 2)

unfoldable pub set_attrib : Page → ℕ → ℕ → Page
set_attrib p seg v = set_bytes 2 p (seg + 2) v

unfoldable pub get_limit : Page → ℕ → ℕ
get_limit p seg = get_bytes 4 p (seg + 4)

unfoldable pub set_limit : Page → ℕ → ℕ → Page
set_limit p seg v = set_bytes 4 p (seg + 4) v

unfoldable pub get_base : Page → ℕ → ℕ
get_base p seg = get_bytes 8 p (seg + 8)

unfoldable pub set_base : Page → ℕ → ℕ → Page
set_base p seg v = set_bytes 8 p (seg + 8) v

unfoldable pub get_member : Member → Page → ℕ
get_member m p = get_bytes (size_of m) p (offset_of m)

unfoldable pub set_member : Member → Page → ℕ → Page
set_member m p v = set_bytes (size_of m) p (offset_of m) v
