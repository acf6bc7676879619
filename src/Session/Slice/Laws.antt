-- ===== src/Session/Slice/Laws.antt =====
-- Lengths and capacities.
use tftpcpd.Base.{
  ℕ, ◌≤◌, Bytes, some, ◌≡◌, sym, ap, ◌∙◌, inl, inr, arith, leb, Bool-cases, length, length-append,
  length-take, length-drop, take, drop,
}
use tftpcpd.Session.Slice.{Slice, len, array, capacity, reslice, overwrite, copy_front}

-- A window within the capacity: the result of `reslice` there.
abbrev pub window : ℕ → Slice → Slice
window n b = record { shown = take n (array b); behind = drop n (array b) }

pub reslice_fits : (n : ℕ) (b : Slice) → n ≤ capacity b → reslice n b ≡ some (window n b)
unfolding reslice
reslice_fits n b h = ground arith

pub capacity-window : (n : ℕ) (b : Slice) → capacity (window n b) ≡ capacity b
capacity-window n b =
    omega (arith, length-take n (array b), length-drop n (array b), length-append b.shown b.behind)

pub len-window : (n : ℕ) (b : Slice) → n ≤ capacity b → len (window n b) ≡ n
len-window n b h = omega (arith, length-take n (array b), length-append b.shown b.behind)

pub len-reslice : (n : ℕ) (b w : Slice) → reslice n b ≡ some w → len w ≡ n
unfolding reslice
len-reslice n b w h = elim (Bool-cases (leb n (capacity b))) [
  | inl low ↦
      let is : window n b ≡ w = ground arith in ap len (sym is) ∙ len-window n b (ground arith)
  | inr high ↦ absurd (ground arith)
]

pub capacity-overwrite :
    (spare : ℕ → ℕ → Bytes) (bytes : Bytes) (b : Slice)
    → length bytes ≤ capacity b
    → capacity (overwrite spare bytes b) ≡ capacity b
unfolding overwrite
capacity-overwrite spare bytes b h =
    ground (arith, length-drop (length bytes) (array b), length-append b.shown b.behind)

pub shown-overwrite :
    (spare : ℕ → ℕ → Bytes) (bytes : Bytes) (b : Slice) → (overwrite spare bytes b).shown ≡ bytes
unfolding overwrite
shown-overwrite spare bytes b = ground arith

pub capacity-copy_front :
    (bytes : Bytes) (b : Slice)
    → length bytes ≤ capacity b
    → capacity (copy_front bytes b) ≡ capacity b
unfolding copy_front
capacity-copy_front bytes b h =
    omega (arith, length-drop (length bytes) (array b), length-append b.shown b.behind)
