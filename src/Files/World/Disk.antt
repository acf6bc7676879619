-- ===== src/Files/World/Disk.antt =====
-- What removing, creating and writing files leaves of the others.
use tftpcpd.Base.{
  Bytes, false, [], ◌∷◌, some, ◌≡◌, ◌≢◌, refl, sym, ◌∙◌, inl, inr, arith, equal, equal_iff,
  Bool-cases,
}
use tftpcpd.Files.World.{Disk, find_file, remove_file, write_back}

equal-ne : (s t : Bytes) → s ≢ t → equal s t ≡ false
equal-ne s t h = elim (Bool-cases (equal s t)) [
  | inl same ↦ absurd (h ((equal_iff s t).0 same))
  | inr other ↦ other
]

pub find_file-remove_file :
    (p q : Bytes) (d : Disk) → p ≢ q → find_file p (remove_file q d) ≡ find_file p d
unfolding remove_file
find_file-remove_file p q [] h = refl
find_file-remove_file p q ((r, bytes) ∷ d) h = elim (Bool-cases (equal r q)) [
  | inl gone ↦
      let other : equal r p ≡ false = equal-ne r p (λ e. h (sym e ∙ (equal_iff r q).0 gone)) in
      ground (arith, gone, other, find_file-remove_file p q d h)
  | inr kept ↦ ground (arith, kept, find_file-remove_file p q d h)
]

pub find_file-write_back_ne :
    (p q bytes : Bytes) (d : Disk) → p ≢ q → find_file p (write_back q bytes d) ≡ find_file p d
unfolding write_back
find_file-write_back_ne p q bytes [] h = refl
find_file-write_back_ne p q bytes ((r, old) ∷ d) h = elim (Bool-cases (equal r q)) [
  | inl same ↦
      let other : equal r p ≡ false = equal-ne r p (λ e. h (sym e ∙ (equal_iff r q).0 same)) in
      rw (same, other) (find_file-write_back_ne p q bytes d h)
  | inr kept ↦ ground (arith, kept, find_file-write_back_ne p q bytes d h)
]

-- A file that is there holds what was written to it.
pub find_file-write_back :
    (p bytes old : Bytes) (d : Disk)
    → find_file p d ≡ some old
    → find_file p (write_back p bytes d) ≡ some bytes
unfolding write_back
find_file-write_back p bytes old [] h = absurd (ground arith)
find_file-write_back p bytes old ((r, b) ∷ d) h = elim (Bool-cases (equal r p)) [
  | inl same ↦ rw same refl
  | inr other ↦ ground (arith, other, find_file-write_back p bytes old d)
]

-- A file that is created anew leaves the others.
pub find_file-create :
    (p q : Bytes) (d : Disk) → p ≢ q → find_file p ((q, []) ∷ remove_file q d) ≡ find_file p d
find_file-create p q d h = rw (equal-ne q p (λ e. h (sym e))) (find_file-remove_file p q d h)

pub find_file-created : (p : Bytes) (d : Disk) → find_file p ((p, []) ∷ d) ≡ some []
find_file-created p d = rw ((equal_iff p p).1 refl) refl
