-- ===== src/Files/Methods/Atomic.antt =====
-- The transactions of `Release` and `OverwriteSuccess`, and the newest complete version.
use tftpcpd.Base.{
  ℕ, Bytes, Bool, true, false, not, ◌&&◌, ◌≡◌, ◌≢◌, sym, ap, ◌∙◌, arith, keep, All, In, All-In,
  In-All, keep-In,
}
use tftpcpd.Session.Options.{path_of}
use tftpcpd.Session.Number.Dotted.{dotted-injective}
use tftpcpd.Files.Table.{
  FileModel, Table, Engine, IsEngine, has_name, is_idle, is_newest_row, is_newest_version,
  obsolete_select, obsolete_delete,
}
use tftpcpd.Files.Table.Newest.{
  IsNewest, Single, is_newest_row-IsNewest, is_newest_version-IsNewest, keep-IsNewest,
}
use tftpcpd.Files.World.{World, path}
use tftpcpd.Files.World.Moves.{Open, Moves, then-call, commit-Moves, then-delete_files}
use tftpcpd.Files.Methods.{clear_obsolete}

-- Two versions have one path only where they have the same name and the same start time, also
-- where a name has dots and digits at its end.
pub path_of-injective : (f g : Bytes) (m n : ℕ) → path_of f m ≡ path_of g n → (f ≡ g) × (m ≡ n)
unfolding path_of
path_of-injective f g m n same = dotted-injective f g m n same

pub path_of-ne : (f g : Bytes) (m n : ℕ) → m ≢ n → path_of f m ≢ path_of g n
path_of-ne f g m n h same = h (path_of-injective f g m n same).1

module _ (e : Engine) (law : IsEngine e) where
  -- The rows that are not the newest of their name have other files.
  pub others_apart :
      (f : FileModel → Bool) (t : Table) (name : Bytes) (r : FileModel)
      → IsNewest t name r
      → ((q : FileModel) → f q ≡ true → is_newest_row e t q ≡ false)
      → All (λ q. path r ≢ path q) (keep f t)
  others_apart f t name r w h = In-All (λ q. path r ≢ path q) (keep f t) apart
    where
      true-ne-false : true ≡ false → ⊥
      true-ne-false x = cc

      apart : (q : FileModel) → In q (keep f t) → path r ≢ path q
      apart q i =
          let (j, k) = keep-In f q t i in
          path_of-ne r.filename q.filename r.time_started q.time_started (λ same.
            let is : q ≡ r = All-In (Single r) q t w.single j (sym same) in
            let yes = is_newest_row-IsNewest e law t name r w in
            let no : is_newest_row e t r ≡ false = ap (is_newest_row e t) (sym is) ∙ h q k in
            absurd (true-ne-false (sym yes ∙ no)))

  pub obsolete_select-apart :
      (other : Bytes) (t : Table) (name : Bytes) (r : FileModel)
      → IsNewest t name r
      → All (λ q. path r ≢ path q) (obsolete_select e other t)
  unfolding obsolete_select
  obsolete_select-apart other t name r w =
      others_apart (λ q. has_name (e.column other) q && is_idle q && not (is_newest_row e t q)) t
        name r w (λ q h. last (has_name (e.column other) q) (is_idle q) (is_newest_row e t q) h)
    where
      last : (a b c : Bool) → a && b && not c ≡ true → c ≡ false
      last a b c h = ground arith

  pub obsolete_delete-IsNewest :
      (other : Bytes) (t : Table) (name : Bytes) (r : FileModel)
      → IsNewest t name r
      → IsNewest (obsolete_delete e other t) name r
  unfolding obsolete_delete
  obsolete_delete-IsNewest other t name r w =
      keep-IsNewest _ t name r
        (kept (is_idle r) (has_name (e.column other) r) (is_newest_version e t r)
          (is_newest_version-IsNewest e law t name r w))
        w
    where
      kept : (a b c : Bool) → c ≡ true → not (a && b && not c) ≡ true
      kept a b c h = ground arith

  pub clear_obsolete-Moves :
      (old t : Table) (other p bytes : Bytes) (w : World)
      → All (λ q. p ≢ path q) (obsolete_select e other t)
      → Open old (obsolete_delete e other t) p bytes w
      → Moves old (obsolete_delete e other t) p bytes (clear_obsolete e other t w)
  unfolding clear_obsolete
  clear_obsolete-Moves old t other p bytes w h o =
      let new = obsolete_delete e other t in
      then-call old new p bytes _ w o (λ u a.
        then-delete_files old new p bytes (obsolete_select e other t) _ u h a
          (λ v b. then-call old new p bytes _ v b (λ x c. commit-Moves old new p bytes x c)))
