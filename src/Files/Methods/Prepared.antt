-- ===== src/Files/Methods/Prepared.antt =====
-- What `Prepare` leaves where it returns no error: an upload that goes on.
use tftpcpd.Base.{
  ℕ, ◌<◌, Bytes, [], ◌∷◌, ◌++◌, Option, some, ◌≡◌, ◌≢◌, refl, sym, ap, subst, ◌∙◌, inl, inr, arith,
  All, All-In, In-All, In, All-append,
}
use tftpcpd.Session.State.{Session}
use tftpcpd.Session.Options.{path_of}
use tftpcpd.Files.Table.{FileModel, Table, Engine, with_upload, prepare_insert}
use tftpcpd.Files.Table.Newest.{Single, prepare_insert-cases}
use tftpcpd.Files.World.{World, call, commit, the, create_file, find_file, remove_file}
use tftpcpd.Files.World.Disk.{find_file-created}
use tftpcpd.Files.World.Granted.{>>=-eq-some, call-rows, commit-rows, the-eq-some}
use tftpcpd.Files.Methods.{prepare, prepare_rows}
use tftpcpd.Files.Methods.Serves.{IsUploading, served}

create_file-rows :
    (p : Bytes) (w v : World) (a : Unit {0}) → create_file p w ≡ (some a, v) → v.rows ≡ w.rows
unfolding create_file
create_file-rows p w v a h =
    let (b, u, c, k) =
      >>=-eq-some call (λ _ x. (some tt, record x { disk = (p, []) ∷ remove_file p x.disk })) w v a
        h in
    sym (ap (λ (o : Option (Unit {0}) × World). o.1.rows) k) ∙ call-rows w u b c

create_file-found :
    (p : Bytes) (w v : World) (a : Unit {0})
    → create_file p w ≡ (some a, v)
    → find_file p v.disk ≡ some []
unfolding create_file
create_file-found p w v a h =
    let (b, u, c, k) =
      >>=-eq-some call (λ _ x. (some tt, record x { disk = (p, []) ∷ remove_file p x.disk })) w v a
        h in
    sym (ap (λ (o : Option (Unit {0}) × World). find_file p o.1.disk) k)
    ∙ find_file-created p (remove_file p u.disk)

module _ (e : Engine) where
  -- The rows and the file of a new upload, whose time no row had.
  pub record IsPrepared (w v : World) (name : Bytes) (now : ℕ) : Type 0 where
    pub rows : v.rows ≡ with_upload e name now w.rows
    pub free : All (λ q. q.time_started ≢ now) w.rows
    pub file : find_file (path_of name now) v.disk ≡ some []

  pub prepare-IsPrepared :
      (now : ℕ) (s : Session) (w v : World) (a : ℕ × Session)
      → prepare e now s w ≡ (some a, v)
      → (a ≡ served s now []) × IsPrepared w v s.filename now
  unfolding prepare prepare_rows
  prepare-IsPrepared now s w v a k =
      let (b1, w1, c1, k1) = >>=-eq-some call _ w v a k in
      let (b2, w2, c2, k2) = >>=-eq-some call _ w1 v a k1 in
      let (t, w3, c3, k3) =
        >>=-eq-some (the (prepare_insert e s.filename now w2.rows)) _ w2 v a k2 in
      let (b4, w4, c4, k4) = >>=-eq-some (commit t) _ w3 v a k3 in
      let (b5, w5, c5, k5) = >>=-eq-some (create_file (path_of s.filename now)) _ w4 v a k4 in
      let rows : w2.rows ≡ w.rows = call-rows w1 w2 b2 c2 ∙ call-rows w w1 b1 c1 in
      let (found, stays) = the-eq-some (prepare_insert e s.filename now w2.rows) w2 w3 t c3 in
      let fin = pure-eq k5 in
      let (is, free) = inserted t (ap (prepare_insert e s.filename now) (sym rows) ∙ found) in
      (
        fin.0,
        record {
          rows =
              ap (λ (x : World). x.rows) fin.1
              ∙ (create_file-rows (path_of s.filename now) w4 w5 b5 c5
                  ∙ (commit-rows t w3 w4 b4 c4 ∙ is));
          free = free;
          file =
              ap (λ (x : World). find_file (path_of s.filename now) x.disk) fin.1
              ∙ create_file-found (path_of s.filename now) w4 w5 b5 c5;
        },
      )
    where
      pure-eq :
          {A : Type 0} {x y : A} {t u : World}
          → ◌≡◌ {A = Option A × World} (some x, t) (some y, u)
          → (y ≡ x) × (u ≡ t)
      pure-eq k = (ground arith, ground arith)

      inserted :
          (t : Table)
          → prepare_insert e s.filename now w.rows ≡ some t
          → (t ≡ with_upload e s.filename now w.rows) × All (λ q. q.time_started ≢ now) w.rows
      inserted t found = elim (prepare_insert-cases e s.filename now w.rows) [
        | inl refused ↦ absurd (cc)
        | inr (fine, free) ↦ (ground arith, free)
      ]

  -- The new upload goes on, and no row of its time is complete.
  pub prepared-IsUploading :
      (w v : World) (name : Bytes) (now completed : ℕ)
      → e.column name ≡ name
      → 0 < completed
      → All (λ q. q.filename ≡ name → q.time_completed < completed) w.rows
      → IsPrepared w v name now
      → IsUploading e v name now completed
  prepared-IsUploading w v name now completed c positive late p =
      let row : FileModel = record {
        filename = e.column name;
        time_started = now;
        time_completed = 0;
        consumers = 0;
      } in
      record {
        kept_name = c;
        row = row;
        listed = subst (In row) (sym p.rows) (last w.rows row);
        named = c;
        began = refl;
        single = subst (All (Single row)) (sym p.rows) (
            All-append (Single row) w.rows (row ∷ [])
              (In-All (Single row) w.rows
                (λ q i same. absurd (All-In (λ x. x.time_started ≢ now) q w.rows p.free i same)))
              ((λ same. refl), tt));
        old = [];
        file = p.file;
        positive = positive;
        latest =
            subst
              (All (λ q. q.filename ≡ name → q.time_started ≢ now → q.time_completed < completed))
              (sym p.rows)
              (All-append
                (λ q. q.filename ≡ name → q.time_started ≢ now → q.time_completed < completed)
                w.rows (row ∷ [])
                (In-All _ w.rows (λ q i n s.
                  All-In (λ x. x.filename ≡ name → x.time_completed < completed) q w.rows late i n))
                ((λ n s. positive), tt));
      }
    where
      last : (l : Table) (x : FileModel) → In x (l ++ (x ∷ []))
      last [] x = inl refl
      last (y ∷ l) x = inr (last l x)

  pub prepared-incomplete :
      (w v : World) (name : Bytes) (now : ℕ)
      → IsPrepared w v name now
      → All (λ q. q.time_started ≡ now → q.time_completed ≡ 0) v.rows
  prepared-incomplete w v name now p =
      subst (All (λ q. q.time_started ≡ now → q.time_completed ≡ 0)) (sym p.rows) (
        All-append (λ q. q.time_started ≡ now → q.time_completed ≡ 0) w.rows _
          (In-All _ w.rows
            (λ q i same. absurd (All-In (λ x. x.time_started ≢ now) q w.rows p.free i same)))
          ((λ same. refl), tt))
