-- ===== src/Files/Startup/Kept.antt =====
-- `DatabaseInit` and the newest complete version of a name.
use tftpcpd.Base.{
  ◌<◌, Bytes, Bool, true, false, not, ◌&&◌, Option, none, some, ◌≡◌, ◌≢◌, refl, sym, ap, inl, inr,
  arith, ◌==◌, keep, change, All, All-In, In-All, keep-In,
}
use tftpcpd.Files.Table.{
  FileModel, Table, Engine, IsEngine, is_idle, is_newest_row, global_select, global_delete,
  unfinished_select, unfinished_delete, zero_consumers,
}
use tftpcpd.Files.Table.Newest.{
  IsNewest, Single, IsMild, is_newest_row-IsNewest, keep-IsNewest, change-IsNewest,
}
use tftpcpd.Files.World.{World, Task, continue, ◌>>=◌, call, path}
use tftpcpd.Files.World.Moves.{then-rows, then-call, then-delete_files, commit-Moves, call-cases}
use tftpcpd.Files.Methods.Atomic.{path_of-ne, others_apart}
use tftpcpd.Files.Methods.Holds.{Holds, Moves-Holds, path-change}
use tftpcpd.Files.Startup.{
  unfinished_rows, global_rows, delete_out_of_date_globally, clear_failed_uploads, database_init,
}

then-Holds :
    {A B : Type 0} (m : Task A) (f : A → Task B) (name bytes : Bytes) (w : World)
    → Holds (m w).1 name bytes
    → ((a : A) (v : World) → Holds v name bytes → Holds (f a v).1 name bytes)
    → Holds ((m >>= f) w).1 name bytes
then-Holds {A} {B} m f name bytes w h k = go (m w) h
  where
    go : (o : Option A × World) → Holds o.1 name bytes → Holds (continue f o).1 name bytes
    go (none, v) i = i
    go (some a, v) i = k a v i

call-Holds : (name bytes : Bytes) (w : World) → Holds w name bytes → Holds (call w).1 name bytes
call-Holds name bytes w h = elim (call-cases w) [
  | inl (later, e) ↦ rw e (record { version = h.version; newest = h.newest; stored = h.stored })
  | inr (later, e) ↦ rw e (record { version = h.version; newest = h.newest; stored = h.stored })
]

-- A complete version is none of the unfinished ones.
unfinished_apart :
    (t : Table) (name : Bytes) (r : FileModel)
    → IsNewest t name r
    → All (λ q. path r ≢ path q) (unfinished_select t)
unfolding unfinished_select
unfinished_apart t name r n =
    In-All (λ q. path r ≢ path q) (keep (λ q. q.time_completed == 0) t)
      (λ q i.
        let (j, k) = keep-In (λ q. q.time_completed == 0) q t i in
        path_of-ne r.filename q.filename r.time_started q.time_started (λ same.
          let is : q ≡ r = All-In (Single r) q t n.single j (sym same) in
          let time : q.time_completed ≡ r.time_completed =
            ap (λ (x : FileModel). x.time_completed) is in
          let zero_time : q.time_completed ≡ 0 = ground arith in
          absurd (omega (arith, n.complete, time, zero_time))))

zeroed-IsMild : (name : Bytes) → IsMild name (λ q. record q { consumers = 0 })
zeroed-IsMild name = record { filename = λ q. refl; started = λ q. refl; completed = λ q n. refl }

complete-kept : (r : FileModel) → 0 < r.time_completed → not (r.time_completed == 0) ≡ true
complete-kept r h = ground arith

clear_failed_uploads-Holds :
    (name bytes : Bytes) (w : World)
    → Holds w name bytes
    → Holds (clear_failed_uploads w).1 name bytes
unfolding clear_failed_uploads unfinished_rows zero_consumers unfinished_delete
clear_failed_uploads-Holds name bytes w h =
    let r = h.version in
    let g = λ (q : FileModel). record q { consumers = 0 } in
    let f = λ (q : FileModel). not (q.time_completed == 0) in
    let new = change g (keep f w.rows) in
    let p = path r in
    let kept = keep-IsNewest f w.rows name r (complete-kept r h.newest.complete) h.newest in
    Moves-Holds w.rows new name bytes r (g r) _ h.newest
      (change-IsNewest g (keep f w.rows) name r (zeroed-IsMild name) kept)
      (path-change g name r (zeroed-IsMild name))
      (then-rows w.rows new p bytes unfinished_rows w (record { rows = refl; stored = h.stored })
        (λ v a.
          then-delete_files w.rows new p bytes (unfinished_select w.rows) _ v
            (unfinished_apart w.rows name r h.newest) a
            (λ x b. then-call w.rows new p bytes _ x b (λ y c.
              then-call w.rows new p bytes _ y c (λ z d. commit-Moves w.rows new p bytes z d)))))

module _ (e : Engine) (law : IsEngine e) where
  global_select-apart :
      (t : Table) (name : Bytes) (r : FileModel)
      → IsNewest t name r
      → All (λ q. path r ≢ path q) (global_select e t)
  unfolding global_select
  global_select-apart t name r n =
      others_apart e law (λ q. is_idle q && not (is_newest_row e t q)) t name r n
        (λ q h. last (is_idle q) (is_newest_row e t q) h)
    where
      last : (a b : Bool) → a && not b ≡ true → b ≡ false
      last a b h = ground arith

  global_delete-IsNewest :
      (t : Table) (name : Bytes) (r : FileModel)
      → IsNewest t name r
      → IsNewest (global_delete e t) name r
  unfolding global_delete
  global_delete-IsNewest t name r n =
      keep-IsNewest (λ q. not (is_idle q && not (is_newest_row e t q))) t name r
        (kept (is_idle r) (is_newest_row e t r) (is_newest_row-IsNewest e law t name r n)) n
    where
      kept : (a b : Bool) → b ≡ true → not (a && not b) ≡ true
      kept a b h = ground arith

  delete_out_of_date_globally-Holds :
      (name bytes : Bytes) (w : World)
      → Holds w name bytes
      → Holds (delete_out_of_date_globally e w).1 name bytes
  unfolding delete_out_of_date_globally global_rows
  delete_out_of_date_globally-Holds name bytes w h =
      let r = h.version in
      let new = global_delete e w.rows in
      let p = path r in
      Moves-Holds w.rows new name bytes r r _ h.newest
        (global_delete-IsNewest w.rows name r h.newest) refl
        (then-rows w.rows new p bytes (global_rows e) w (record { rows = refl; stored = h.stored })
          (λ v a.
            then-delete_files w.rows new p bytes (global_select e w.rows) _ v
              (global_select-apart w.rows name r h.newest) a
              (λ x b.
                then-call w.rows new p bytes _ x b (λ y c. commit-Moves w.rows new p bytes y c))))

  -- Where the engine obeys IsEngine, and whatever is refused: DatabaseInit leaves the newest
  -- complete version of every name, with its bytes.
  pub database_init-Holds :
      (name bytes : Bytes) (w : World) → Holds w name bytes → Holds (database_init e w).1 name bytes
  unfolding database_init
  database_init-Holds name bytes w h = next _ w h (λ _ v1 h1. next _ v1 h1 (λ _ v2 h2.
      next _ v2 h2 (λ _ v3 h3. next _ v3 h3 (λ _ v4 h4. next _ v4 h4 (λ _ v5 h5.
        then-Holds clear_failed_uploads _ name bytes v5
          (clear_failed_uploads-Holds name bytes v5 h5)
          (λ _ v6 h6. delete_out_of_date_globally-Holds name bytes v6 h6))))))
    where
      next :
          {B : Type 0} (f : Unit {0} → Task B) (v : World)
          → Holds v name bytes
          → ((a : Unit {0}) (u : World) → Holds u name bytes → Holds (f a u).1 name bytes)
          → Holds ((call >>= f) v).1 name bytes
      next f v i k = then-Holds call f name bytes v (call-Holds name bytes v i) k
