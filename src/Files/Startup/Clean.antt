-- ===== src/Files/Startup/Clean.antt =====
-- The rows that `DatabaseInit` leaves.
use tftpcpd.Base.{
  Bool, true, false, not, ◌&&◌, Option, none, some, ◌≡◌, sym, ap, subst, ◌∙◌, arith, ◌==◌, keep,
  All, In, All-In, In-All, All-change, All-keep, keep-In,
}
use tftpcpd.Files.Table.{
  FileModel, Table, Engine, is_idle, newest_of, is_newest_row, global_select, global_delete,
  unfinished_select, unfinished_delete, zero_consumers,
}
use tftpcpd.Files.World.{World, call, delete_files}
use tftpcpd.Files.World.Granted.{>>=-eq-some, call-rows, commit-rows}
use tftpcpd.Files.Startup.{
  unfinished_rows, global_rows, delete_out_of_date_globally, clear_failed_uploads, database_init,
}

-- Every row is complete and has no consumers, and no name has two rows.
pub record IsClean (t : Table) : Type 0 where
  pub idle : All (λ q. is_idle q ≡ true) t
  pub one :
      (q r : FileModel)
      → In q t
      → In r t
      → q.filename ≡ r.filename
      → q.time_started ≡ r.time_started

zero_consumers-idle :
    (t : Table) → All (λ q. is_idle q ≡ true) (zero_consumers (unfinished_delete t))
unfolding zero_consumers unfinished_delete
zero_consumers-idle t =
    let f = λ (q : FileModel). not (q.time_completed == 0) in
    All-change (λ q. f q ≡ true) (λ q. is_idle q ≡ true) (λ q. record q { consumers = 0 })
      (keep f t) (λ q h. h) (In-All (λ q. f q ≡ true) (keep f t) (λ q i. (keep-In f q t i).1))

module _ (e : Engine) where
  -- Two rows of a name that the subquery gives are the same row.
  newest_row_unique :
      (t : Table) (q r : FileModel)
      → is_newest_row e t q ≡ true
      → is_newest_row e t r ≡ true
      → q.filename ≡ r.filename
      → q.time_started ≡ r.time_started
  newest_row_unique t q r h k n = same (newest_of e q.filename t) h (
      subst (λ o. elim o [ none ↦ false | some x ↦ x.time_started == r.time_started ] ≡ true)
        (ap (λ m. newest_of e m t) (sym n)) k)
    where
      same :
          (o : Option FileModel)
          → elim o [ none ↦ false | some x ↦ x.time_started == q.time_started ] ≡ true
          → elim o [ none ↦ false | some x ↦ x.time_started == r.time_started ] ≡ true
          → q.time_started ≡ r.time_started
      same none i j = absurd (ground arith)
      same (some x) i j = ground arith

  global_delete-IsClean : (t : Table) → All (λ q. is_idle q ≡ true) t → IsClean (global_delete e t)
  unfolding global_delete
  global_delete-IsClean t h =
      let f = λ (q : FileModel). not (is_idle q && not (is_newest_row e t q)) in
      record {
        idle = All-keep (λ q. is_idle q ≡ true) f t h;
        one = λ q r i j n.
            let (qi, qk) = keep-In f q t i in
            let (ri, rk) = keep-In f r t j in
            newest_row_unique t q r
              (newest (is_idle q) (is_newest_row e t q) (All-In (λ x. is_idle x ≡ true) q t h qi)
                qk)
              (newest (is_idle r) (is_newest_row e t r) (All-In (λ x. is_idle x ≡ true) r t h ri)
                rk)
              n;
      }
    where
      newest : (a b : Bool) → a ≡ true → not (a && not b) ≡ true → b ≡ true
      newest a b i j = ground arith

  delete_out_of_date_globally-IsClean :
      (w v : World)
      → All (λ q. is_idle q ≡ true) w.rows
      → delete_out_of_date_globally e w ≡ (some tt, v)
      → IsClean v.rows
  unfolding delete_out_of_date_globally global_rows
  delete_out_of_date_globally-IsClean w v h k =
      let (a1, w1, c1, k1) = >>=-eq-some call _ w v tt k in
      let (a2, w2, c2, k2) = >>=-eq-some call _ w1 v tt k1 in
      let (a3, w3, c3, k3) = >>=-eq-some (delete_files (global_select e w2.rows)) _ w2 v tt k2 in
      let (a4, w4, c4, k4) = >>=-eq-some call _ w3 v tt k3 in
      let same = call-rows w1 w2 a2 c2 ∙ call-rows w w1 a1 c1 in
      subst IsClean (sym (commit-rows (global_delete e w2.rows) w4 v tt k4))
        (global_delete-IsClean w2.rows (subst (All (λ q. is_idle q ≡ true)) (sym same) h))

  clear_failed_uploads-idle :
      (w v : World) (a : Unit {0})
      → clear_failed_uploads w ≡ (some a, v)
      → All (λ q. is_idle q ≡ true) v.rows
  unfolding clear_failed_uploads unfinished_rows
  clear_failed_uploads-idle w v a k =
      let (a1, w1, c1, k1) = >>=-eq-some call _ w v a k in
      let (a2, w2, c2, k2) = >>=-eq-some call _ w1 v a k1 in
      let (a3, w3, c3, k3) = >>=-eq-some (delete_files (unfinished_select w2.rows)) _ w2 v a k2 in
      let (a4, w4, c4, k4) = >>=-eq-some call _ w3 v a k3 in
      let (a5, w5, c5, k5) = >>=-eq-some call _ w4 v a k4 in
      subst (All (λ q. is_idle q ≡ true))
        (sym (commit-rows (zero_consumers (unfinished_delete w2.rows)) w5 v a k5))
        (zero_consumers-idle w2.rows)

  -- Where DatabaseInit returns no error, every version is complete, none has consumers, and no
  -- name has two versions.
  pub database_init-IsClean : (w v : World) → database_init e w ≡ (some tt, v) → IsClean v.rows
  unfolding database_init
  database_init-IsClean w v k =
      let (a1, w1, c1, k1) = >>=-eq-some call _ w v tt k in
      let (a2, w2, c2, k2) = >>=-eq-some call _ w1 v tt k1 in
      let (a3, w3, c3, k3) = >>=-eq-some call _ w2 v tt k2 in
      let (a4, w4, c4, k4) = >>=-eq-some call _ w3 v tt k3 in
      let (a5, w5, c5, k5) = >>=-eq-some call _ w4 v tt k4 in
      let (a6, w6, c6, k6) = >>=-eq-some clear_failed_uploads _ w5 v tt k5 in
      delete_out_of_date_globally-IsClean w6 v (clear_failed_uploads-idle w5 w6 a6 c6) k6
