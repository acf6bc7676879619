-- ===== src/Files/Table/Newest.antt =====
-- The newest complete version of a file, apart from how SQLite finds it: what makes a row the
-- newest, that the statements find it, and which changes of the table keep it.
use tftpcpd.Base.{
  ℕ, ◌≤◌, ◌<◌, Bytes, Bool, true, false, ◌&&◌, [], ◌∷◌, ◌++◌, Option, none, some, ◌≡◌, ◌≢◌, refl,
  sym, ap, subst, ◌∙◌, ◌⊎◌, inl, inr, arith, equal, equal_iff, ◌==◌, if◌then◌else◌, keep, change,
  All, In, All-In, In-All, In-change, All-change, In-keep, keep-In, All-keep, In-append, All-append,
  ==-refl,
}
use tftpcpd.Files.Table.{
  FileModel, Table, Engine, IsEngine, has_name, pick_of, newest_of, is_newest_row,
  is_newest_version, first_row, prepare_insert, with_upload,
}

-- Another row of the same name completed before `r`.
abbrev pub Older : Bytes → FileModel → FileModel → Type 0
Older name r q =
    q.filename ≡ name → q.time_started ≢ r.time_started → q.time_completed < r.time_completed

-- The row is told apart by its time.
abbrev pub Single : FileModel → FileModel → Type 0
Single r q = q.time_started ≡ r.time_started → q ≡ r

-- `r` is the newest complete version of `name`.
pub record IsNewest (t : Table) (name : Bytes) (r : FileModel) : Type 0 where
  pub listed : In r t
  pub named : r.filename ≡ name
  pub complete : 0 < r.time_completed
  pub older : All (Older name r) t
  pub single : All (Single r) t

equal_refl : (s : Bytes) → equal s s ≡ true
equal_refl s = (equal_iff s s).1 refl

module _ (e : Engine) (law : IsEngine e) where
  pick_of-IsNewest :
      (l : Table) (name : Bytes) (r : FileModel)
      → In r l
      → All (λ q. q.filename ≡ name) l
      → All (Older name r) l
      → All (Single r) l
      → pick_of e l ≡ some r
  pick_of-IsNewest [] name r i n o s = elim i [ ]
  pick_of-IsNewest (x ∷ l) name r i n o s = ap some (top (q.time_started == r.time_started) refl)
    where
      q : FileModel
      q = e.pick x l

      most : r.time_completed ≤ q.time_completed
      most = All-In (λ y. y.time_completed ≤ q.time_completed) r (x ∷ l) (law.maximal x l) i

      top : (b : Bool) → (q.time_started == r.time_started) ≡ b → q ≡ r
      top true k = All-In (Single r) q (x ∷ l) s (law.picks x l) (ground arith)
      top false k =
          let less : q.time_completed < r.time_completed =
            All-In (Older name r) q (x ∷ l) o (law.picks x l)
              (All-In (λ y. y.filename ≡ name) q (x ∷ l) n (law.picks x l)) (ground arith) in
          absurd (omega (arith, less, most))

  -- The subquery gives the newest complete version.
  pub newest_of-IsNewest :
      (t : Table) (name : Bytes) (r : FileModel) → IsNewest t name r → newest_of e name t ≡ some r
  newest_of-IsNewest t name r w =
      pick_of-IsNewest (keep (has_name name) t) name r
        (In-keep (has_name name) r t (rw w.named (equal_refl name)) w.listed)
        (In-All (λ q. q.filename ≡ name) (keep (has_name name) t)
          (λ q i. (equal_iff q.filename name).0 (keep-In (has_name name) q t i).1))
        (All-keep (Older name r) (has_name name) t w.older)
        (All-keep (Single r) (has_name name) t w.single)

  pub is_newest_row-IsNewest :
      (t : Table) (name : Bytes) (r : FileModel) → IsNewest t name r → is_newest_row e t r ≡ true
  is_newest_row-IsNewest t name r w =
      found (newest_of e r.filename t)
        (ap (λ n. newest_of e n t) w.named ∙ newest_of-IsNewest t name r w)
    where
      found :
          (o : Option FileModel)
          → o ≡ some r
          → elim o [ none ↦ false | some q ↦ q.time_started == r.time_started ] ≡ true
      found o h = rw h (==-refl r.time_started)

  pub is_newest_version-IsNewest :
      (t : Table) (name : Bytes) (r : FileModel)
      → IsNewest t name r
      → is_newest_version e t r ≡ true
  is_newest_version-IsNewest t name r w =
      found (newest_of e r.filename t)
        (ap (λ n. newest_of e n t) w.named ∙ newest_of-IsNewest t name r w)
    where
      found :
          (o : Option FileModel)
          → o ≡ some r
          → elim o [
            | none ↦ false
            | some q ↦ q.time_completed == r.time_completed && q.consumers == r.consumers
          ]
            ≡ true
      found o h = rw (h, ==-refl r.time_completed, ==-refl r.consumers) refl

-- A change of rows that keeps names and times, and what is complete of the name.
pub record IsMild (name : Bytes) (g : FileModel → FileModel) : Type 0 where
  pub filename : (q : FileModel) → (g q).filename ≡ q.filename
  pub started : (q : FileModel) → (g q).time_started ≡ q.time_started
  pub completed : (q : FileModel) → q.filename ≡ name → (g q).time_completed ≡ q.time_completed

-- A mild change of some rows.
pub if-IsMild :
    (name : Bytes) (c : FileModel → Bool) (h : FileModel → FileModel)
    → ((q : FileModel) → (h q).filename ≡ q.filename)
    → ((q : FileModel) → (h q).time_started ≡ q.time_started)
    → ((q : FileModel) → c q ≡ true → q.filename ≡ name → (h q).time_completed ≡ q.time_completed)
    → IsMild name (λ q. if c q then h q else q)
if-IsMild name c h f s k = record {
  filename = λ q. filename q (c q);
  started = λ q. started q (c q);
  completed = λ q. completed q (c q) refl;
}
  where
    filename : (q : FileModel) (b : Bool) → (if b then h q else q).filename ≡ q.filename
    filename q true = f q
    filename q false = refl

    started : (q : FileModel) (b : Bool) → (if b then h q else q).time_started ≡ q.time_started
    started q true = s q
    started q false = refl

    completed :
        (q : FileModel) (b : Bool)
        → c q ≡ b
        → q.filename ≡ name
        → (if b then h q else q).time_completed ≡ q.time_completed
    completed q true e n = k q e n
    completed q false e n = refl

pub change-IsNewest :
    (g : FileModel → FileModel) (t : Table) (name : Bytes) (r : FileModel)
    → IsMild name g
    → IsNewest t name r
    → IsNewest (change g t) name (g r)
change-IsNewest g t name r m w = record {
  listed = In-change g r t w.listed;
  named = m.filename r ∙ w.named;
  complete = rw (m.completed r w.named) w.complete;
  older = All-change (Older name r) (Older name (g r)) g t older w.older;
  single = All-change (Single r) (Single (g r)) g t single w.single;
}
  where
    older : (q : FileModel) → Older name r q → Older name (g r) (g q)
    older q h n s =
        let n' : q.filename ≡ name = sym (m.filename q) ∙ n in
        rw (m.completed q n', m.completed r w.named)
          (h n' (λ k. s (m.started q ∙ (k ∙ sym (m.started r)))))

    single : (q : FileModel) → Single r q → Single (g r) (g q)
    single q h s = ap g (h (sym (m.started q) ∙ (s ∙ m.started r)))

pub keep-IsNewest :
    (f : FileModel → Bool) (t : Table) (name : Bytes) (r : FileModel)
    → f r ≡ true
    → IsNewest t name r
    → IsNewest (keep f t) name r
keep-IsNewest f t name r h w = record {
  listed = In-keep f r t h w.listed;
  named = w.named;
  complete = w.complete;
  older = All-keep (Older name r) f t w.older;
  single = All-keep (Single r) f t w.single;
}

-- A new upload of any name.
pub append-IsNewest :
    (t : Table) (name : Bytes) (r new : FileModel)
    → new.time_completed ≡ 0
    → new.time_started ≢ r.time_started
    → IsNewest t name r
    → IsNewest (t ++ (new ∷ [])) name r
append-IsNewest t name r new zero_time ne w = record {
  listed = In-append r t (new ∷ []) w.listed;
  named = w.named;
  complete = w.complete;
  older = All-append (Older name r) t (new ∷ []) w.older ((λ n s. rw zero_time w.complete), tt);
  single = All-append (Single r) t (new ∷ []) w.single ((λ s. absurd (ne s)), tt);
}

-- An upload that completes after all the others of its name is the newest complete version.
pub change-IsNewest_latest :
    (g : FileModel → FileModel) (t : Table) (name : Bytes) (r : FileModel)
    → In r t
    → All (Single r) t
    → (g r).filename ≡ name
    → 0 < (g r).time_completed
    → ((q : FileModel) → (g q).time_started ≡ q.time_started)
    → All
        (λ q.
          (g q).filename ≡ name
          → q.time_started ≢ r.time_started
          → (g q).time_completed < (g r).time_completed)
        t
    → IsNewest (change g t) name (g r)
change-IsNewest_latest g t name r i s n c started later = record {
  listed = In-change g r t i;
  named = n;
  complete = c;
  older =
      All-change
        (λ q.
          (g q).filename ≡ name
          → q.time_started ≢ r.time_started
          → (g q).time_completed < (g r).time_completed)
        (Older name (g r)) g t (λ q h m k. h m (λ x. k (started q ∙ (x ∙ sym (started r))))) later;
  single =
      All-change (Single r) (Single (g r)) g t
        (λ q h k. ap g (h (sym (started q) ∙ (k ∙ started r)))) s;
}

-- `PrepareStatement` is refused, or no row has that time.
pub prepare_insert-cases :
    (e : Engine) (name : Bytes) (now : ℕ) (t : Table)
    → (prepare_insert e name now t ≡ none)
      ⊎ ((prepare_insert e name now t ≡ some (with_upload e name now t))
          × All (λ q. q.time_started ≢ now) t)
unfolding prepare_insert
prepare_insert-cases e name now t = go (keep (λ q. q.time_started == now) t) refl
  where
    go :
        (l : Table)
        → keep (λ q. q.time_started == now) t ≡ l
        → ((elim (first_row l) [ some q ↦ none | none ↦ some (with_upload e name now t) ]) ≡ none)
          ⊎ (((elim (first_row l) [ some q ↦ none | none ↦ some (with_upload e name now t) ])
                ≡ some (with_upload e name now t))
              × All (λ q. q.time_started ≢ now) t)
    go [] k = inr (
      refl,
      In-All (λ q. q.time_started ≢ now) t
          (λ q i same.
            let j : In q (keep (λ x. x.time_started == now) t) =
              In-keep (λ x. x.time_started == now) q t (rw same (==-refl now)) i in
            subst (In q) k j),
    )
    go (x ∷ l) k = inl refl
