-- ===== src/Files/World/Moves.antt =====
-- What a method leaves: the rows as they were or as its transaction writes them, and one file of
-- the directory as it was. A lemma for each call says how to go on after it.
use tftpcpd.Base.{
  Bytes, Bool, true, false, List, [], ◌∷◌, Option, none, some, ◌≡◌, ◌≢◌, refl, sym, subst, ◌∙◌, ◌⊎◌,
  inl, inr, All,
}
use tftpcpd.Files.Table.{Table}
use tftpcpd.Files.World.{
  World, Task, ◌>>=◌, call, granted, commit, the, gets, create_file, open_file, close_file, path,
  delete_files, find_file, remove_file, write_back,
}
use tftpcpd.Files.World.Disk.{find_file-remove_file, find_file-create, find_file-write_back_ne}

-- The world with other refusals to come.
abbrev pub later_in : World → List Bool → World
later_in w later = record w { refusals = later }

pub call-cases :
    (w : World)
    → ((later : List Bool) × (call w ≡ (none, later_in w later)))
      ⊎ ((later : List Bool) × (call w ≡ (some tt, later_in w later)))
unfolding call granted
call-cases w = go w.refusals
  where
    go :
        (l : List Bool)
        → ((later : List Bool) × (granted l w ≡ (none, later_in w later)))
          ⊎ ((later : List Bool) × (granted l w ≡ (some tt, later_in w later)))
    go [] = inr (w.refusals, refl)
    go (true ∷ later) = inl (later, refl)
    go (false ∷ later) = inr (later, refl)

module _ (old new : Table) (p bytes : Bytes) where
  -- During a transaction: its rows are not written yet.
  pub record Open (w : World) : Type 0 where
    pub rows : w.rows ≡ old
    pub stored : find_file p w.disk ≡ some bytes

  -- After its commit.
  pub record Closed (w : World) : Type 0 where
    pub rows : w.rows ≡ new
    pub stored : find_file p w.disk ≡ some bytes

  -- What the end of a method leaves: where it returns no error the rows are the new ones.
  abbrev pub Moves : {A : Type 0} → Option A × World → Type 0
  Moves (none, w) = Open w ⊎ Closed w
  Moves (some a, w) = Closed w

  pub then-call :
      {A : Type 0} (f : Unit {0} → Task A) (w : World)
      → Open w
      → ((v : World) → Open v → Moves (f tt v))
      → Moves ((call >>= f) w)
  then-call f w o k = elim (call-cases w) [
    | inl (later, refused) ↦ rw refused (inl (record { rows = o.rows; stored = o.stored }))
    | inr (later, fine) ↦
        rw fine (k (later_in w later) (record { rows = o.rows; stored = o.stored }))
  ]

  pub then-Closed-call :
      {A : Type 0} (f : Unit {0} → Task A) (w : World)
      → Closed w
      → ((v : World) → Closed v → Moves (f tt v))
      → Moves ((call >>= f) w)
  then-Closed-call f w o k = elim (call-cases w) [
    | inl (later, refused) ↦ rw refused (inr (record { rows = o.rows; stored = o.stored }))
    | inr (later, fine) ↦
        rw fine (k (later_in w later) (record { rows = o.rows; stored = o.stored }))
  ]

  pub then-the :
      {A B : Type 0} (o : Option A) (f : A → Task B) (w : World)
      → Open w
      → ((a : A) → o ≡ some a → Moves (f a w))
      → Moves ((the o >>= f) w)
  then-the none f w o k = inl o
  then-the (some a) f w o k = k a refl

  -- Two calls, and then what is done on the rows.
  pub then-rows :
      {A : Type 0} (f : Table → Task A) (w : World)
      → Open w
      → ((v : World) → Open v → Moves (f old v))
      → Moves ((call >>= λ _. call >>= λ _. gets (λ v. v.rows) >>= f) w)
  then-rows f w o k =
      then-call (λ _. call >>= λ _. gets (λ v. v.rows) >>= f) w o
        (λ u a.
          then-call (λ _. gets (λ v. v.rows) >>= f) u a
            (λ v b. subst (λ t. Moves (f t v)) (sym b.rows) (k v b)))

  pub commit-Moves : (w : World) → Open w → Moves (commit new w)
  unfolding commit
  commit-Moves w o =
      then-call (λ _ v. (some tt, record v { rows = new })) w o
        (λ v i. record { rows = refl; stored = i.stored })

  pub then-commit :
      {A : Type 0} (f : Unit {0} → Task A) (w : World)
      → Open w
      → ((v : World) → Closed v → Moves (f tt v))
      → Moves ((commit new >>= f) w)
  unfolding commit
  then-commit f w o k = elim (call-cases w) [
    | inl (later, refused) ↦ rw refused (inl (record { rows = o.rows; stored = o.stored }))
    | inr (later, fine) ↦
        rw fine
          (k (record (later_in w later) { rows = new }) (record { rows = refl; stored = o.stored }))
  ]

  pub then-commit_of :
      {A : Type 0} (t : Table) (f : Unit {0} → Task A) (w : World)
      → new ≡ t
      → Open w
      → ((v : World) → Closed v → Moves (f tt v))
      → Moves ((commit t >>= f) w)
  then-commit_of t f w e o k = subst (λ l. Moves ((commit l >>= f) w)) e (then-commit f w o k)

  pub then-delete_files :
      {A : Type 0} (l : Table) (f : Unit {0} → Task A) (w : World)
      → All (λ q. p ≢ path q) l
      → Open w
      → ((v : World) → Open v → Moves (f tt v))
      → Moves ((delete_files l >>= f) w)
  unfolding delete_files
  then-delete_files [] f w h o k = k w o
  then-delete_files (q ∷ l) f w h o k = elim (call-cases w) [
    | inl (later, ended) ↦
        rw ended (k (later_in w later) (record { rows = o.rows; stored = o.stored }))
    | inr (later, read) ↦ rw read (elim (call-cases (later_in w later)) [
      | inl (rest, refused) ↦ rw refused (inl (record { rows = o.rows; stored = o.stored }))
      | inr (rest, fine) ↦ rw fine (
          then-delete_files l f (record (later_in w rest) { disk = remove_file (path q) w.disk })
            h.1
            (record {
              rows = o.rows;
              stored = find_file-remove_file p (path q) w.disk h.0 ∙ o.stored;
            })
            k)
    ])
  ]

  -- Closing another file, before the transaction.
  pub then-close_file :
      {A : Type 0} (other text : Bytes) (f : Unit {0} → Task A) (w : World)
      → p ≢ other
      → Open w
      → ((v : World) → Open v → Moves (f tt v))
      → Moves ((close_file other text >>= f) w)
  unfolding close_file
  then-close_file other text f w h o k =
      then-call f (record w { disk = write_back other text w.disk })
        (record {
          rows = o.rows;
          stored = find_file-write_back_ne p other text w.disk h ∙ o.stored;
        })
        k

  -- Creating another file, after the transaction.
  pub then-create_file :
      {A : Type 0} (other : Bytes) (f : Unit {0} → Task A) (w : World)
      → p ≢ other
      → Closed w
      → ((v : World) → Closed v → Moves (f tt v))
      → Moves ((create_file other >>= f) w)
  unfolding create_file
  then-create_file other f w h o k = elim (call-cases w) [
    | inl (later, refused) ↦ rw refused (inr (record { rows = o.rows; stored = o.stored }))
    | inr (later, fine) ↦ rw fine (
        k (record (later_in w later) { disk = (other, []) ∷ remove_file other w.disk })
          (record { rows = o.rows; stored = find_file-create p other w.disk h ∙ o.stored }))
  ]

  then-Closed-the :
      {A B : Type 0} (o : Option A) (f : A → Task B) (w : World)
      → Closed w
      → ((a : A) → o ≡ some a → Moves (f a w))
      → Moves ((the o >>= f) w)
  then-Closed-the none f w o k = inr o
  then-Closed-the (some a) f w o k = k a refl

  -- Opening a file, after the transaction.
  pub then-open_file :
      {A : Type 0} (other : Bytes) (f : Bytes → Task A) (w : World)
      → Closed w
      → ((text : Bytes) (v : World)
          → Closed v
          → find_file other v.disk ≡ some text
          → Moves (f text v))
      → Moves ((open_file other >>= f) w)
  unfolding open_file
  then-open_file other f w o k = elim (call-cases w) [
    | inl (later, refused) ↦ rw refused (inr (record { rows = o.rows; stored = o.stored }))
    | inr (later, fine) ↦ rw fine (
        then-Closed-the (find_file other w.disk) f (later_in w later)
          (record { rows = o.rows; stored = o.stored })
          (λ text e. k text (later_in w later) (record { rows = o.rows; stored = o.stored }) e))
  ]
