-- ===== src/Files/World/Granted.antt =====
-- What a task that returned a value has done.
use tftpcpd.Base.{Bytes, Bool, List, Option, none, some, ◌≡◌, refl, sym, ap, ◌∙◌, inl, inr, arith}
use tftpcpd.Files.Table.{Table}
use tftpcpd.Files.World.{World, Task, ◌>>=◌, continue, call, commit, the, open_file, find_file}
use tftpcpd.Files.World.Moves.{later_in, call-cases}

-- What a task that returned a value did first.
pub >>=-eq-some :
    {A B : Type 0} (m : Task A) (f : A → Task B) (w u : World) (b : B)
    → (m >>= f) w ≡ (some b, u)
    → (a : A) × (v : World) × (m w ≡ (some a, v)) × (f a v ≡ (some b, u))
>>=-eq-some {A} {B} m f w u b h = go (m w) refl h
  where
    go :
        (o : Option A × World)
        → m w ≡ o
        → continue f o ≡ (some b, u)
        → (a : A) × (v : World) × (m w ≡ (some a, v)) × (f a v ≡ (some b, u))
    go (none, v) e k = absurd (ground arith)
    go (some a, v) e k = (a, v, e, k)

pub call-eq-some :
    (w v : World) (a : Unit {0})
    → call w ≡ (some a, v)
    → (later : List Bool) × (v ≡ later_in w later)
call-eq-some w v a h = elim (call-cases w) [
  | inl (later, refused) ↦ absurd (ground arith)
  | inr (later, fine) ↦ (later, ground arith)
]

pub the-eq-some :
    {A : Type 0} (o : Option A) (w v : World) (a : A)
    → the o w ≡ (some a, v)
    → (o ≡ some a) × (v ≡ w)
the-eq-some none w v a h = absurd (ground arith)
the-eq-some (some b) w v a h = (ground arith, ground arith)

-- A call that is granted leaves the rows and the files.
pub call-rows : (w v : World) (a : Unit {0}) → call w ≡ (some a, v) → v.rows ≡ w.rows
call-rows w v a h = let (later, e) = call-eq-some w v a h in ap (λ (x : World). x.rows) e

pub call-disk : (w v : World) (a : Unit {0}) → call w ≡ (some a, v) → v.disk ≡ w.disk
call-disk w v a h = let (later, e) = call-eq-some w v a h in ap (λ (x : World). x.disk) e

pub commit-disk :
    (t : Table) (w v : World) (a : Unit {0}) → commit t w ≡ (some a, v) → v.disk ≡ w.disk
unfolding commit
commit-disk t w v a h =
    let (b, u, c, k) = >>=-eq-some call (λ _ x. (some tt, record x { rows = t })) w v a h in
    ap (λ (o : Option (Unit {0}) × World). o.1.disk) (sym k) ∙ call-disk w u b c

pub open_file-found :
    (other text : Bytes) (w v : World)
    → open_file other w ≡ (some text, v)
    → find_file other w.disk ≡ some text
unfolding open_file
open_file-found other text w v h =
    let (b, u, c, k) = >>=-eq-some call (λ _ x. the (find_file other x.disk) x) w v text h in
    ap (find_file other) (sym (call-disk w u b c))
    ∙ (the-eq-some (find_file other u.disk) u v text k).0

pub commit-rows : (t : Table) (w v : World) (a : Unit {0}) → commit t w ≡ (some a, v) → v.rows ≡ t
unfolding commit
commit-rows t w v a h =
    let (b, u, c, k) = >>=-eq-some call (λ _ x. (some tt, record x { rows = t })) w v a h in
    sym (ap (λ (o : Option (Unit {0}) × World). o.1.rows) k)
