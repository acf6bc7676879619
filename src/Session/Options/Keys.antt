-- ===== src/Session/Options/Keys.antt =====
-- `UpdateOptions` leaves the keys of the request as they are: what the session acknowledges is
-- what it was asked for, the options that it does not implement among it.
use tftpcpd.Base.{
  ℕ, zero, suc, Bytes, Bool, true, false, ◌||◌, List, [], ◌∷◌, Option, none, some, ◌≡◌, sym, ap,
  subst, ◌∙◌, inl, inr, arith, codes, equal, equal_iff, to_lower, Bool-cases,
}
use tftpcpd.Wire.{Options}
use tftpcpd.Wire.Decode.{insert}
use tftpcpd.Session.State.{
  Operation, read_as_server, size_unknown, invalid_tsize, Session, Outcome, done, failed, panic,
  Runtime,
}
use tftpcpd.Session.SendLoop.Heard.{>>=-eq-done}
use tftpcpd.Session.Number.{ℤ, pos, negsuc, parse_int, format_int}
use tftpcpd.Session.Options.{
  path_of, set_block_size, set_timeout, set_transfer_size, find_size, set_size, apply_option, Lstat,
  update_option, update_each, update_options,
}

abbrev pub keys : Options → List Bytes
keys [] = []
keys ((k, v) ∷ o) = k ∷ keys o

is_among : Bytes → List Bytes → Bool
is_among k [] = false
is_among k (j ∷ l) = equal j k || is_among k l

-- Every key is its own lower case, as in a map that was decoded.
abbrev pub AreLower : (Bytes → Bytes) → Options → Type 0
AreLower map_lower [] = Unit
AreLower map_lower ((k, v) ∷ o) = (to_lower map_lower k ≡ k) × AreLower map_lower o

-- Every pair of the list has its key among the keys.
abbrev AreAmong : Options → List Bytes → Type 0
AreAmong [] l = Unit
AreAmong ((k, v) ∷ o) l = (is_among k l ≡ true) × AreAmong o l

keys-insert :
    (k v : Bytes) (o : Options) → is_among k (keys o) ≡ true → keys (insert k v o) ≡ keys o
unfolding insert is_among
keys-insert k v [] h = absurd (ground arith)
keys-insert k v ((j, w) ∷ o) h = ground (arith, keys-insert k v o)

AreAmong-more : (o : Options) (j : Bytes) (l : List Bytes) → AreAmong o l → AreAmong o (j ∷ l)
unfolding is_among
AreAmong-more [] j l h = tt
AreAmong-more ((k, v) ∷ o) j l h = (ground arith, AreAmong-more o j l h.1)

AreAmong-self : (o : Options) → AreAmong o (keys o)
unfolding is_among
AreAmong-self [] = tt
AreAmong-self ((k, v) ∷ o) =
    (ground (arith, equal_iff k k), AreAmong-more o k (keys o) (AreAmong-self o))

module _ (rt : Runtime) (lstat : Lstat) where
  keys-set_transfer_size :
      (n : ℤ) (o p : Options) (s t : Session)
      → is_among (codes "tsize") (keys o) ≡ true
      → set_transfer_size n o s ≡ done p t
      → keys p ≡ keys o
  unfolding set_transfer_size
  keys-set_transfer_size n o p s t i h =
      ground (arith, keys-insert (codes "tsize") (format_int n) o i)

  keys-find_size :
      (o p : Options) (s t : Session)
      → is_among (codes "tsize") (keys o) ≡ true
      → find_size lstat o s ≡ done p t
      → keys p ≡ keys o
  unfolding find_size
  keys-find_size o p s t i h = by_operation s.operation h
    where
      found :
          (r : Option ℕ)
          → elim r [ none ↦ failed size_unknown s | some n ↦ set_transfer_size (pos n) o s ]
            ≡ done p t
          → keys p ≡ keys o
      found none e = absurd (ground arith)
      found (some n) e = keys-set_transfer_size (pos n) o p s t i e

      by_operation :
          (op : Operation)
          → elim op [
            | read_as_server ↦ elim (lstat (path_of s.filename s.unix_micro)) [
              | none ↦ failed size_unknown s
              | some n ↦ set_transfer_size (pos n) o s
            ]
            | _ ↦ failed invalid_tsize s
          ]
            ≡ done p t
          → keys p ≡ keys o
      by_operation read_as_server e = found (lstat (path_of s.filename s.unix_micro)) e
      by_operation _ e = absurd (ground arith)

  keys-set_size :
      (n : ℤ) (o p : Options) (s t : Session)
      → is_among (codes "tsize") (keys o) ≡ true
      → set_size lstat n o s ≡ done p t
      → keys p ≡ keys o
  unfolding set_size
  keys-set_size (pos zero) o p s t i h = keys-find_size o p s t i h
  keys-set_size (pos (suc n)) o p s t i h = keys-set_transfer_size (pos (suc n)) o p s t i h
  keys-set_size (negsuc n) o p s t i h = keys-set_transfer_size (negsuc n) o p s t i h

  keys-apply_option :
      (k v : Bytes) (n : ℤ) (o p : Options) (s t : Session)
      → is_among k (keys o) ≡ true
      → apply_option lstat k v n o s ≡ done p t
      → keys p ≡ keys o
  unfolding apply_option
  keys-apply_option k v n o p s t i h = elim (Bool-cases (equal k (codes "blksize"))) [
    | inl a ↦
        unfold set_block_size in
        ground (
          arith,
          keys-insert (codes "blksize") v o
              ((ap (λ j. is_among j (keys o)) (sym ((equal_iff k (codes "blksize")).0 a))) ∙ i),
        )
    | inr a ↦ elim (Bool-cases (equal k (codes "timeout"))) [
      | inl b ↦
          unfold set_timeout in
          ground (
            arith,
            keys-insert (codes "timeout") v o
                ((ap (λ j. is_among j (keys o)) (sym ((equal_iff k (codes "timeout")).0 b))) ∙ i),
          )
      | inr b ↦ elim (Bool-cases (equal k (codes "tsize"))) [
        | inl c ↦
            keys-set_size n o p s t
              ((ap (λ j. is_among j (keys o)) (sym ((equal_iff k (codes "tsize")).0 c))) ∙ i)
              (rw (a, b, c) at h)
        | inr c ↦ ground arith
      ]
    ]
  ]

  keys-update_option :
      (k v : Bytes) (o p : Options) (s t : Session)
      → to_lower rt.map_lower k ≡ k
      → is_among k (keys o) ≡ true
      → update_option rt lstat k v o s ≡ done p t
      → keys p ≡ keys o
  unfolding update_option
  keys-update_option k v o p s t low i h = go (parse_int v) h
    where
      go :
          (r : Option ℤ)
          → elim r [ none ↦ panic | some n ↦ apply_option lstat (to_lower rt.map_lower k) v n o s ]
            ≡ done p t
          → keys p ≡ keys o
      go none e = absurd (ground arith)
      go (some n) e = keys-apply_option k v n o p s t i (rw low at e)

  keys-update_each :
      (later o p : Options) (s t : Session)
      → AreLower rt.map_lower later
      → AreAmong later (keys o)
      → update_each rt lstat later o s ≡ done p t
      → keys p ≡ keys o
  unfolding update_each
  keys-update_each [] o p s t low a h = ground arith
  keys-update_each ((k, v) ∷ later) o p s t low a h =
      let (q, u, first, rest) = >>=-eq-done (update_option rt lstat k v o s) _ h in
      let same = keys-update_option k v o q s u low.0 a.0 first in
      keys-update_each later q p u t low.1 (subst (AreAmong later) (sym same) a.1) rest ∙ same

  -- Where `UpdateOptions` returns no error, the session's options have exactly the keys that the
  -- peer asked for, in the same order, whether the code implements them or not.
  pub keys-update_options :
      (options : Options) (s t : Session)
      → AreLower rt.map_lower options
      → update_options rt lstat options s ≡ done tt t
      → keys t.options ≡ keys options
  unfolding update_options
  keys-update_options options s t low h =
      let (o, u, each, rest) = >>=-eq-done (update_each rt lstat options options s) _ h in
      ap (λ (x : Session). keys x.options) (the rest)
      ∙ keys-update_each options options o s u low (AreAmong-self options) each
    where
      the : {x y : Session} → ◌≡◌ {A = Outcome (Unit {0})} (done tt x) (done tt y) → y ≡ x
      the e = ground arith
