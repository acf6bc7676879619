-- ===== src/Session/Options/Buffers.antt =====
-- `UpdateOptions` raises the block size and leaves `ReceiveBuf` as it is: what the next `Receive`
-- makes of that.
use tftpcpd.Base.{
  zero, suc, Bytes, [], ◌∷◌, Option, none, some, ◌≡◌, refl, subst, ◌∙◌, inl, inr, arith, codes,
  equal, to_lower, Bool-cases,
}
use tftpcpd.Wire.{Options}
use tftpcpd.Session.State.{Session, done, panic, Runtime}
use tftpcpd.Session.SendLoop.Heard.{>>=-eq-done}
use tftpcpd.Session.Number.{ℤ, pos, negsuc, parse_int}
use tftpcpd.Session.Options.{
  set_block_size, set_timeout, set_transfer_size, find_size, set_size, apply_option, Lstat,
  update_option, update_each, update_options,
}

-- What the options leave of the session: the buffer for what arrives, the connection and the file.
pub record SameEnds (s t : Session) : Type 0 where
  pub buffer : t.receive_buf ≡ s.receive_buf
  pub send_buffer : t.send_buf ≡ s.send_buf
  pub connection : t.destination ≡ s.destination
  pub file : t.file ≡ s.file
  pub filename : t.filename ≡ s.filename

module _ (lstat : Lstat) where
  set_block_size-SameEnds :
      (v : Bytes) (n : ℤ) (o p : Options) (s t : Session)
      → set_block_size v n o s ≡ done p t
      → SameEnds s t
  unfolding set_block_size
  set_block_size-SameEnds v n o p s t h = record {
    buffer = ground arith;
    send_buffer = ground arith;
    connection = ground arith;
    file = ground arith;
    filename = ground arith;
  }

  set_timeout-SameEnds :
      (v : Bytes) (n : ℤ) (o p : Options) (s t : Session)
      → set_timeout v n o s ≡ done p t
      → SameEnds s t
  unfolding set_timeout
  set_timeout-SameEnds v n o p s t h = record {
    buffer = ground arith;
    send_buffer = ground arith;
    connection = ground arith;
    file = ground arith;
    filename = ground arith;
  }

  set_size-SameEnds :
      (n : ℤ) (o p : Options) (s t : Session) → set_size lstat n o s ≡ done p t → SameEnds s t
  unfolding set_size find_size set_transfer_size
  set_size-SameEnds (pos zero) o p s t h = record {
    buffer = ground arith;
    send_buffer = ground arith;
    connection = ground arith;
    file = ground arith;
    filename = ground arith;
  }
  set_size-SameEnds (pos (suc n)) o p s t h = record {
    buffer = ground arith;
    send_buffer = ground arith;
    connection = ground arith;
    file = ground arith;
    filename = ground arith;
  }
  set_size-SameEnds (negsuc n) o p s t h = record {
    buffer = ground arith;
    send_buffer = ground arith;
    connection = ground arith;
    file = ground arith;
    filename = ground arith;
  }

  apply_option-SameEnds :
      (k v : Bytes) (n : ℤ) (o p : Options) (s t : Session)
      → apply_option lstat k v n o s ≡ done p t
      → SameEnds s t
  unfolding apply_option
  apply_option-SameEnds k v n o p s t h = elim (Bool-cases (equal k (codes "blksize"))) [
    | inl a ↦ set_block_size-SameEnds v n o p s t (rw a at h)
    | inr a ↦ elim (Bool-cases (equal k (codes "timeout"))) [
      | inl b ↦ set_timeout-SameEnds v n o p s t (rw (a, b) at h)
      | inr b ↦ elim (Bool-cases (equal k (codes "tsize"))) [
        | inl c ↦ set_size-SameEnds n o p s t (rw (a, b, c) at h)
        | inr c ↦
            let same : s ≡ t = ground arith in
            subst (SameEnds s) same (record {
              buffer = refl;
              send_buffer = refl;
              connection = refl;
              file = refl;
              filename = refl;
            })
      ]
    ]
  ]

module _ (rt : Runtime) (lstat : Lstat) where
  update_option-SameEnds :
      (k v : Bytes) (o p : Options) (s t : Session)
      → update_option rt lstat k v o s ≡ done p t
      → SameEnds s t
  unfolding update_option
  update_option-SameEnds k v o p s t h = go (parse_int v) h
    where
      go :
          (r : Option ℤ)
          → elim r [ none ↦ panic | some n ↦ apply_option lstat (to_lower rt.map_lower k) v n o s ]
            ≡ done p t
          → SameEnds s t
      go none e = absurd (ground arith)
      go (some n) e = apply_option-SameEnds lstat (to_lower rt.map_lower k) v n o p s t e

  update_each-SameEnds :
      (later o p : Options) (s t : Session)
      → update_each rt lstat later o s ≡ done p t
      → SameEnds s t
  unfolding update_each
  update_each-SameEnds [] o p s t h =
      let same : s ≡ t = ground arith in
      subst (SameEnds s) same (record {
        buffer = refl;
        send_buffer = refl;
        connection = refl;
        file = refl;
        filename = refl;
      })
  update_each-SameEnds ((k, v) ∷ later) o p s t h =
      let (q, u, first, rest) = >>=-eq-done (update_option rt lstat k v o s) _ h in
      let a = update_option-SameEnds k v o q s u first in
      let b = update_each-SameEnds later q p u t rest in
      record {
        buffer = b.buffer ∙ a.buffer;
        send_buffer = b.send_buffer ∙ a.send_buffer;
        connection = b.connection ∙ a.connection;
        file = b.file ∙ a.file;
        filename = b.filename ∙ a.filename;
      }

  pub update_options-SameEnds :
      (options : Options) (s t : Session)
      → update_options rt lstat options s ≡ done tt t
      → SameEnds s t
  unfolding update_options
  update_options-SameEnds options s t h =
      let (o, u, each, rest) = >>=-eq-done (update_each rt lstat options options s) _ h in
      let a = update_each-SameEnds options options o s u each in
      let same : record u { options = o } ≡ t = ground arith in
      subst (SameEnds s) same (record {
        buffer = a.buffer;
        send_buffer = a.send_buffer;
        connection = a.connection;
        file = a.file;
        filename = a.filename;
      })
