-- ===== src/Session/Options/Laws.antt =====
-- `UpdateOptions`: the ranges that it keeps, and when it panics.
use tftpcpd.Base.{
  zero, suc, ◌≤◌, Bytes, Bool, true, false, ◌||◌, [], ◌∷◌, Option, none, some, ◌≡◌, ◌≢◌, refl,
  subst, ◌⊎◌, inl, inr, arith, codes, equal, to_lower, Bool-cases,
}
use tftpcpd.Wire.{Options}
use tftpcpd.Session.State.{Session, Outcome, done, failed, panic, out_of_fuel, ◌>>=◌, Runtime}
use tftpcpd.Session.SendLoop.Heard.{>>=-eq-done}
use tftpcpd.Session.Number.{ℤ, pos, negsuc, parse_int}
use tftpcpd.Session.Options.{
  outside, set_block_size, set_timeout, set_transfer_size, find_size, set_size, apply_option, Lstat,
  update_option, update_each, update_options,
}

-- The ranges of the negotiated values.
pub record IsNegotiated (s : Session) : Type 0 where
  pub size_low : 8 ≤ s.block_size
  pub size_high : s.block_size ≤ 65464
  pub timeout_low : 1 ≤ s.timeout
  pub timeout_high : s.timeout ≤ 255

module _ (lstat : Lstat) where
  set_block_size-IsNegotiated :
      (v : Bytes) (n : ℤ) (o p : Options) (s t : Session)
      → IsNegotiated s
      → set_block_size v n o s ≡ done p t
      → IsNegotiated t
  unfolding set_block_size outside
  set_block_size-IsNegotiated v (pos n) o p s t i h = ground arith
  set_block_size-IsNegotiated v (negsuc n) o p s t i h = ground arith

  set_timeout-IsNegotiated :
      (v : Bytes) (n : ℤ) (o p : Options) (s t : Session)
      → IsNegotiated s
      → set_timeout v n o s ≡ done p t
      → IsNegotiated t
  unfolding set_timeout outside
  set_timeout-IsNegotiated v (pos n) o p s t i h = ground arith
  set_timeout-IsNegotiated v (negsuc n) o p s t i h = ground arith

  set_transfer_size-IsNegotiated :
      (n : ℤ) (o p : Options) (s t : Session)
      → IsNegotiated s
      → set_transfer_size n o s ≡ done p t
      → IsNegotiated t
  unfolding set_transfer_size
  set_transfer_size-IsNegotiated n o p s t i h = ground arith

  find_size-IsNegotiated :
      (o p : Options) (s t : Session)
      → IsNegotiated s
      → find_size lstat o s ≡ done p t
      → IsNegotiated t
  unfolding find_size set_transfer_size
  find_size-IsNegotiated o p s t i h = ground arith

  set_size-IsNegotiated :
      (n : ℤ) (o p : Options) (s t : Session)
      → IsNegotiated s
      → set_size lstat n o s ≡ done p t
      → IsNegotiated t
  unfolding set_size
  set_size-IsNegotiated (pos zero) o p s t i h = find_size-IsNegotiated o p s t i h
  set_size-IsNegotiated (pos (suc n)) o p s t i h =
      set_transfer_size-IsNegotiated (pos (suc n)) o p s t i h
  set_size-IsNegotiated (negsuc n) o p s t i h =
      set_transfer_size-IsNegotiated (negsuc n) o p s t i h

  apply_option-IsNegotiated :
      (k v : Bytes) (n : ℤ) (o p : Options) (s t : Session)
      → IsNegotiated s
      → apply_option lstat k v n o s ≡ done p t
      → IsNegotiated t
  unfolding apply_option
  apply_option-IsNegotiated k v n o p s t i h = elim (Bool-cases (equal k (codes "blksize"))) [
    | inl a ↦ set_block_size-IsNegotiated v n o p s t i (rw a at h)
    | inr a ↦ elim (Bool-cases (equal k (codes "timeout"))) [
      | inl b ↦ set_timeout-IsNegotiated v n o p s t i (rw (a, b) at h)
      | inr b ↦ elim (Bool-cases (equal k (codes "tsize"))) [
        | inl c ↦ set_size-IsNegotiated n o p s t i (rw (a, b, c) at h)
        | inr c ↦ let same : s ≡ t = ground arith in subst IsNegotiated same i
      ]
    ]
  ]

  -- No option with a value that parsed makes `UpdateOptions` panic.
  apply_option-ne-panic :
      (k v : Bytes) (n : ℤ) (o : Options) (s : Session) → apply_option lstat k v n o s ≢ panic
  unfolding apply_option set_block_size set_timeout set_size find_size set_transfer_size outside
  apply_option-ne-panic k v (pos zero) o s = ground arith
  apply_option-ne-panic k v (pos (suc n)) o s = ground arith
  apply_option-ne-panic k v (negsuc n) o s = ground arith

or_true : (b : Bool) → b || true ≡ true
or_true true = refl
or_true false = refl

>>=-eq-panic :
    {A B : Type 0} (o : Outcome A) (f : A → Session → Outcome B)
    → (o >>= f) ≡ panic
    → (o ≡ panic) ⊎ ((a : A) × (s : Session) × (f a s ≡ panic))
>>=-eq-panic (done a s) f h = inr (a, s, h)
>>=-eq-panic (failed e s) f h = absurd (ground arith)
>>=-eq-panic panic f h = inl refl
>>=-eq-panic out_of_fuel f h = absurd (ground arith)

abbrev pub is_unparsed : Option ℤ → Bool
is_unparsed none = true
is_unparsed (some n) = false

-- Some option of the list has a value that is no decimal int64.
unfoldable pub unparsed : Options → Bool
unparsed [] = false
unparsed ((k, v) ∷ o) = is_unparsed (parse_int v) || unparsed o

module _ (rt : Runtime) (lstat : Lstat) where
  update_option-IsNegotiated :
      (k v : Bytes) (o p : Options) (s t : Session)
      → IsNegotiated s
      → update_option rt lstat k v o s ≡ done p t
      → IsNegotiated t
  unfolding update_option
  update_option-IsNegotiated k v o p s t i h = go (parse_int v) h
    where
      go :
          (r : Option ℤ)
          → elim r [ none ↦ panic | some n ↦ apply_option lstat (to_lower rt.map_lower k) v n o s ]
            ≡ done p t
          → IsNegotiated t
      go none e = absurd (ground arith)
      go (some n) e = apply_option-IsNegotiated lstat (to_lower rt.map_lower k) v n o p s t i e

  update_each-IsNegotiated :
      (later o p : Options) (s t : Session)
      → IsNegotiated s
      → update_each rt lstat later o s ≡ done p t
      → IsNegotiated t
  unfolding update_each
  update_each-IsNegotiated [] o p s t i h =
      let same : s ≡ t = ground arith in subst IsNegotiated same i
  update_each-IsNegotiated ((k, v) ∷ later) o p s t i h =
      let (q, u, first, rest) = >>=-eq-done (update_option rt lstat k v o s) _ h in
      update_each-IsNegotiated later q p u t (update_option-IsNegotiated k v o q s u i first) rest

  -- Whatever options a peer asks for: where `UpdateOptions` returns no error, the block size stays
  -- between 8 and 65464 bytes and the timeout between 1 and 255 seconds, if they were so before.
  pub update_options-IsNegotiated :
      (options : Options) (s t : Session)
      → IsNegotiated s
      → update_options rt lstat options s ≡ done tt t
      → IsNegotiated t
  unfolding update_options
  update_options-IsNegotiated options s t i h =
      let (o, u, each, rest) = >>=-eq-done (update_each rt lstat options options s) _ h in
      let j = update_each-IsNegotiated options options o s u i each in
      let same : record u { options = o } ≡ t = ground arith in
      subst IsNegotiated same (record {
        size_low = j.size_low;
        size_high = j.size_high;
        timeout_low = j.timeout_low;
        timeout_high = j.timeout_high;
      })

  option_panic :
      (k v : Bytes) (o : Options) (s : Session) (r : Option ℤ)
      → elim r [ none ↦ panic | some n ↦ apply_option lstat (to_lower rt.map_lower k) v n o s ]
        ≡ panic
      → is_unparsed r ≡ true
  option_panic k v o s none h = refl
  option_panic k v o s (some n) h =
      absurd (apply_option-ne-panic lstat (to_lower rt.map_lower k) v n o s h)

  option_done :
      (k v : Bytes) (o p : Options) (s t : Session) (r : Option ℤ)
      → elim r [ none ↦ panic | some n ↦ apply_option lstat (to_lower rt.map_lower k) v n o s ]
        ≡ done p t
      → is_unparsed r ≡ false
  option_done k v o p s t none h = absurd (ground arith)
  option_done k v o p s t (some n) h = refl

  update_each-panic :
      (later o : Options) (s : Session)
      → update_each rt lstat later o s ≡ panic
      → unparsed later ≡ true
  unfolding update_each unparsed
  update_each-panic [] o s h = absurd (ground arith)
  update_each-panic ((k, v) ∷ later) o s h =
      elim (>>=-eq-panic (update_option rt lstat k v o s) _ h) [
        | inl e ↦ rw (option_panic k v o s (parse_int v) (unfold update_option in e))
        | inr (p, t, e) ↦ rw (update_each-panic later p t e) (or_true (is_unparsed (parse_int v)))
      ]

  update_each-done :
      (later o p : Options) (s t : Session)
      → update_each rt lstat later o s ≡ done p t
      → unparsed later ≡ false
  unfolding update_each unparsed
  update_each-done [] o p s t h = refl
  update_each-done ((k, v) ∷ later) o p s t h =
      let (q, u, first, rest) = >>=-eq-done (update_option rt lstat k v o s) _ h in
      rw (
        option_done k v o q s u (parse_int v) (unfold update_option in first),
        update_each-done later q p u t rest,
      )

  -- `UpdateOptions` panics only if some option's value is no decimal 64-bit integer, whatever its
  -- key.
  pub update_options-panic :
      (options : Options) (s : Session)
      → update_options rt lstat options s ≡ panic
      → unparsed options ≡ true
  unfolding update_options
  update_options-panic options s h =
      elim (>>=-eq-panic (update_each rt lstat options options s) _ h) [
        | inl e ↦ update_each-panic options options s e
        | inr (o, t, e) ↦ absurd (ground arith)
      ]

  -- Where some option's value is no decimal 64-bit integer, whatever its key, `UpdateOptions` does
  -- not return without error.
  pub update_options-unparsed :
      (options : Options) (s t : Session)
      → unparsed options ≡ true
      → update_options rt lstat options s ≢ done tt t
  unfolding update_options
  update_options-unparsed options s t bad h =
      let (o, u, each, rest) = >>=-eq-done (update_each rt lstat options options s) _ h in
      let fine = update_each-done options options o s u each in ground arith
