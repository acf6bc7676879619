-- ===== src/CommandLine/Target.antt =====
-- What a download of the client is from: `host/file`.
use mathlib.Core.Logic.{◌↔◌}
use tftpcpd.Base.{
  ℕ, Bytes, Bool, true, false, List, [], ◌∷◌, ◌++◌, ◌≡◌, ◌≢◌, refl, sym, ap, subst, ◌∙◌, arith,
  lacks, equal, equal_iff, ◌==◌, ==_iff, if◌then◌else◌, All,
}
use tftpcpd.CommandLine.{
  Config, Parsed, exits, configured, prepend, split, ClientFlags, download_target, client_arguments,
  client_process_flags,
}

-- A text without a separator is one piece.
split_one : (s : Bytes) → lacks b'/' s ≡ true → split s ≡ s ∷ []
unfolding lacks
split_one [] h = refl
split_one (c ∷ cs) h = ground (arith, split_one cs)

split_two :
    (host file : Bytes)
    → lacks b'/' host ≡ true
    → lacks b'/' file ≡ true
    → split (host ++ (b'/' ∷ file)) ≡ host ∷ file ∷ []
unfolding lacks
split_two [] file h k = ap (λ l. [] ∷ l) (split_one file k)
split_two (c ∷ cs) file h k = ground (arith, split_two cs file)

-- The pieces with a separator between any two.
abbrev join : List Bytes → Bytes
join [] = []
join (p ∷ []) = p
join (p ∷ q ∷ l) = p ++ (b'/' ∷ join (q ∷ l))

join-prepend : (c : ℕ) (l : List Bytes) → join (prepend c l) ≡ c ∷ join l
join-prepend c [] = refl
join-prepend c (p ∷ []) = refl
join-prepend c (p ∷ q ∷ l) = refl

prepend-not_empty : (c : ℕ) (l : List Bytes) → prepend c l ≢ []
prepend-not_empty c [] h = ground arith
prepend-not_empty c (p ∷ l) h = ground arith

split-not_empty : (s : Bytes) → split s ≢ []
split-not_empty [] h = ground arith
split-not_empty (c ∷ cs) h = go (c == b'/') h
  where
    go : (b : Bool) → (if b then [] ∷ split cs else prepend c (split cs)) ≢ []
    go true h = ground arith
    go false h = prepend-not_empty c (split cs) h

join-split : (s : Bytes) → join (split s) ≡ s
join-split [] = refl
join-split (c ∷ cs) = go (c == b'/') refl (split-not_empty cs) (join-split cs)
  where
    slash : (l : List Bytes) → l ≢ [] → join ([] ∷ l) ≡ b'/' ∷ join l
    slash [] h = absurd (h refl)
    slash (p ∷ l) h = refl

    go :
        (b : Bool)
        → (c == b'/') ≡ b
        → split cs ≢ []
        → join (split cs) ≡ cs
        → join (if b then [] ∷ split cs else prepend c (split cs)) ≡ c ∷ cs
    go true e n h =
        slash (split cs) n ∙ ap (λ l. b'/' ∷ l) h ∙ ap (λ x. x ∷ cs) (sym ((==_iff c b'/').0 e))
    go false e n h = join-prepend c (split cs) ∙ ap (λ l. c ∷ l) h

abbrev Lacking : Bytes → Type 0
Lacking p = lacks b'/' p ≡ true

split-Lacking : (s : Bytes) → All Lacking (split s)
unfolding lacks
split-Lacking [] = (refl, tt)
split-Lacking (c ∷ cs) = go (c == b'/') refl (split cs) (split-Lacking cs)
  where
    go :
        (b : Bool)
        → (c == b'/') ≡ b
        → (l : List Bytes) → All Lacking l
        → All Lacking (if b then [] ∷ l else prepend c l)
    go true e l h = (refl, h)
    go false e [] h = (ground arith, tt)
    go false e (p ∷ l) h = (rw e (h.0), h.1)

address_of : Parsed → Bytes
address_of (exits code e) = []
address_of (configured c logged) = c.address

filename_of : Parsed → Bytes
filename_of (exits code e) = []
filename_of (configured c logged) = c.filename

-- The two pieces of what was split.
download_target-of :
    (arg : Bytes) (cfg c : Config) (l : List Bytes)
    → split arg ≡ l
    → download_target l cfg ≡ configured c []
    → (arg ≡ c.address ++ (b'/' ∷ c.filename)) × Lacking c.address × Lacking c.filename
unfolding address_of filename_of
download_target-of arg cfg c [] e h = absurd (ground arith)
download_target-of arg cfg c (p ∷ []) e h = absurd (ground arith)
download_target-of arg cfg c (p ∷ q ∷ r ∷ l) e h = absurd (ground arith)
download_target-of arg cfg c (p ∷ q ∷ []) e h =
    let host = ap address_of h in
    let file = ap filename_of h in
    let lacking = subst (All Lacking) e (split-Lacking arg) in
    (
      sym (join-split arg)
          ∙ ap join e
          ∙ ap (λ x. x ++ (b'/' ∷ q)) host
          ∙ ap (λ x. c.address ++ (b'/' ∷ x)) file,
      subst Lacking host lacking.0,
      subst Lacking file lacking.1.0,
    )

module _ (cfg : Config) (address filename : Bytes) (w : equal cfg.write [] ≡ true) where
  abbrev aimed : Config
  aimed = record cfg { address = address; filename = filename }

  arguments-download :
      (args : List Bytes)
      → client_arguments args cfg ≡ configured aimed []
      → (args ≡ (address ++ (b'/' ∷ filename)) ∷ [])
        × (lacks b'/' address ≡ true)
        × (lacks b'/' filename ≡ true)
  unfolding client_arguments
  arguments-download [] h = absurd (ground arith)
  arguments-download (x ∷ y ∷ l) h = absurd (ground arith)
  arguments-download (arg ∷ []) h =
      let (whole, host, file) = download_target-of arg cfg aimed (split arg) refl (
        subst
          (λ b.
            (if b
              then download_target (split arg) cfg
              else configured (record cfg { address = arg; filename = cfg.write }) [])
            ≡ configured aimed [])
          w h) in
      (ap (λ x. x ∷ []) whole, host, file)

  download-arguments :
      (args : List Bytes)
      → args ≡ (address ++ (b'/' ∷ filename)) ∷ []
      → lacks b'/' address ≡ true
      → lacks b'/' filename ≡ true
      → client_arguments args cfg ≡ configured aimed []
  unfolding client_arguments
  download-arguments args e h k =
      ap (λ l. client_arguments l cfg) e
      ∙ (rw w (ap (λ l. download_target l cfg) (split_two address filename h k)))

-- Without -help and -write: the client is configured for an address and a file name, and logs
-- nothing, exactly if its only argument is the address, a slash and the file name, and neither of
-- the two has a slash in it.
pub client_process_flags-Download :
    (flags : ClientFlags) (cfg : Config) (address filename : Bytes)
    → flags.help ≡ false
    → flags.write ≡ []
    → (client_process_flags flags cfg
        ≡ configured
            (record cfg {
              debug = flags.debug;
              write = flags.write;
              address = address;
              filename = filename;
            })
            [])
      ↔ ((flags.args ≡ (address ++ (b'/' ∷ filename)) ∷ [])
          × (lacks b'/' address ≡ true)
          × (lacks b'/' filename ≡ true))
unfolding client_process_flags client_arguments
client_process_flags-Download flags cfg address filename h w =
    let base : Config = record cfg { debug = flags.debug; write = flags.write } in
    let empty = (equal_iff flags.write []).1 w in
    rw h (
      (λ k. arguments-download base address filename empty flags.args k),
      (λ k. download-arguments base address filename empty flags.args k.0 k.1 k.2),
    )
