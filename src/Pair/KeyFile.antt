-- ===== src/Pair/KeyFile.antt =====
-- What the key file holds after `LoadOrCreate` and `Rotate`.
use claude_mem_lan_sync.Prelude.{
  is_empty, trim_space, trim_left, trim_right, is_space, ◌≡◌, ◌⊎◌, refl, subst, false, [], ◌∷◌,
  arith, Bytes, ok, inl, inr, All, Option, none, some,
}
use claude_mem_lan_sync.Pair.Keys.{Host, Dir, Keys, load_or_create, keys_of, rotate, key_line}

-- A text such as base64url: not empty, and without spaces.
abbrev pub IsToken : Bytes → Type 0
IsToken s = (is_empty s ≡ false) × All (λ c. is_space c ≡ false) s

trim_right-key_line : (s : Bytes) → All (λ c. is_space c ≡ false) s → trim_right (key_line s) ≡ s
unfolding trim_right
trim_right-key_line [] _ = refl
trim_right-key_line (c ∷ s) (h, hs) = rw (trim_right-key_line s hs, h) refl

trim_left-key_line : (s : Bytes) → IsToken s → trim_left (key_line s) ≡ key_line s
unfolding trim_left
trim_left-key_line [] (h, _) = cc
trim_left-key_line (c ∷ s) (_, (h, _)) = rw h refl

trim_space-key_line : (s : Bytes) → IsToken s → trim_space (key_line s) ≡ s
trim_space-key_line s h = rw (trim_left-key_line s h) (trim_right-key_line s h.1)

-- The file of the directory holds the key.
abbrev pub HasKey : Dir → Keys → Type 0
HasKey d k = (content : Bytes) × (d.key ≡ some content) × (trim_space content ≡ k.psk)

-- A call that found or wrote a key leaves it in the file.
keys_of-HasKey :
    (host : Host) (d d' : Dir) (file : Option Bytes) {k : Keys}
    → IsToken host.secret
    → d.key ≡ file
    → keys_of host d file ≡ (d', ok k)
    → HasKey d' k
unfolding keys_of
keys_of-HasKey host d d' none {k} token at h =
    let (wrote, same) : (d' ≡ record d { key = some (key_line host.secret) })
        × (k.psk ≡ host.secret) =
      ground arith in
    (key_line host.secret, cc, cc (trim_space-key_line host.secret token))
keys_of-HasKey host d d' (some content) {k} token at h =
    let (kept, same) : (d' ≡ d) × (k.psk ≡ trim_space content) = ground arith in (content, cc, cc)

pub load_or_create-HasKey :
    (host : Host) (d d' : Dir) {k : Keys}
    → IsToken host.secret
    → load_or_create host d ≡ (d', ok k)
    → HasKey d' k
unfolding load_or_create
load_or_create-HasKey host d d' token h = keys_of-HasKey host d d' d.key token refl (ground arith)

rotate-HasKey :
    (host : Host) (d d' : Dir) {k : Keys}
    → IsToken host.secret
    → rotate host d ≡ (d', ok k)
    → HasKey d' k
unfolding rotate
rotate-HasKey host d d' {k} token h =
    let (wrote, same) : (d' ≡ record d { key = some (key_line host.secret) })
        × (k.psk ≡ host.secret) =
      ground arith in
    (key_line host.secret, cc, cc (trim_space-key_line host.secret token))

keys_of-same :
    (host : Host) (d d' : Dir) (content : Bytes) {k : Keys}
    → keys_of host d (some content) ≡ (d', ok k)
    → (d' ≡ d) × (k.psk ≡ trim_space content)
unfolding keys_of
keys_of-same host d d' content h = ground arith

-- A key that is in the file is the one that a later call returns.
load_or_create-same :
    (host : Host) (d d' : Dir) {k k' : Keys}
    → HasKey d k
    → load_or_create host d ≡ (d', ok k')
    → (d' ≡ d) × (k'.psk ≡ k.psk)
unfolding load_or_create
load_or_create-same host d d' {k} {k'} (content, at, same) h =
    let found : keys_of host d (some content) ≡ (d', ok k') =
      let read : keys_of host d d.key ≡ (d', ok k') = ground arith in
      subst (λ file. keys_of host d file ≡ (d', ok k')) at read in
    let (kept, read) = keys_of-same host d d' content found in (kept, cc)

-- If the key that `LoadOrCreate` or `Rotate` draws is a base64url text, every later `LoadOrCreate` of
-- that directory that succeeds returns the key that the call returned, and changes nothing.
pub load_or_create-load_or_create :
    (host host' : Host) (d d' d'' : Dir) (k k' : Keys)
    → IsToken host.secret
    → (load_or_create host d ≡ (d', ok k)) ⊎ (rotate host d ≡ (d', ok k))
    → load_or_create host' d' ≡ (d'', ok k')
    → (d'' ≡ d') × (k'.psk ≡ k.psk)
load_or_create-load_or_create host host' d d' d'' k k' token (inl h) again =
    load_or_create-same host' d' d'' (load_or_create-HasKey host d d' token h) again
load_or_create-load_or_create host host' d d' d'' k k' token (inr h) again =
    load_or_create-same host' d' d'' (rotate-HasKey host d d' token h) again
