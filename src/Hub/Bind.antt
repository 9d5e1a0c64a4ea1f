-- ===== src/Hub/Bind.antt =====
-- internal/hub/bind.go: which addresses the hub listens on, and which peers it serves.
pub mod Allowed
use claude_mem_lan_sync.Prelude.{
  is_empty, trim_space, ℕ, ◌≡◌, refl, Bool, true, false, ◌&&◌, ◌||◌, List, [], ◌∷◌, Option, none,
  some, if◌then◌else◌, ◌==◌, Bytes, codes, Result, ok, err, ◌>>=◌, ◌>>◌, >>=-eq-ok, arith,
}

pub data BindError : Type 0 where
  empty_bind not_host_port public_bind not_address not_address_port : BindError

-- What the code calls of net and net/netip.
pub record NetIp (Addr AddrPort Prefix : Type 0) : Type 0 where
  pub split_host_port : Bytes → Option (Bytes × Bytes)
  pub join_host_port : Bytes → Bytes → Bytes
  pub parse_addr : Bytes → Option Addr
  pub addr_string : Addr → Bytes
  pub parse_addr_port : Bytes → Option AddrPort
  pub must_parse_prefix : Bytes → Prefix
  pub contains : Prefix → Addr → Bool
  pub unmap : Addr → Addr
  pub is_unspecified : Addr → Bool
  pub is_loopback : Addr → Bool
  pub is_private : Addr → Bool
  pub is_link_local_unicast : Addr → Bool
  pub is_link_local_multicast : Addr → Bool

abbrev pub or_else : {A : Type 0} → BindError → Option A → Result BindError A
or_else e none = err e
or_else e (some a) = ok a

-- `strings.Trim(host, "[]")`
abbrev is_bracket : ℕ → Bool
is_bracket c = c == b'[' || c == b']'

unfoldable pub trim_left_brackets : Bytes → Bytes
trim_left_brackets [] = []
trim_left_brackets (c ∷ s) = let rest = trim_left_brackets s in if is_bracket c then rest else c ∷ s

unfoldable pub trim_right_brackets : Bytes → Bytes
trim_right_brackets [] = []
trim_right_brackets (c ∷ s) =
    let rest = trim_right_brackets s in if is_bracket c && is_empty rest then [] else c ∷ rest

abbrev pub trim_brackets : Bytes → Bytes
trim_brackets s = trim_right_brackets (trim_left_brackets s)

-- A host that is empty is the wildcard, which only `allowPublic` permits.
unfoldable pub bind_host : Bool → Bytes → Result BindError Bytes
bind_host allow_public host =
    if is_empty (trim_space host)
    then if allow_public then ok (codes "0.0.0.0") else err public_bind
    else ok host

abbrev pub refuse_empty : Bytes → Result BindError (Unit {0})
refuse_empty [] = err empty_bind
refuse_empty (_ ∷ _) = ok tt

module _ {Addr AddrPort Prefix : Type 0} (net : NetIp Addr AddrPort Prefix) where
  abbrev pub is_localish : Addr → Bool
  is_localish a =
      net.is_loopback a
      || net.is_private a
      || net.is_link_local_unicast a
      || net.is_link_local_multicast a
      || net.contains (net.must_parse_prefix (codes "100.64.0.0/10")) a
      || net.contains (net.must_parse_prefix (codes "fc00::/7")) a

  -- The last tests: what may be bound without `allowPublic`.
  unfoldable pub bindable : Bool → Addr → AddrPort → Result BindError AddrPort
  bindable allow_public addr ap =
      if allow_public
      then ok ap
      else if net.is_unspecified addr
      then err public_bind
      else if is_localish addr
      then ok ap
      else err public_bind

  -- `ClassifyBind`
  unfoldable pub classify_bind : Bytes → Bool → Result BindError AddrPort
  classify_bind bind allow_public = do
    refuse_empty bind
    (host, port) ← or_else not_host_port (net.split_host_port bind)
    host' ← bind_host allow_public host
    addr ← or_else not_address (net.parse_addr (trim_brackets host'))
    ap ←
        or_else not_address_port
          (net.parse_addr_port (net.join_host_port (net.addr_string addr) port))
    bindable allow_public addr ap

  unfoldable pub any_contains : List Prefix → Addr → Bool
  any_contains [] a = false
  any_contains (p ∷ ps) a = if net.contains p a then true else any_contains ps a

  -- `AllowCIDR`, on what `addrOf` makes of a remote address.
  unfoldable pub allow_cidr : List Prefix → Option Addr → Bool
  allow_cidr prefixes none = false
  allow_cidr prefixes (some a) = any_contains prefixes (net.unmap a)
