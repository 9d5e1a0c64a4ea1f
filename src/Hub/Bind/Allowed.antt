-- ===== src/Hub/Bind/Allowed.antt =====
-- Which addresses `ClassifyBind` allows.
use claude_mem_lan_sync.Prelude.{
  ◌≡◌, ◌≢◌, ◌⊎◌, inl, inr, ◌↔◌, refl, Bool, true, false, [], ◌∷◌, ◌||◌, Option, none, some, Bytes,
  codes, Result, ok, is_empty, trim_space, arith, Ensures, failing, giving, given, Ensures-bind,
  Ensures-map, if-keeps,
}
use claude_mem_lan_sync.Hub.Bind.{
  BindError, not_host_port, not_address, not_address_port, NetIp, or_else, trim_brackets, bind_host,
  refuse_empty, is_localish, bindable, classify_bind,
}

-- The host whose address is bound: that of the text, or where this is blank and `allow_public` holds, the
-- wildcard.
pub data IsHost (allow_public : Bool) (host : Bytes) : Bytes → Type 0 where
  named : is_empty (trim_space host) ≡ false → IsHost allow_public host host
  wildcard :
      is_empty (trim_space host) ≡ true
      → allow_public ≡ true
      → IsHost allow_public host (codes "0.0.0.0")

or_else-eq-ok :
    {A : Type 0} {a : A} (e : BindError) (found : Option A)
    → or_else e found ≡ ok a
    → found ≡ some a
or_else-eq-ok e none h = cc
or_else-eq-ok e (some a) h = cc

refuse_empty-eq-ok : {u : Unit {0}} (bind : Bytes) → refuse_empty bind ≡ ok u → bind ≢ []
refuse_empty-eq-ok [] h = cc
refuse_empty-eq-ok (_ ∷ _) h = λ e. cc

nonempty-refuse_empty : (bind : Bytes) → bind ≢ [] → refuse_empty bind ≡ ok tt
nonempty-refuse_empty [] ne = absurd (ne refl)
nonempty-refuse_empty (_ ∷ _) ne = refl

bind_host-IsHost :
    (allow_public : Bool) (host : Bytes)
    → Ensures (IsHost allow_public host) (bind_host allow_public host)
unfolding bind_host
bind_host-IsHost allow_public host =
    if-keeps (Ensures (IsHost allow_public host)) (is_empty (trim_space host)) _ _
      (λ blank.
        if-keeps (Ensures (IsHost allow_public host)) allow_public _ _
          (λ allowed. giving (wildcard blank allowed)) (λ _. failing))
      (λ filled. giving (named filled))

IsHost-bind_host :
    {allow_public : Bool} {host host' : Bytes}
    → IsHost allow_public host host'
    → bind_host allow_public host ≡ ok host'
unfolding bind_host
IsHost-bind_host (named filled) = rw filled refl
IsHost-bind_host (wildcard blank allowed) = rw (blank, allowed) refl

module _ {Addr AddrPort Prefix : Type 0} (net : NetIp Addr AddrPort Prefix) where
  -- The networks of a home or an office: loopback, private, link-local, the shared range of carriers
  -- (100.64.0.0/10), and the unique local one (fc00::/7).
  pub data IsLocalAddress (a : Addr) : Type 0 where
    loopback : net.is_loopback a ≡ true → IsLocalAddress a
    private_range : net.is_private a ≡ true → IsLocalAddress a
    link_local : net.is_link_local_unicast a ≡ true → IsLocalAddress a
    link_local_group : net.is_link_local_multicast a ≡ true → IsLocalAddress a
    shared :
        net.contains (net.must_parse_prefix (codes "100.64.0.0/10")) a ≡ true → IsLocalAddress a
    unique_local :
        net.contains (net.must_parse_prefix (codes "fc00::/7")) a ≡ true → IsLocalAddress a

  -- What is bound for a text.
  pub record IsBound (bind : Bytes) (allow_public : Bool) (ap : AddrPort) : Type 0 where
    pub nonempty : bind ≢ []
    pub host : Bytes
    pub port : Bytes
    pub real_host : Bytes
    pub addr : Addr
    pub splits : net.split_host_port bind ≡ some (host, port)
    pub has_host : IsHost allow_public host real_host
    pub names : net.parse_addr (trim_brackets real_host) ≡ some addr
    pub binds : net.parse_addr_port (net.join_host_port (net.addr_string addr) port) ≡ some ap
    pub permitted :
        (allow_public ≡ true) ⊎ ((net.is_unspecified addr ≡ false) × IsLocalAddress addr)

  or_cases : (a b : Bool) → (a || b) ≡ true → (a ≡ true) ⊎ (b ≡ true)
  or_cases true b h = inl refl
  or_cases false b h = inr h

  is_localish-IsLocalAddress : (a : Addr) → is_localish net a ≡ true → IsLocalAddress a
  is_localish-IsLocalAddress a h = elim (or_cases _ _ h) [
    | inr e ↦ unique_local e
    | inl h1 ↦ elim (or_cases _ _ h1) [
      | inr e ↦ shared e
      | inl h2 ↦ elim (or_cases _ _ h2) [
        | inr e ↦ link_local_group e
        | inl h3 ↦ elim (or_cases _ _ h3) [
          | inr e ↦ link_local e
          | inl h4 ↦ elim (or_cases _ _ h4) [ inl e ↦ loopback e | inr e ↦ private_range e ]
        ]
      ]
    ]
  ]

  IsLocalAddress-is_localish : (a : Addr) → IsLocalAddress a → is_localish net a ≡ true
  IsLocalAddress-is_localish a (loopback e) = ground arith
  IsLocalAddress-is_localish a (private_range e) = ground arith
  IsLocalAddress-is_localish a (link_local e) = ground arith
  IsLocalAddress-is_localish a (link_local_group e) = ground arith
  IsLocalAddress-is_localish a (shared e) = ground arith
  IsLocalAddress-is_localish a (unique_local e) = ground arith

  abbrev IsPermitted : Bool → Addr → Type 0
  IsPermitted allow_public addr =
      (allow_public ≡ true) ⊎ ((net.is_unspecified addr ≡ false) × IsLocalAddress addr)

  bindable-IsPermitted :
      (allow_public : Bool) (addr : Addr) (ap : AddrPort)
      → Ensures
          (λ ap'. (ap' ≡ ap) × IsPermitted allow_public addr)
          (bindable net allow_public addr ap)
  unfolding bindable
  bindable-IsPermitted allow_public addr ap =
      let P : Result BindError AddrPort → Type 0 =
        Ensures (λ ap'. (ap' ≡ ap) × IsPermitted allow_public addr) in
      if-keeps P allow_public _ _ (λ allowed. giving (refl, inl allowed))
        λ _.
          if-keeps P (net.is_unspecified addr) _ _ (λ _. failing)
            λ specified.
              if-keeps P (is_localish net addr) _ _
                (λ local. giving (refl, inr (specified, is_localish-IsLocalAddress addr local)))
                (λ _. failing)

  IsPermitted-bindable :
      (allow_public : Bool) (addr : Addr) (ap : AddrPort)
      → IsPermitted allow_public addr
      → bindable net allow_public addr ap ≡ ok ap
  unfolding bindable
  IsPermitted-bindable allow_public addr ap (inl allowed) = rw allowed refl
  IsPermitted-bindable true addr ap (inr (specified, local)) = refl
  IsPermitted-bindable false addr ap (inr (specified, local)) =
      rw (specified, IsLocalAddress-is_localish addr local) refl

  classify_bind-IsBound :
      (bind : Bytes) (allow_public : Bool)
      → Ensures (IsBound bind allow_public) (classify_bind net bind allow_public)
  unfolding classify_bind
  classify_bind-IsBound bind allow_public = Ensures-bind (refuse_empty bind) λ _ filled.
      Ensures-bind (or_else not_host_port (net.split_host_port bind)) λ (host, port) split.
        Ensures-bind (bind_host allow_public host) λ host' named'.
          Ensures-bind (or_else not_address (net.parse_addr (trim_brackets host'))) λ addr parsed.
            Ensures-bind
              (or_else not_address_port
                (net.parse_addr_port (net.join_host_port (net.addr_string addr) port)))
              λ ap joined.
                Ensures-map
                  (λ ap' (same, permitted). record {
                    nonempty = refuse_empty-eq-ok bind filled;
                    host = host;
                    port = port;
                    real_host = host';
                    addr = addr;
                    splits = or_else-eq-ok not_host_port (net.split_host_port bind) split;
                    has_host = given host' (bind_host-IsHost allow_public host) named';
                    names = or_else-eq-ok not_address (net.parse_addr (trim_brackets host')) parsed;
                    binds = rw same (
                        or_else-eq-ok not_address_port
                          (net.parse_addr_port (net.join_host_port (net.addr_string addr) port))
                          joined);
                    permitted = permitted;
                  })
                  (bindable-IsPermitted allow_public addr ap)

  IsBound-classify_bind :
      (bind : Bytes) (allow_public : Bool) (ap : AddrPort)
      → IsBound bind allow_public ap
      → classify_bind net bind allow_public ≡ ok ap
  unfolding classify_bind
  IsBound-classify_bind bind allow_public ap b =
      rw
        (
          nonempty-refuse_empty bind b.nonempty,
          b.splits,
          IsHost-bind_host b.has_host,
          b.names,
          b.binds,
        )
        (IsPermitted-bindable allow_public b.addr ap b.permitted)

  -- `ClassifyBind` returns an address if and only if the text is not empty and has a host and a port, the
  -- host is an address, or is blank where `allowPublic` holds, the address with the port is the result,
  -- and `allowPublic` holds or the address is no wildcard and is in one of six local ranges. So every
  -- other text is refused.
  pub classify_bind_iff :
      (bind : Bytes) (allow_public : Bool) (ap : AddrPort)
      → (classify_bind net bind allow_public ≡ ok ap) ↔ IsBound bind allow_public ap
  classify_bind_iff bind allow_public ap = (
    given ap (classify_bind-IsBound bind allow_public),
    IsBound-classify_bind bind allow_public ap,
  )
