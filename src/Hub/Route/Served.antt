-- ===== src/Hub/Route/Served.antt =====
-- What the routed and wrapped handler changes, and sequences of requests.
use claude_mem_lan_sync.Prelude.{
  ℕ, ◌≡◌, ◌≢◌, ◌⊎◌, inl, inr, refl, Bool, true, false, not, ◌&&◌, List, [], ◌∷◌, Bytes, bytes_eq,
  bytes_eq→eq, codes, Option, some, ℤ, subst, sym, if-keeps,
}
use claude_mem_lan_sync.Store.Tables.{Store, existing_seq}
use claude_mem_lan_sync.Store.Invariant.{IsSound}
use claude_mem_lan_sync.Store.Steps.{
  pushes, sees, Reach, here, next, Reach-IsSound, Grows, Reach-Grows,
}
use claude_mem_lan_sync.Pair.Keys.{Dir}
use claude_mem_lan_sync.Hub.Server.{
  Request, Response, Options, get, post, authed, no_text, has_hosts, host_allowed,
  check_host_and_origin,
}
use claude_mem_lan_sync.Hub.Access.{no_text→eq}
use claude_mem_lan_sync.Hub.Handlers.{handle_status, handle_changes}
use claude_mem_lan_sync.Hub.Push.{handle_push}
use claude_mem_lan_sync.Hub.Route.{
  State, World, with_store, with_dir, route_pair, route, serve, serve_all,
}
use claude_mem_lan_sync.Hub.Route.Authority.{
  MaySee, IsAuthorized, idle, looked, appended, looked_or_idle, appended_or_idle, authed-keeps,
  handle_status-MaySee, handle_changes-MaySee, handle_push-MayPush,
}

not-false : (b : Bool) → not b ≡ false → b ≡ true
not-false true h = refl
not-false false h = cc

Reach-trans : {s t u : Store} → Reach s t → Reach t u → Reach s u
Reach-trans r here = r
Reach-trans r (next q step) = next (Reach-trans r q) step

module _ (digest_of : Bytes → Bytes) (w : World) (o : Options) (token : Bytes) (r : Request)
    (st : State) where
  -- Only the path of the pairing has to do with its directory.
  pub record IsRouted (out : State × Response) : Type 0 where
    pub authorized : IsAuthorized digest_of w.env o token r st.store out.0.store
    pub dir : (out.0.dir ≡ st.dir) ⊎ (codes "/pair" ≡ r.path)

  untouched : (a : Response) → IsRouted (st, a)
  untouched a = record { authorized = idle refl; dir = inl refl }

  with_store-IsRouted :
      (out : Store × Response)
      → IsAuthorized digest_of w.env o token r st.store out.0
      → IsRouted (with_store st out)
  with_store-IsRouted (s, a) h = record { authorized = h; dir = inl refl }

  with_dir-IsRouted : (out : Dir × Response) → codes "/pair" ≡ r.path → IsRouted (with_dir st out)
  with_dir-IsRouted (d, a) h = record { authorized = idle refl; dir = inr h }

-- The conditions of `checkHostAndOrigin`.
pub record IsAdmitted (split_host_port : Bytes → Option Bytes) (o : Options) (r : Request)
    : Type 0 where
  pub origin : r.origin ≡ []
  pub encoding : r.content_encoding ≡ []
  pub host :
      (has_hosts o.allowed_hosts && not (host_allowed split_host_port o.allowed_hosts r.host))
      ≡ false

-- What a sequence of requests may do to the store: each request in its turn what it alone may do.
pub data IsServed (digest_of : Bytes → Bytes) (o : Options) (token : Bytes)
    : List (World × Request) → Store → Store → Type 0 where
  none_left : {s : Store} → IsServed digest_of o token [] s s
  one_served :
      {w : World} {r : Request} {requests : List (World × Request)} {s t u : Store}
      → IsAuthorized digest_of w.env o token r s t
      → IsServed digest_of o token requests t u
      → IsServed digest_of o token ((w, r) ∷ requests) s u

authorized-Reach :
    {digest_of : Bytes → Bytes} {o : Options} {token : Bytes} (w : World) (r : Request)
    {s s' : Store}
    → IsAuthorized digest_of w.env o token r s s'
    → Reach s s'
authorized-Reach w r {s} (idle same) = subst (λ x. Reach s x) (sym same) here
authorized-Reach w r (looked allowed seen) = next here (sees w.env r.device_id r.device_name seen)
authorized-Reach w r (appended ops allowed path accepted done) =
    next here (pushes w.env ops r.device_id r.device_name done)

IsServed-Reach :
    {digest_of : Bytes → Bytes} {o : Options} {token : Bytes} {requests : List (World × Request)}
    {s t : Store}
    → IsServed digest_of o token requests s t
    → Reach s t
IsServed-Reach none_left = here
IsServed-Reach (one_served {w} {r} one rest) =
    Reach-trans (authorized-Reach w r one) (IsServed-Reach rest)

module _ (quote digest_of sha256_base64 : Bytes → Bytes) (decode : Bytes → Option (ℤ × List Bytes))
    (decode_code : Bytes → Option Bytes) (split_host_port : Bytes → Option Bytes) (o : Options)
    (token : Bytes) (auth : o.auth ≡ some (record { user_id = o.user_id; token = token }))
    (ne : token ≢ []) where
  module _ (w : World) (r : Request) (st : State) where
    read-IsRouted :
        (handler : Store → Store × Response)
        → MaySee w.env r st.store (handler st.store).0
        → IsRouted digest_of w o token r st (with_store st (authed w.env o r get handler st.store))
    read-IsRouted handler sees_it = with_store-IsRouted digest_of w o token r st _ (
        authed-keeps (IsAuthorized digest_of w.env o token r st.store) w.env o token r get handler
          st.store auth ne (idle refl)
          (λ allowed. looked_or_idle digest_of w.env o token r st.store _ allowed sees_it))

    ops-IsRouted :
        codes "/v1/sync/ops" ≡ r.path
        → IsRouted digest_of w o token r st (
            with_store st (
              authed w.env o r post (handle_push quote digest_of decode w.env o w.free r) st.store))
    ops-IsRouted on_path = with_store-IsRouted digest_of w o token r st _ (
        authed-keeps (IsAuthorized digest_of w.env o token r st.store) w.env o token r post
          (handle_push quote digest_of decode w.env o w.free r) st.store auth ne (idle refl)
          (λ allowed.
            appended_or_idle digest_of w.env o token r st.store _ on_path allowed
              (handle_push-MayPush w.env o r st.store quote digest_of decode w.free)))

    route_pair-IsRouted :
        codes "/pair" ≡ r.path
        → IsRouted digest_of w o token r st
            (route_pair quote digest_of sha256_base64 decode decode_code w o r st)
    route_pair-IsRouted on_path =
        if-keeps (IsRouted digest_of w o token r st) w.pairing _ _
          (λ _. with_dir-IsRouted digest_of w o token r st _ on_path)
          (λ _. untouched digest_of w o token r st _)

    route-IsRouted :
        IsRouted digest_of w o token r st
          (route quote digest_of sha256_base64 decode decode_code w o r st)
    unfolding route
    route-IsRouted =
        if-keeps P (bytes_eq r.path (codes "/healthz")) _ _
          (λ _. untouched digest_of w o token r st _)
          λ _.
            if-keeps P (bytes_eq r.path (codes "/v1/sync/status")) _ _
              (λ _.
                read-IsRouted (handle_status w.env o r) (handle_status-MaySee w.env o r st.store))
              λ _.
                if-keeps P (bytes_eq r.path (codes "/v1/sync/ops")) _ _
                  (λ e. ops-IsRouted (sym (bytes_eq→eq r.path (codes "/v1/sync/ops") e)))
                  λ _.
                    if-keeps P (bytes_eq r.path (codes "/v1/sync/changes")) _ _
                      (λ _.
                        read-IsRouted (handle_changes quote w.env o r)
                          (handle_changes-MaySee w.env o r st.store quote))
                      λ _.
                        if-keeps P (bytes_eq r.path (codes "/pair")) _ _
                          (λ e. route_pair-IsRouted (sym (bytes_eq→eq r.path (codes "/pair") e)))
                          (λ _. untouched digest_of w o token r st _)
      where
        P : State × Response → Type 0
        P = IsRouted digest_of w o token r st

  -- If the token check is that of the hub's user, with a token that is not empty, a request does one of
  -- three things to the store: nothing; as a GET of an allowed device, the sighting of that device; or,
  -- as a POST of an allowed device to /v1/sync/ops, a push of operations that `ParseOp` accepts. The
  -- files of the pairing change for the path /pair only. A request that `checkHostAndOrigin` does not
  -- admit changes nothing.
  pub serve-IsRouted :
      (w : World) (r : Request) (st : State)
      → IsRouted digest_of w o token r st
          (serve quote digest_of sha256_base64 decode decode_code split_host_port w o r st)
        × (IsAdmitted split_host_port o r
            ⊎ ((serve quote digest_of sha256_base64 decode decode_code split_host_port w o r st).0
                ≡ st))
  unfolding serve check_host_and_origin
  serve-IsRouted w r st =
      if-keeps P (not (no_text r.origin)) _ _
        (λ _. (untouched digest_of w o token r st _, inr refl))
        λ from.
          if-keeps P (not (no_text r.content_encoding)) _ _
            (λ _. (untouched digest_of w o token r st _, inr refl))
            λ plain.
              if-keeps P
                (has_hosts o.allowed_hosts
                  && not (host_allowed split_host_port o.allowed_hosts r.host))
                _ _ (λ _. (untouched digest_of w o token r st _, inr refl))
                λ known. (
                  route-IsRouted w r st,
                  inl (record {
                    origin = no_text→eq r.origin (not-false (no_text r.origin) from);
                    encoding =
                        no_text→eq r.content_encoding
                          (not-false (no_text r.content_encoding) plain);
                    host = known;
                  }),
                )
    where
      P : State × Response → Type 0
      P out =
          IsRouted digest_of w o token r st out × (IsAdmitted split_host_port o r ⊎ (out.0 ≡ st))

  -- The store behind a sequence of requests.
  abbrev pub store_after : List (World × Request) → State → Store
  store_after requests st =
      (serve_all quote digest_of sha256_base64 decode decode_code split_host_port o requests
        st).store

  pub serve_all-IsServed :
      (requests : List (World × Request)) (st : State)
      → IsServed digest_of o token requests st.store (store_after requests st)
  unfolding serve_all
  serve_all-IsServed [] st = none_left
  serve_all-IsServed ((w, r) ∷ requests) st =
      one_served ((serve-IsRouted w r st).0.authorized) (serve_all-IsServed requests _)

  -- If the token check is that of the hub's user, with a token that is not empty, then from a sound
  -- store any sequence of requests to the hub, with any failures, ends in a sound store whose log has
  -- the rows that it had, in place and followed by more, so a revision keeps its number.
  pub serve_all-Grows :
      (requests : List (World × Request)) (st : State)
      → IsSound st.store
      → IsSound (store_after requests st)
        × Grows st.store.tables.ops (store_after requests st).tables.ops
        × ((id rev : Bytes) (seq : ℕ)
            → existing_seq st.store.tables.ops id rev ≡ some seq
            → existing_seq (store_after requests st).tables.ops id rev ≡ some seq)
  serve_all-Grows requests st h =
      let path = IsServed-Reach (serve_all-IsServed requests st) in
      let (grows, keeps) = Reach-Grows h path in (Reach-IsSound h path, grows, keeps)
