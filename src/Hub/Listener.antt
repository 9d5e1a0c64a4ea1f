-- ===== src/Hub/Listener.antt =====
-- `filteredListener` of internal/hub/bind.go: only allowed peers are served.
use claude_mem_lan_sync.Prelude.{
  ◌≡◌, refl, ap, Bool, true, false, List, [], ◌∷◌, ◌++◌, map, Option, none, some, if◌then◌else◌,
  All, arith, Bool-cases, inl, inr,
}

-- What `Accept` returns: the connections dropped and closed before, the connection (none for an error),
-- and the connections to come.
pub record Accepted (Conn : Type 0) : Type 0 where
  pub dropped : List Conn
  pub got : Option Conn
  pub later : List (Option Conn)

abbrev pub drop_first : {Conn : Type 0} → Conn → Option (Accepted Conn) → Option (Accepted Conn)
drop_first c none = none
drop_first c (some a) = some (record a { dropped = c ∷ a.dropped })

module _ {Conn : Type 0} (allow : Conn → Bool) where
  -- `Accept`, on what the listener below gives in turn: a connection, or an error. It does not return
  -- while there is nothing to give.
  unfoldable pub accept : List (Option Conn) → Option (Accepted Conn)
  accept [] = none
  accept (none ∷ incoming) = some (record { dropped = []; got = none; later = incoming })
  accept (some c ∷ incoming) =
      let rest = accept incoming in
      if allow c
      then some (record { dropped = []; got = some c; later = incoming })
      else drop_first c rest

  abbrev pub IsServed : Option Conn → Type 0
  IsServed none = Unit
  IsServed (some c) = allow c ≡ true

  drop_first-eq-some :
      (c : Conn) (o : Option (Accepted Conn)) {a : Accepted Conn}
      → drop_first c o ≡ some a
      → (b : Accepted Conn) × (o ≡ some b) × (a ≡ record b { dropped = c ∷ b.dropped })
  drop_first-eq-some c none h = cc
  drop_first-eq-some c (some b) h = (b, refl, cc)

  -- `Accept` takes the connections in order: those it drops are not allowed, the one it returns is, and
  -- the others are left for later.
  pub accept-IsServed :
      (incoming : List (Option Conn)) (a : Accepted Conn)
      → accept incoming ≡ some a
      → (incoming ≡ map some a.dropped ++ a.got ∷ a.later)
        × All (λ c. allow c ≡ false) a.dropped
        × IsServed a.got
  unfolding accept
  accept-IsServed [] a h = cc
  accept-IsServed (none ∷ incoming) a h =
      let same : a ≡ record { dropped = []; got = none; later = incoming } = cc in
      rw same (refl, tt, tt)
  accept-IsServed (some c ∷ incoming) a h = elim (Bool-cases (allow c)) [
    | inl e ↦
        let same : a ≡ record { dropped = []; got = some c; later = incoming } = ground arith in
        rw same (refl, tt, e)
    | inr e ↦
        let (b, from, same) = drop_first-eq-some c (accept incoming) {a = a} (ground arith) in
        let (order, refused, served) = accept-IsServed incoming b from in
        rw same (ap (λ xs. some c ∷ xs) order, (e, refused), served)
  ]
