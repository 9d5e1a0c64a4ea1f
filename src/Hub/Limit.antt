-- ===== src/Hub/Limit.antt =====
-- `limitInFlight` of internal/hub/middleware.go: a buffered channel of `max_in_flight` places, which a
-- request takes without waiting or is refused.
use claude_mem_lan_sync.Prelude.{
  ℕ, suc, ◌+◌, ◌≤◌, ◌≡◌, refl, ◌==◌, ltb, if◌then◌else◌, arith, List, [], ◌∷◌, length,
}

-- The requests that hold a place, the latest first, and those refused.
pub record Gate : Type 0 where
  pub in_flight : List ℕ
  pub refused : List ℕ

-- `select`: the send on the channel goes through if it has a free place; if not, 503.
unfoldable pub arrive : ℕ → ℕ → Gate → Gate
arrive max_in_flight request g =
    if ltb (length g.in_flight) max_in_flight
    then record g { in_flight = request ∷ g.in_flight }
    else record g { refused = request ∷ g.refused }

unfoldable pub without : ℕ → List ℕ → List ℕ
without request [] = []
without request (x ∷ xs) = if x == request then xs else x ∷ without request xs

-- The deferred receive, which runs when the handler returns or panics.
unfoldable pub leave : ℕ → Gate → Gate
unfolding without
leave request g = record g { in_flight = without request g.in_flight }

pub data Member (x : ℕ) : List ℕ → Type 0 where
  head : {xs : List ℕ} → Member x (x ∷ xs)
  tail : {y : ℕ} {xs : List ℕ} → Member x xs → Member x (y ∷ xs)

-- Requests come and go in any order.
pub data Runs (max_in_flight : ℕ) : ℕ → ℕ → Gate → Type 0 where
  start : Runs max_in_flight 0 0 (record { in_flight = []; refused = [] })
  comes :
      {came left : ℕ} {g : Gate} (request : ℕ)
      → Runs max_in_flight came left g
      → Runs max_in_flight (suc came) left (arrive max_in_flight request g)
  goes :
      {came left : ℕ} {g : Gate} (request : ℕ)
      → Runs max_in_flight came left g
      → Member request g.in_flight
      → Runs max_in_flight came (suc left) (leave request g)

length-without :
    (request : ℕ) (xs : List ℕ) → Member request xs → suc (length (without request xs)) ≡ length xs
unfolding without
length-without request [] m = elim m [ ]
length-without request (x ∷ xs) head = ground arith
length-without request (x ∷ xs) (tail m) = ground (arith, length-without request xs m)

-- After any sequence of arrivals and departures at most `max_in_flight` requests are in flight, and
-- each that has come is in flight, refused or gone.
pub Runs-length :
    (max_in_flight came left : ℕ) (g : Gate)
    → Runs max_in_flight came left g
    → (length g.in_flight ≤ max_in_flight) × (came ≡ length g.in_flight + length g.refused + left)
unfolding arrive leave
Runs-length m came left g start = (omega arith, refl)
Runs-length m came left g (comes request r) = ground (arith, Runs-length m _ _ _ r)
Runs-length m came left g (goes {g = g'} request r here) =
    omega (arith, Runs-length m _ _ _ r, length-without request g'.in_flight here)
