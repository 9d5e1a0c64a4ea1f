-- ===== src/Hub/BindExamples.antt =====
-- A private address that may be bound, and a listener that drops a stranger.
use claude_mem_lan_sync.Prelude.{
  trim_left, trim_right, ℕ, ◌≡◌, refl, Bool, false, List, [], ◌∷◌, ◌++◌, Option, none, some, Bytes,
  codes, ok, ◌↔◌, ◌==◌, bytes_eq,
}
use claude_mem_lan_sync.Hub.Bind.{
  NetIp, bind_host, bindable, classify_bind, trim_left_brackets, trim_right_brackets,
}
use claude_mem_lan_sync.Hub.Bind.Allowed.{IsBound, classify_bind_iff}
use claude_mem_lan_sync.Hub.Listener.{Accepted, accept}

-- Texts for addresses: one of them is private.
abbrev texts : NetIp Bytes Bytes Bytes
texts = record {
  split_host_port = λ s. some (codes "10.0.0.1", codes "8787");
  join_host_port = λ host port. host ++ b':' ∷ port;
  parse_addr = λ s. some s;
  addr_string = λ a. a;
  parse_addr_port = λ s. some s;
  must_parse_prefix = λ s. s;
  contains = λ p a. false;
  unmap = λ a. a;
  is_unspecified = λ a. false;
  is_loopback = λ a. false;
  is_private = bytes_eq (codes "10.0.0.1");
  is_link_local_unicast = λ a. false;
  is_link_local_multicast = λ a. false;
}

classify_bind_iff_example :
    (classify_bind texts (codes "10.0.0.1:8787") false ≡ ok (codes "10.0.0.1:8787"))
    ↔ IsBound texts (codes "10.0.0.1:8787") false (codes "10.0.0.1:8787")
classify_bind_iff_example =
    classify_bind_iff texts (codes "10.0.0.1:8787") false (codes "10.0.0.1:8787")

-- The address is returned.
classify_bind_private :
    classify_bind texts (codes "10.0.0.1:8787") false ≡ ok (codes "10.0.0.1:8787")
unfolding classify_bind bind_host bindable trim_left trim_right trim_left_brackets
    trim_right_brackets bytes_eq
classify_bind_private = refl

abbrev is_three : ℕ → Bool
is_three n = n == 3

abbrev incoming : List (Option ℕ)
incoming = some 1 ∷ some 3 ∷ none ∷ []

abbrev accepted : Accepted ℕ
accepted = record { dropped = 1 ∷ []; got = some 3; later = none ∷ [] }

accept_drops : accept is_three incoming ≡ some accepted
unfolding accept
accept_drops = refl
