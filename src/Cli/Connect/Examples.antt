-- ===== src/Cli/Connect/Examples.antt =====
-- Runs of `connect`.
use claude_mem_lan_sync.Prelude.{
  ◌≡◌, refl, ap, sym, ◌∙◌, Bool, true, false, ◌&&◌, List, [], ◌∷◌, ◌++◌, Option, none, some,
  if◌then◌else◌, Bytes, bytes_eq, bytes_eq→eq, codes, arith, All, Bool-cases, inl, inr,
}
use claude_mem_lan_sync.Proto.Json.{unmarshal_string}
use claude_mem_lan_sync.Proto.Unquote.{unquote_json_string, unquote_loop, piece}
use claude_mem_lan_sync.Proto.Fields.{Fields, field}
use claude_mem_lan_sync.Prelude.{trim_left, trim_right}
use claude_mem_lan_sync.Pair.Keys.{fingerprint}
use claude_mem_lan_sync.Settings.{SettingsDir, update, prepared, merge, put, write_temp, value}
use claude_mem_lan_sync.Settings.Merge.{IsReadBack}
use claude_mem_lan_sync.Settings.Update.{IsFaithful}
use claude_mem_lan_sync.Cli.Connect.{
  ConnectFlags, Surroundings, ConnectOutcome, key_hub_url, key_token, key_user_id, key_device_name,
  key_ws, trim_slashes, redeem_at, updates, write_settings, configure, connect_to, run_connect,
}
use claude_mem_lan_sync.Cli.Connect.Checks.{IsConnected, run_connect-IsConnected}
use claude_mem_lan_sync.Cli.Connect.Effect.{key_device_id, IsWritten, write_settings-IsWritten}

opens_connect : Unit {0}
unfolding run_connect connect_to configure redeem_at trim_slashes fingerprint trim_left trim_right
    update prepared merge put write_temp value field bytes_eq unmarshal_string unquote_json_string
    unquote_loop piece
opens_connect = tt

-- A quoted text, of a text without quotes.
abbrev quoted : Bytes → Option Bytes
quoted s = some (b'"' ∷ (s ++ b'"' ∷ []))

-- The settings as they were, and as they are to be.
abbrev old_fields : Fields
old_fields = (key_device_id, codes "\"d7\"") ∷ (key_token, codes "\"old\"") ∷ []

abbrev wanted_fields : Fields
wanted_fields =
    (key_device_id, codes "\"d7\"")
    ∷ (key_token, codes "\"psk\"")
    ∷ (key_hub_url, codes "\"http://h\"")
    ∷ (key_user_id, codes "\"u1\"")
    ∷ (key_device_name, codes "\"unknown\"")
    ∷ (key_ws, codes "\"false\"")
    ∷ []

unfoldable fields_eq : Fields → Fields → Bool
fields_eq [] [] = true
fields_eq ((k, r) ∷ m) ((k', r') ∷ m') = bytes_eq k k' && (bytes_eq r r' && fields_eq m m')
fields_eq _ _ = false

fields_eq→eq : (m m' : Fields) → fields_eq m m' ≡ true → m ≡ m'
unfolding fields_eq
fields_eq→eq [] [] h = refl
fields_eq→eq [] (_ ∷ _) h = absurd cc
fields_eq→eq (_ ∷ _) [] h = absurd cc
fields_eq→eq ((k, r) ∷ m) ((k', r') ∷ m') h =
    ground (arith, bytes_eq→eq k k', bytes_eq→eq r r', fields_eq→eq m m')

-- A codec of these two maps.
abbrev encode : Fields → Option Bytes
encode m = if fields_eq m wanted_fields then some (codes "new") else none

abbrev decode : Bytes → Option Fields
decode s =
    if bytes_eq s (codes "new\n")
    then some wanted_fields
    else if bytes_eq s (codes "old\n")
    then some old_fields
    else none

decode_new : decode (codes "new\n") ≡ some wanted_fields
unfolding bytes_eq
decode_new = refl

some_inj : (a b : Bytes) → some a ≡ some b → a ≡ b
some_inj a b e = cc

decode-IsFaithful :
    (marshal : Bytes → Option Bytes) (asked : List (Bytes × Bytes))
    → IsFaithful decode encode marshal asked
decode-IsFaithful marshal asked current m out _ _ e =
    elim (Bool-cases (fields_eq m wanted_fields)) [
      | inl same ↦
          let written : encode m ≡ some (codes "new") = rw same refl in
          let new : out ≡ codes "new" = some_inj out (codes "new") (sym e ∙ written) in
          let whole : m ≡ wanted_fields = fields_eq→eq m wanted_fields same in
          (
            wanted_fields,
            ap (λ o. decode (o ++ b'\n' ∷ [])) new ∙ decode_new,
            λ key. ap (λ x. value x key) (sym whole),
          )
      | inr other ↦ let nothing : encode m ≡ none = rw other refl in absurd cc
    ]

abbrev world : Surroundings
world = record {
  has_settings_path = true;
  browse = some [];
  post = λ url code. some (record { status = 200; body = some (codes "psk", codes "u1") });
  hostname = none;
  settings_env = record {
    now = 9;
    fails = λ _. false;
    before_stat = λ f. f;
    before_rename = λ f. f;
  };
  matches = [];
  stamp_of = λ _. 0;
  restore_fails = false;
}

abbrev paired_flags : ConnectFlags
paired_flags = record {
  code = codes "123-456-789";
  token = [];
  user_id = [];
  expected = codes " ABCD-efgh-ijkl ";
  yes = false;
  device_name = [];
  undo = false;
}

abbrev args : List Bytes
args = codes "http://h/" ∷ []

abbrev sha : Bytes → Bytes
sha _ = codes "abcdefghijklmnop"

abbrev home : SettingsDir
home = record { file = some (record { content = codes "old\n"; modified = 1 }); backups = [] }

abbrev connected : ConnectOutcome
connected = record {
  dir = record {
    file = some (record { content = codes "new\n"; modified = 9 });
    backups = (9, codes "old\n") ∷ [];
  };
  asked = (codes "http://h", codes "123-456-789") ∷ [];
  status = 0;
}

run_connect_pairs : run_connect sha decode encode quoted world paired_flags args home ≡ connected
unfolding opens_connect fields_eq
run_connect_pairs = refl

-- The command that `cmemlan pair` prints has no fingerprint: it is refused, and the code is not sent.
run_connect_without :
    run_connect sha decode encode quoted world (record paired_flags { expected = [] }) args home
    ≡ record { dir = home; asked = []; status = 2 }
unfolding opens_connect
run_connect_without = refl

run_connect-IsConnected_example :
    IsConnected sha decode encode quoted world paired_flags args home
      (run_connect sha decode encode quoted world paired_flags args home)
run_connect-IsConnected_example =
    run_connect-IsConnected sha decode encode quoted world paired_flags args home refl

abbrev kv : List (Bytes × Bytes)
kv = updates (codes "http://h") (codes "psk") (codes "u1") (codes "unknown")

quoted-IsReadBack :
    (s raw : Bytes)
    → unmarshal_string (b'"' ∷ (s ++ b'"' ∷ [])) ≡ some s
    → quoted s ≡ some raw
    → unmarshal_string raw ≡ some s
quoted-IsReadBack s raw reads e = rw (sym (some_inj _ raw e)) reads

kv-IsReadBack : All (IsReadBack quoted) kv
unfolding opens_connect
kv-IsReadBack = (
  λ raw e. quoted-IsReadBack (codes "http://h") raw refl e,
  (
    λ raw e. quoted-IsReadBack (codes "psk") raw refl e,
    (
      λ raw e. quoted-IsReadBack (codes "u1") raw refl e,
      (
        λ raw e. quoted-IsReadBack (codes "unknown") raw refl e,
        (λ raw e. quoted-IsReadBack (codes "false") raw refl e, tt),
      ),
    ),
  ),
)

write_settings_exits : (write_settings decode encode quoted world home [] kv).status ≡ 0
unfolding opens_connect fields_eq
write_settings_exits = refl

write_settings-IsWritten_example :
    IsWritten decode encode quoted world.settings_env home
      (codes "http://h")
      (codes "psk")
      (codes "u1")
      (codes "unknown")
      ((write_settings decode encode quoted world home [] kv).dir)
write_settings-IsWritten_example =
    write_settings-IsWritten decode encode quoted world home [] (codes "http://h") (codes "psk")
      (codes "u1") (codes "unknown") (decode-IsFaithful quoted kv) kv-IsReadBack
      write_settings_exits
