-- ===== src/Cli/PairCommand/Examples.antt =====
-- A run of `pair`, and what comes of its code.
use claude_mem_lan_sync.Prelude.{
  ℕ, ◌≡◌, refl, false, [], none, some, Bytes, bytes_eq, codes, ok, pos, trim_left, trim_right,
  arith,
}
use claude_mem_lan_sync.Pair.Codes.{normalise, new_code, draw_digits}
use claude_mem_lan_sync.Pair.Keys.{Host, Dir, load_or_create, keys_of, rotate, fingerprint}
use claude_mem_lan_sync.Pair.FileWindow.{
  open_file, opened_file, redeem_file, redeem_window, take_key,
}
use claude_mem_lan_sync.Cli.Connect.{ConnectFlags, mismatches}
use claude_mem_lan_sync.Cli.PairCommand.{run_pair, run_rotate_token}
use claude_mem_lan_sync.Cli.PairCommand.Meets.{run_pair-mismatches}

abbrev secret : Bytes
secret = codes "psk"

abbrev at_time : ℕ → Host
at_time now = record {
  now = now;
  secret = secret;
  draw = λ i. some i;
  written = none;
  fails = λ _. false;
}

abbrev empty_dir : Dir
empty_dir = record { key = none; pairing = none }

abbrev sha : Bytes → Bytes
sha _ = codes "abcdefghijkl"

abbrev connect_flags : ConnectFlags
connect_flags = record {
  code = codes "012-345-678";
  token = [];
  user_id = [];
  expected = codes "abcd-efgh-ijkl";
  yes = false;
  device_name = [];
  undo = false;
}

opens_pair : Unit {0}
unfolding run_pair run_rotate_token rotate fingerprint bytes_eq normalise draw_digits new_code
    keys_of load_or_create trim_left trim_right open_file opened_file redeem_window take_key
    redeem_file
opens_pair = tt

run_pair_prints :
    (run_pair sha (at_time 0) (at_time 1) (pos 60000) empty_dir).shown
    ≡ some (codes "012-345-678", codes "abcd-efgh-ijkl")
unfolding opens_pair
run_pair_prints = refl

run_rotate_token_prints :
    (run_rotate_token sha (at_time 0) empty_dir).shown ≡ some ([], codes "abcd-efgh-ijkl")
unfolding opens_pair
run_rotate_token_prints = refl

run_pair-mismatches_example :
    (psk : Bytes) × ((redeem_file sha
        (at_time 5)
        (run_pair sha (at_time 0) (at_time 1) (pos 60000) empty_dir).dir
        (codes "012-345-678")).1
      ≡ ok psk)
    × (mismatches sha connect_flags psk ≡ false)
run_pair-mismatches_example =
    run_pair-mismatches sha (at_time 0) (at_time 1) (at_time 5) (pos 60000) empty_dir
      (codes "012-345-678") (codes "abcd-efgh-ijkl") connect_flags
      (refl, (refl, (refl, (refl, tt))))
      (λ _. (
        refl,
        (refl, (refl, (refl, (refl, (refl, (refl, (refl, (refl, (refl, (refl, (refl, tt))))))))))),
      ))
      run_pair_prints (λ c. refl) (omega arith) refl
