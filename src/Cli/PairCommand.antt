-- ===== src/Cli/PairCommand.antt =====
-- `runPair` and `runRotateToken` of internal/cli/pair_cmd.go, behind the reading of the flags.
pub mod Meets
mod Examples
use claude_mem_lan_sync.Prelude.{ℕ, [], Bytes, Result, ok, err, Option, none, some, ℤ}
use claude_mem_lan_sync.Pair.Codes.{PairError}
use claude_mem_lan_sync.Pair.Keys.{Host, Dir, Keys, load_or_create, rotate, fingerprint}
use claude_mem_lan_sync.Pair.FileWindow.{open_file}

-- What a run leaves: the directory, the code if there is one and the fingerprint that it prints, and the
-- exit status.
pub record PairRun : Type 0 where
  pub dir : Dir
  pub shown : Option (Bytes × Bytes)
  pub status : ℕ

module _ (sha256_base64 : Bytes → Bytes) where
  abbrev pub shown_run : Keys → Dir × Result PairError Bytes → PairRun
  shown_run k (d, err e) = record { dir = d; shown = none; status = 1 }
  shown_run k (d, ok code) = record {
    dir = d;
    shown = some (code, fingerprint sha256_base64 k);
    status = 0;
  }

  -- `second` is the world at the opening of the window.
  abbrev pub open_with : Host → ℤ → Dir × Result PairError Keys → PairRun
  open_with second ttl (d, err e) = record { dir = d; shown = none; status = 1 }
  open_with second ttl (d, ok k) = shown_run k (open_file sha256_base64 second d ttl)

  -- `runPair`
  unfoldable pub run_pair : Host → Host → ℤ → Dir → PairRun
  run_pair first second ttl d = open_with second ttl (load_or_create first d)

  abbrev pub rotated_run : Dir × Result PairError Keys → PairRun
  rotated_run (d, err e) = record { dir = d; shown = none; status = 1 }
  rotated_run (d, ok k) = record {
    dir = d;
    shown = some ([], fingerprint sha256_base64 k);
    status = 0;
  }

  -- `runRotateToken`, which prints no code.
  unfoldable pub run_rotate_token : Host → Dir → PairRun
  run_rotate_token host d = rotated_run (rotate host d)
