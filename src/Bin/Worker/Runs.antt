-- ===== src/Bin/Worker/Runs.antt =====
-- bin/dandori-worker/src/main.rs: from the environment to the tables, and the text of a range.
use dandori.Base.{ℕ, ◌≤◌, String, some, ◌≡◌, map_err}
use dandori.Base.Int.{pos, display}
use dandori.Base.Text.{append}
use dandori.Base.Numbers.{parse_signed-display, split_once-digits, all_chars-display}
use dandori.Store.Partition.{new_range}
use dandori.Store.Outbox.History.Runs.{Steps}
use dandori.Bin.Worker.{invalid_bucket_range, parse_bucket_range}

-- Every range of naturals that an i32 can hold is read back as it is printed, up to the checks of
-- ShardBucketRange::new.
pub parse_bucket_range-display :
    (name : String) (lowest highest : ℕ)
    → lowest ≤ 2147483647
    → highest ≤ 2147483647
    → parse_bucket_range name
        (some (append (display (pos lowest)) (append ".." (display (pos highest)))))
      ≡ map_err (invalid_bucket_range name) (new_range (pos lowest) (pos highest))
unfolding parse_bucket_range
parse_bucket_range-display name lowest highest p q = rw (
  split_once-digits (display (pos lowest)) (display (pos highest)) (all_chars-display lowest),
  parse_signed-display 2147483647 lowest p,
  parse_signed-display 2147483647 highest q,
)
