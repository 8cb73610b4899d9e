-- ===== src/Bin/Worker/Parse.antt =====
-- bin/dandori-worker/src/main.rs: what the readers of the variables accept.
use dandori.Base.{
  ℕ, ◌≤◌, String, true, Option, none, some, arith, ◌≡◌, ok, Ensures, done, Ensures-bind,
  Ensures-any, Ensures-mono, Ensures-fail_if, Ensures-map_err, ok_or, not, ◌&&◌, leb, subst, sym,
}
use dandori.Base.Int.{ℤ, pos, pos_part, ◌≤ℤ◌, leb_ℤ}
use dandori.Base.Text.{split_once}
use dandori.Store.Partition.{ShardBucketRange, new_range}
use dandori.Store.Partition.Laws.{new_range-eq-ok}
use dandori.Bin.Worker.{
  invalid_value, out_of_range, not_min_max, min_not_an_integer, max_not_an_integer,
  invalid_bucket_range, Environment, Number, i32, parse_bounded, parse_env_bounded, read_env,
  parse_bucket_range, parse_shard_bucket_range,
}

module _ {T : Type 0} (number : Number T) where
  abbrev Between : T → T → T → Type 0
  Between lowest highest n = (number.at_most lowest n ≡ true) × (number.at_most n highest ≡ true)

  parse_bounded-Between :
      (name : String) (raw : Option String) (default lowest highest : T)
      → Between lowest highest default
      → Ensures (Between lowest highest) (parse_bounded number name raw default lowest highest)
  unfolding parse_bounded
  parse_bounded-Between name none default lowest highest h = done h
  parse_bounded-Between name (some raw) default lowest highest h =
      Ensures-bind (Ensures-any (ok_or (number.parse raw) (invalid_value name raw))) (λ parsed _.
        Ensures-fail_if (not (number.at_most lowest parsed && number.at_most parsed highest))
          (out_of_range name) (ok parsed) (λ inside. done {a = parsed} (ground arith)))

  parse_env_bounded-Between :
      (env : Environment) (name : String) (default lowest highest : T)
      → Between lowest highest default
      → Ensures (Between lowest highest) (parse_env_bounded number env name default lowest highest)
  unfolding parse_env_bounded
  parse_env_bounded-Between env name default lowest highest h =
      Ensures-bind (Ensures-any (read_env env name))
        (λ raw _. parse_bounded-Between name raw default lowest highest h)

-- A natural that a variable holds, and an integer that the configuration holds as a natural.
pub natural :
    (number : String → Option ℕ) (env : Environment) (name : String) (default lowest highest : ℕ)
    → leb lowest default ≡ true
    → leb default highest ≡ true
    → Ensures
        (λ n. (lowest ≤ n) × (n ≤ highest))
        (parse_env_bounded
          (record { parse = number; at_most = leb })
          env
          name
          default
          lowest
          highest)
natural number env name default lowest highest p q =
    Ensures-mono (λ n h. ground arith)
      (parse_env_bounded-Between (record { parse = number; at_most = leb }) env name default lowest
        highest (p, q))

pub integer :
    (number : String → Option ℤ) (env : Environment) (name : String) (default lowest highest : ℕ)
    → leb lowest default ≡ true
    → leb default highest ≡ true
    → Ensures
        (λ n. (pos lowest ≤ℤ n) × (n ≤ℤ pos highest))
        (parse_env_bounded
          (record { parse = number; at_most = leb_ℤ })
          env
          name
          (pos default)
          (pos lowest)
          (pos highest))
integer number env name default lowest highest p q =
    Ensures-mono (λ n h. ground arith)
      (parse_env_bounded-Between (record { parse = number; at_most = leb_ℤ }) env name (pos default)
        (pos lowest) (pos highest) (ground arith))

abbrev pub IsWindow : ShardBucketRange → Type 0
IsWindow r = (pos 0 ≤ℤ r.min) × (r.min ≤ℤ r.max) × (r.max ≤ℤ pos 1023)

new_range-IsWindow : (lowest highest : ℤ) → Ensures IsWindow (new_range lowest highest)
new_range-IsWindow lowest highest =
    Ensures-mono
      (λ r h.
        let (inside, same) = (new_range-eq-ok lowest highest r).0 h in
        subst IsWindow (sym same) inside)
      (Ensures-any (new_range lowest highest))

parse_bucket_range-IsWindow :
    (name : String) (raw : Option String) → Ensures IsWindow (parse_bucket_range name raw)
unfolding parse_bucket_range
parse_bucket_range-IsWindow name none = done (omega arith)
parse_bucket_range-IsWindow name (some raw) =
    Ensures-bind (Ensures-any (ok_or (split_once ".." raw) (not_min_max name raw))) λ ends _.
      Ensures-bind (Ensures-any (ok_or (i32.parse ends.0) (min_not_an_integer name ends.0)))
        λ low _.
          Ensures-bind (Ensures-any (ok_or (i32.parse ends.1) (max_not_an_integer name ends.1)))
            λ high _. Ensures-map_err (invalid_bucket_range name) (new_range-IsWindow low high)

pub within :
    (n : ℤ) (lowest highest : ℕ)
    → (pos lowest ≤ℤ n) × (n ≤ℤ pos highest)
    → (lowest ≤ pos_part n) × (pos_part n ≤ highest)
within n lowest highest h = ground arith

pub parse_shard_bucket_range-IsWindow :
    (env : Environment) (name : String) → Ensures IsWindow (parse_shard_bucket_range env name)
unfolding parse_shard_bucket_range
parse_shard_bucket_range-IsWindow env name =
    Ensures-bind (Ensures-any (read_env env name)) (λ raw _. parse_bucket_range-IsWindow name raw)
