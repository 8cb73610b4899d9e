-- ===== src/Domain/Laws.antt =====
-- Laws of the commands, events and identifiers of crates/dandori-domain.
use dandori.Base.{
  ℕ, ◌≡◌, ◌↔◌, ◌≤◌, refl, String, Option, none, some, true, false, arith, eq_iff, ok,
}
use dandori.Base.Text.{byte_length, all_chars}
use dandori.Domain.Ids.{IdempotencyKey, is_key_char, validate_key, new_key}
use dandori.Domain.Command
use dandori.Domain.Command.{CommandName, CreateIssueCommandV1, is_blank, validate_issue}

parse-eq-some_only :
    (s : String) (n : CommandName) → Command.parse s ≡ some n → s ≡ Command.as_str n
unfolding Command.parse Command.as_str
parse-eq-some_only s n h = ground (
  arith,
  eq_iff s "issue.create.v1",
  eq_iff s "workspace.create.v1",
  eq_iff s "project.create.v1",
)

parse-as_str : (n : CommandName) → Command.parse (Command.as_str n) ≡ some n
unfolding Command.parse Command.as_str
parse-as_str CommandName.issue_create_v1 = refl
parse-as_str n = refl

-- A text is parsed as a command name exactly if it is the text that the name prints as.
parse-eq-some : (s : String) (n : CommandName) → (Command.parse s ≡ some n) ↔ (s ≡ Command.as_str n)
parse-eq-some s n = (parse-eq-some_only s n, λ e. rw e (parse-as_str n))

abbrev pub Fits : ℕ → Option String → Type 0
Fits n none = Unit
Fits n (some s) = byte_length s ≤ n

-- What the validation asks of a command: texts that are not blank and fit, in bytes.
pub record IsAcceptable (c : CreateIssueCommandV1) : Type 0 where
  pub title_present : is_blank c.title ≡ false
  pub title_fits : byte_length c.title ≤ 200
  pub key_present : is_blank c.idempotency_key.raw ≡ false
  pub key_fits : byte_length c.idempotency_key.raw ≤ 128
  pub fingerprint_present : is_blank c.request_fingerprint ≡ false
  pub fingerprint_fits : byte_length c.request_fingerprint ≤ 128
  pub description_fits : Fits 4000 c.description

-- `validate` accepts exactly the commands whose title, key and fingerprint are not blank and, as
-- the description, within their limits in bytes.
pub validate_issue-eq-ok : (c : CreateIssueCommandV1) → (validate_issue c ≡ ok tt) ↔ IsAcceptable c
unfolding validate_issue
validate_issue-eq-ok c = ground arith

-- `IdempotencyKey::new` makes a key of exactly the texts of 1 to 128 bytes whose characters are
-- printable ASCII, and the key holds the text unchanged.
new_key-eq-ok :
    (raw : String) (key : IdempotencyKey)
    → (new_key raw ≡ ok key) ↔ (
        (1 ≤ byte_length raw)
        × (byte_length raw ≤ 128)
        × (all_chars is_key_char raw ≡ true)
        × (key.raw ≡ raw))
unfolding new_key validate_key
new_key-eq-ok raw key = ground arith
