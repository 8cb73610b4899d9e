-- ===== src/Domain/Ids.antt =====
-- crates/dandori-domain/src/ids.rs. A UUID is a number that is only compared; the newtypes over
-- it are synonyms. `Uuid::now_v7()` is an argument of what calls it.
use Prim.Native.Char.{Char, code}
use dandori.Base.{
  ℕ, String, Bool, ◌||◌, ◌&&◌, not, leb, ltb, ◌==◌, Result, Outcome, ok, fail_if, ◌>>◌,
}
use dandori.Base.Text.{byte_length, all_chars, decimal, append}
use dandori.Domain.Error.{DomainError, validation_error}

abbrev pub Uuid : Type 0
Uuid = ℕ

abbrev pub WorkspaceId : Type 0
WorkspaceId = Uuid

abbrev pub ProjectId : Type 0
ProjectId = Uuid

abbrev pub MilestoneId : Type 0
MilestoneId = Uuid

abbrev pub IssueId : Type 0
IssueId = Uuid

abbrev pub CommandId : Type 0
CommandId = Uuid

-- `DateTime<Utc>`: a count of microseconds.
abbrev pub Instant : Type 0
Instant = ℕ

-- The string is private in the source: `new` alone makes a key.
pub record IdempotencyKey : Type 0 where
  pub raw : String

abbrev pub min_length : ℕ
min_length = 1

abbrev pub max_length : ℕ
max_length = 128

-- `c.is_ascii_graphic() || c == ' ' || c == '-' || c == '_'`
unfoldable pub is_key_char : Char → Bool
is_key_char ch =
    let c = code ch in (leb 0x21 c && leb c 0x7e) || c == 0x20 || c == 0x2d || c == 0x5f

unfoldable pub length_message : String → String
length_message value =
    append "idempotency_key length must be between 1 and 128 bytes (got "
      (append (decimal (byte_length value)) ")")

unfoldable pub validate_key : String → Outcome DomainError
unfolding is_key_char length_message
validate_key value = do
  fail_if (ltb (byte_length value) min_length || ltb max_length (byte_length value))
      (validation_error "idempotency_key_length" (length_message value))
  fail_if (not (all_chars is_key_char value)) (
      validation_error "idempotency_key_charset"
        "idempotency_key must only contain printable ASCII (graphic, space, dash, underscore)")
  ok tt

-- `IdempotencyKey::new`, through which deserialisation goes too.
unfoldable pub new_key : String → Result IdempotencyKey DomainError
unfolding validate_key
new_key raw = do validate_key raw; ok (record { raw = raw })
