-- ===== src/Store/Issue/Create/Checks.antt =====
-- The CHECKs of the database against the checks of the domain.
use Prim.Native.String.{String}
use dandori.Base.{ℕ, ◌≡◌, ◌≤◌, false, Option, none, some, arith, ok}
use dandori.Base.Text.{
  is_empty, trim, trim_start, trim_end, char_length, byte_length, char_length-le,
}
use dandori.Domain.Command.{CreateIssueCommandV1, is_blank, validate_issue}
use dandori.Domain.Laws.{validate_issue-eq-ok, Fits}
use dandori.Store.Issue.Reservation.{breaks_length}
use dandori.Store.Issue.Insert.{breaks_issue_checks}

not_blank-length : (s : String) → is_blank s ≡ false → 1 ≤ char_length s
unfolding trim trim_start trim_end is_empty char_length
not_blank-length String.[] h = absurd (ground arith)
not_blank-length (String.◌∷◌ c s) h = omega arith

passes-length :
    (most : ℕ) (s : String)
    → is_blank s ≡ false
    → byte_length s ≤ most
    → breaks_length most s ≡ false
unfolding breaks_length
passes-length most s present short = ground (arith, not_blank-length s present, char_length-le s)

passes-description :
    (title : String) (text : Option String)
    → is_blank title ≡ false
    → byte_length title ≤ 200
    → Fits 4000 text
    → breaks_issue_checks title text ≡ false
unfolding breaks_issue_checks
passes-description title none present short f = passes-length 200 title present short
passes-description title (some text) present short f =
    ground (arith, passes-length 200 title present short, char_length-le text)

-- A command that the domain accepts breaks none of the CHECKs that the transaction meets: those of
-- the title and the description, and those of the idempotency record.
pub validate_issue-passes_checks :
    (c : CreateIssueCommandV1)
    → validate_issue c ≡ ok tt
    → (breaks_issue_checks c.title c.description ≡ false)
      × (breaks_length 128 c.idempotency_key.raw ≡ false)
      × (breaks_length 128 c.request_fingerprint ≡ false)
validate_issue-passes_checks c h =
    let a = (validate_issue-eq-ok c).0 h in
    (
      passes-description c.title c.description a.title_present a.title_fits a.description_fits,
      passes-length 128 c.idempotency_key.raw a.key_present a.key_fits,
      passes-length 128 c.request_fingerprint a.fingerprint_present a.fingerprint_fits,
    )
