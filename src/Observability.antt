-- ===== src/Observability.antt =====
-- crates/dandori-observability: correlation ids (correlation.rs) and the set-up of tracing (lib.rs).
use dandori.Base.{
  ◌≡◌, refl, String, Bool, true, if◌then◌else◌, Bool-cases, Option, none, some, Result, Outcome, ok,
  err, inl, inr, arith,
}
use dandori.Base.Text.{trim}
use dandori.Domain.Ids.{Uuid}

abbrev pub correlation_id_header : String
correlation_id_header = "x-correlation-id"

pub record CorrelationId : Type 0 where
  pub as_uuid : Uuid

-- `map_or_else(Self::new, Self)` with the fresh id.
abbrev or_new : Uuid → Option Uuid → CorrelationId
or_new fresh none = record { as_uuid = fresh }
or_new fresh (some id) = record { as_uuid = id }

-- `parse_uuid` is `Uuid::parse_str(…).ok()`.
unfoldable pub parse_or_new : (String → Option Uuid) → Uuid → Option String → CorrelationId
unfolding trim
parse_or_new parse_uuid fresh none = or_new fresh none
parse_or_new parse_uuid fresh (some raw) = or_new fresh (parse_uuid (trim raw))

pub data ObservabilityError : Type 0 where
  already_installed : ObservabilityError
  filter_build : String → ObservabilityError

pub data TracingFormat : Type 0 where
  json pretty : TracingFormat

pub record TracingConfig : Type 0 where
  pub format : TracingFormat
  pub default_filter : String
  pub filter_env : String
  pub service_name : String

unfoldable pub for_service : String → TracingConfig
for_service service_name = record {
  format = json;
  default_filter = "info,dandori=debug";
  filter_env = "RUST_LOG";
  service_name = service_name;
}

unfoldable pub with_pretty : TracingConfig → TracingConfig
with_pretty cfg = record cfg { format = pretty }

-- What tracing_subscriber does: the filter that a variable holds, the filter of a text, and the
-- installation, which gives the new global subscriber or fails.
pub record Subscribers (Filter Global : Type 0) : Type 0 where
  pub try_from_env : String → Result Filter String
  pub try_new : String → Result Filter String
  pub try_init : TracingFormat → Filter → Global → Option Global

-- The process: INSTALLED, and the global subscriber.
pub record Tracing (Global : Type 0) : Type 0 where
  pub installed : Bool
  pub subscriber : Global

module _ {Filter Global : Type 0} (libs : Subscribers Filter Global) where
  unfoldable pub choose_filter : TracingConfig → Result Filter String
  choose_filter cfg = elim (libs.try_from_env cfg.filter_env) [
    | ok filter ↦ ok filter
    | err error ↦ libs.try_new cfg.default_filter
  ]

  unfoldable pub install :
      TracingConfig → Global → Result Filter String → Tracing Global × Outcome ObservabilityError
  install cfg g (err error) =
      (record { installed = true; subscriber = g }, err (filter_build error))
  install cfg g (ok filter) = elim (libs.try_init cfg.format filter g) [
    | some after ↦ (record { installed = true; subscriber = after }, ok tt)
    | none ↦ (record { installed = true; subscriber = g }, err already_installed)
  ]

  unfoldable pub init_tracing :
      TracingConfig → Tracing Global → Tracing Global × Outcome ObservabilityError
  unfolding choose_filter install
  init_tracing cfg t =
      if t.installed then (t, ok tt) else install cfg t.subscriber (choose_filter cfg)

  install-installed :
      (cfg : TracingConfig) (g : Global) (chosen : Result Filter String)
      → (install cfg g chosen).0.installed ≡ true
  unfolding install
  install-installed cfg g (err error) = refl
  install-installed cfg g (ok filter) = ground arith

  init_tracing-installed :
      (cfg : TracingConfig) (t : Tracing Global) → (init_tracing cfg t).0.installed ≡ true
  unfolding init_tracing
  init_tracing-installed cfg t = elim (Bool-cases t.installed) [
    | inl set ↦ rw set refl
    | inr new ↦ rw new (install-installed cfg t.subscriber (choose_filter cfg))
  ]

  later_call :
      (cfg : TracingConfig) (t : Tracing Global)
      → t.installed ≡ true
      → init_tracing cfg t ≡ (t, ok tt)
  unfolding init_tracing
  later_call cfg t set = rw set refl

  -- Whatever a call came to, even an error: the next call succeeds and changes nothing.
  init_tracing_once :
      (cfg again : TracingConfig) (t : Tracing Global)
      → init_tracing again (init_tracing cfg t).0 ≡ ((init_tracing cfg t).0, ok tt)
  init_tracing_once cfg again t =
      later_call again (init_tracing cfg t).0 (init_tracing-installed cfg t)
