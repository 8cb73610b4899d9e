-- ===== src/Worker/Registry.antt =====
-- crates/dandori-app-services/src/worker/registry.rs: which handler a message goes to.
pub mod Laws
pub mod Versions
use dandori.Base.{
  ℕ, String, Bool, not, ◌&&◌, Option, none, some, List, [], ◌∷◌, ◌++◌, leb, ltb, ◌==◌, str_eq,
  if◌then◌else◌, find, keep, Outcome, ok, err,
}
use dandori.Base.Text.{append, decimal}
use dandori.Store.Outbox.Defs.{OutboxMessage}
use dandori.Store.Table.{insert_by}
use dandori.Worker.Publish.{PublishError, publish_error, unsupported}

-- A handler that is registered: `H` is what it does.
pub record OutboxHandler (H : Type 0) : Type 0 where
  pub event_type : String
  pub schema_version : ℕ
  pub handle : H

-- The two maps, as lists with the latest entry of a key in front: `by_key` holds one handler to an
-- event type and version, and `by_type` the versions of an event type in order.
pub record OutboxRegistry (H : Type 0) : Type 0 where
  pub by_key : List (OutboxHandler H)
  pub by_type : List (String × List (OutboxHandler H))

abbrev pub versions_of :
    {H : Type 0} → Option (String × List (OutboxHandler H)) → List (OutboxHandler H)
versions_of none = []
versions_of (some entry) = entry.1

abbrev pub or_else : {A : Type 0} → Option A → Option A → Option A
or_else none b = b
or_else (some a) b = some a

module _ {H : Type 0} where
  abbrev pub empty_registry : OutboxRegistry H
  empty_registry = record { by_key = []; by_type = [] }

  unfoldable pub is_key : String → ℕ → OutboxHandler H → Bool
  is_key event_type schema_version h =
      str_eq h.event_type event_type && h.schema_version == schema_version

  unfoldable pub entry_of :
      String → List (String × List (OutboxHandler H)) → Option (String × List (OutboxHandler H))
  unfolding find
  entry_of event_type by_type = find (λ entry. str_eq entry.0 event_type) by_type

  -- `sort_by_key` is stable, and the list was in order: the new handler, at the end, goes behind
  -- all of a version that is not above its own.
  unfoldable pub add_version : OutboxHandler H → List (OutboxHandler H) → List (OutboxHandler H)
  unfolding insert_by
  add_version handler versions =
      insert_by (λ h new. leb h.schema_version new.schema_version) handler versions

  unfoldable pub register : OutboxHandler H → OutboxRegistry H → OutboxRegistry H
  unfolding entry_of add_version
  register handler registry = record {
    by_key = handler ∷ registry.by_key;
    by_type =
        (
          handler.event_type,
          add_version handler (versions_of (entry_of handler.event_type registry.by_type)),
        )
        ∷ registry.by_type;
  }

  -- `versions.iter().rev().find(…)`: the last that satisfies the test.
  unfoldable pub find_last :
      (OutboxHandler H → Bool) → List (OutboxHandler H) → Option (OutboxHandler H)
  find_last p [] = none
  find_last p (h ∷ hs) = let rest = find_last p hs in or_else rest (if p h then some h else none)

  unfoldable pub resolve : OutboxRegistry H → String → ℕ → Option (OutboxHandler H)
  unfolding find is_key entry_of find_last
  resolve registry event_type schema_version =
      or_else (find (is_key event_type schema_version) registry.by_key) (
        find_last (λ h. leb h.schema_version schema_version)
          (versions_of (entry_of event_type registry.by_type)))

-- `message.payload.get("schema_version")…`: `get_u64` is what serde_json finds there.
unfoldable pub resolve_schema_version : {J : Type 0} → (J → Option ℕ) → OutboxMessage J → Option ℕ
resolve_schema_version get_u64 message = elim (get_u64 message.payload) [
  | none ↦ none
  | some v ↦ if ltb v 4294967296 then some v else none
]

abbrev pub or_one : Option ℕ → ℕ
or_one none = 1
or_one (some v) = v

abbrev pub no_handler : String → ℕ → PublishError
no_handler event_type version = publish_error unsupported (
    append "no handler registered for event_type="
      (append event_type (append " schema_version=" (decimal version))))

-- A handler's `handle` is a function of the message here, which holds its publisher.
unfoldable pub dispatch :
    {J : Type 0}
    → (J → Option ℕ)
    → OutboxRegistry (OutboxMessage J → Outcome PublishError)
    → OutboxMessage J
    → Outcome PublishError
unfolding resolve_schema_version resolve
dispatch get_u64 registry message =
    let version = or_one (resolve_schema_version get_u64 message) in
    elim (resolve registry message.event_type version) [
      | some handler ↦ handler.handle message
      | none ↦ err (no_handler message.event_type version)
    ]
