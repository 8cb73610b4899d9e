-- ===== src/Worker/Handlers.antt =====
-- The handlers of crates/dandori-app-services/src/worker/registry.rs, the no-op publisher of
-- publish.rs and the registry that service.rs wires: from an outbox row to the publisher.
use dandori.Base.{
  ℕ, String, Option, none, some, arith, ap, ◌≡◌, ◌∙◌, refl, Result, Outcome, ok, err, find,
}
use dandori.Base.Text.{append}
use dandori.Domain.Ids.{Uuid}
use dandori.Domain.Event.{IssueCreatedEventV1, issue_created_v1, as_str}
use dandori.Domain.Command.{CreateIssueCommandV1}
use dandori.Store.Schema.{Db, OutboxRow}
use dandori.Store.Issue.Insert.{outbox_row, insert_outbox}
use dandori.Store.Outbox.Defs.{OutboxMessage, row_at}
use dandori.Store.Outbox.Lease.{message_of}
use dandori.Worker.Publish.{PublishError, publish_error, serialization}
use dandori.Worker.Registry.{
  OutboxHandler, OutboxRegistry, empty_registry, register, resolve, dispatch,
  resolve_schema_version, or_one, is_key, entry_of, find_last, add_version,
}

-- The trait; what a call comes to is given.
pub record OutboxPublisher (J : Type 0) : Type 0 where
  pub publish_issue_created : OutboxMessage J → IssueCreatedEventV1 → Outcome PublishError

unfoldable pub noop_publisher : {J : Type 0} → OutboxPublisher J
noop_publisher = record { publish_issue_created = λ message event. ok tt }

dispatch-resolved :
    {J : Type 0} (get_u64 : J → Option ℕ)
    (registry : OutboxRegistry (OutboxMessage J → Outcome PublishError)) (message : OutboxMessage J)
    (handler : OutboxHandler (OutboxMessage J → Outcome PublishError))
    → resolve registry message.event_type (or_one (resolve_schema_version get_u64 message))
      ≡ some handler
    → dispatch get_u64 registry message ≡ handler.handle message
unfolding dispatch
dispatch-resolved get_u64 registry message handler e = rw (e, dispatch) refl

module _ {J : Type 0} (read_event : J → Result IssueCreatedEventV1 String)
    (publisher : OutboxPublisher J) where
  unfoldable pub handle_issue_created : OutboxMessage J → Outcome PublishError
  handle_issue_created message = elim (read_event message.payload) [
    | ok event ↦ publisher.publish_issue_created message event
    | err error ↦
        err (
          publish_error serialization
            (append "failed to deserialize issue.created payload: " error))
  ]

  unfoldable pub issue_created_v1_handler : OutboxHandler (OutboxMessage J → Outcome PublishError)
  unfolding handle_issue_created as_str
  issue_created_v1_handler = record {
    event_type = as_str issue_created_v1;
    schema_version = 1;
    handle = handle_issue_created;
  }

  unfoldable pub default_registry : OutboxRegistry (OutboxMessage J → Outcome PublishError)
  unfolding register issue_created_v1_handler
  default_registry = register issue_created_v1_handler empty_registry

  resolve_schema_version-none :
      (get_u64 : J → Option ℕ) (message : OutboxMessage J)
      → get_u64 message.payload ≡ none
      → resolve_schema_version get_u64 message ≡ none
  unfolding resolve_schema_version
  resolve_schema_version-none get_u64 message h = rw (h, resolve_schema_version) refl

  -- The registry knows what the store writes.
  resolve-created :
      resolve default_registry (as_str issue_created_v1) 1 ≡ some issue_created_v1_handler
  unfolding resolve default_registry find is_key entry_of find_last add_version as_str
  resolve-created = refl

  dispatch-created :
      (get_u64 : J → Option ℕ) (message : OutboxMessage J)
      → message.event_type ≡ as_str issue_created_v1
      → get_u64 message.payload ≡ none
      → dispatch get_u64 default_registry message ≡ handle_issue_created message
  unfolding issue_created_v1_handler
  dispatch-created get_u64 message e v =
      let resolved : resolve default_registry message.event_type
            (or_one (resolve_schema_version get_u64 message))
          ≡ some issue_created_v1_handler =
        ap (λ t. resolve default_registry t (or_one (resolve_schema_version get_u64 message))) e
        ∙ (ap (λ v'. resolve default_registry (as_str issue_created_v1) (or_one v'))
              (resolve_schema_version-none get_u64 message v)
            ∙ resolve-created) in
      dispatch-resolved get_u64 default_registry message issue_created_v1_handler resolved

  -- If a new issue's event is inserted and the payload reads back as that event, without a field
  -- schema_version, then its row stands in the outbox, and under any lease its message reaches
  -- the publisher with the event as it was, and the outcome is the publisher's.
  pub dispatch-inserted :
      (event_value : IssueCreatedEventV1 → Result J String) (get_u64 : J → Option ℕ) (tenant : Uuid)
      (c : CreateIssueCommandV1) (event : IssueCreatedEventV1) (id : Uuid)
      (at until token owner : ℕ) (db after : Db J) (payload : J)
      → insert_outbox event_value tenant c event id at db ≡ ok after
      → event_value event ≡ ok payload
      → read_event payload ≡ ok event
      → get_u64 payload ≡ none
      → (o : OutboxRow J) × (row_at id after.outbox ≡ some o)
        × (dispatch get_u64 default_registry (message_of until token owner o)
            ≡ publisher.publish_issue_created (message_of until token owner o) event)
  unfolding insert_outbox message_of outbox_row find handle_issue_created
  dispatch-inserted event_value get_u64 tenant c event id at until token owner db after payload h
        written read version =
      let o = outbox_row c event id payload at in
      (
        o,
        ground arith,
        dispatch-created get_u64 (message_of until token owner o) refl version
            ∙ rw (handle_issue_created, read) refl,
      )
