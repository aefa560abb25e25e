-- ===== src/Publisher/Publish.antt =====
-- `publish`, `publishJSON` and the three functions that call them.
use orchestration_service.Base.{ℕ, Bool, true, false, ◌++◌, Option, none, some, List, [], ◌∷◌}
use orchestration_service.Text.{Text, codes, decimal}
use orchestration_service.Errors.{GoError, plain, wrapped}
use orchestration_service.Errors.Result.{Result, ok, err}
use orchestration_service.Publisher.Channel.{
  Publishing, Return, Sent, refused, unconfirmed, pending, Broker, Channel,
}

abbrev pub not_initialized : GoError
not_initialized = plain (codes "rabbitmq publish channel is not initialized")

-- The error for a returned message.
abbrev pub returned_error : Return → GoError
returned_error r = plain (
    codes "rabbitmq returned unroutable progress event: "
    ++ (decimal r.reply_code ++ (codes " " ++ r.reply_text)))

module _ (b : Broker) where
  -- The `select` on the buffer.
  unfoldable pub check_returns : Bool → Channel b → Option GoError × Channel b
  check_returns false c = (none, c)
  check_returns true c = elim c.returns [
    | [] ↦ (none, c)
    | r ∷ rest ↦ (some (returned_error r), record c { returns = rest })
  ]

  -- What follows the wait for the confirmation.
  unfoldable pub after_wait : Bool → Result Bool → Channel b → Option GoError × Channel b
  unfolding check_returns
  after_wait mandatory (err e) c = (some (wrapped (codes "wait for publisher confirmation: ") e), c)
  after_wait mandatory (ok false) c =
      (some (plain (codes "rabbitmq publisher negatively acknowledged the event")), c)
  after_wait mandatory (ok true) c = check_returns mandatory c

  unfoldable pub after_send : Bool → Sent → Channel b → Option GoError × Channel b
  unfolding after_wait
  after_send mandatory (refused e) c = (some (wrapped (codes "publish rabbitmq event: ") e), c)
  after_send mandatory unconfirmed c =
      (some (plain (codes "publisher confirmation was not created")), c)
  after_send mandatory pending c =
      let ((acked, rs), state) = b.wait c.state in
      after_wait mandatory acked (record { state = state; returns = c.returns ++ rs })

  -- `publish` of a publisher with a channel, under its lock.
  unfoldable pub publish_on :
      Text → Text → Bool → Publishing → Channel b → Option GoError × Channel b
  unfolding after_send
  publish_on exchange key mandatory message c =
      let (sent, state) = b.send exchange key mandatory message c.state in
      after_send mandatory sent (record c { state = state })

  -- `none` is a publisher or a channel that is nil.
  abbrev pub Publisher : Type 0
  Publisher = Option (Channel b)

  abbrev still_open : Option GoError × Channel b → Option GoError × Publisher
  still_open (e, c) = (e, some c)

  unfoldable pub publish : Text → Text → Bool → Publishing → Publisher → Option GoError × Publisher
  unfolding publish_on
  publish exchange key mandatory message none = (some not_initialized, none)
  publish exchange key mandatory message (some c) =
      still_open (publish_on exchange key mandatory message c)

  -- The message for a payload of these bytes.
  abbrev pub json_message : b.State → List ℕ → Publishing
  json_message s body = record {
    content_type = codes "application/json";
    delivery_mode = 2;
    timestamp = b.timestamp s;
    message_id = decimal (b.id_time s);
    body = body;
  }

  unfoldable pub with_body :
      Text → Text → Bool → Result (List ℕ) → Channel b → Option GoError × Publisher
  unfolding publish
  with_body exchange key mandatory (err e) c =
      (some (wrapped (codes "marshal event payload: ") e), some c)
  with_body exchange key mandatory (ok body) c =
      publish exchange key mandatory (json_message c.state body) (some c)

  -- `publishJSON`; `body` is what `json.Marshal` returns for the payload.
  unfoldable pub publish_json :
      Text → Text → Result (List ℕ) → Bool → Publisher → Option GoError × Publisher
  unfolding with_body
  publish_json exchange key body mandatory none = (some not_initialized, none)
  publish_json exchange key body mandatory (some c) = with_body exchange key mandatory body c

  -- `PublishJSON`, `PublishProgressJSON` and `Publish`.
  unfoldable pub exported_publish_json :
      Text → Text → Result (List ℕ) → Publisher → Option GoError × Publisher
  exported_publish_json exchange key body = publish_json exchange key body false

  unfoldable pub exported_publish_progress_json :
      Text → Text → Result (List ℕ) → Publisher → Option GoError × Publisher
  exported_publish_progress_json exchange key body = publish_json exchange key body true

  unfoldable pub exported_publish :
      Text → Text → Publishing → Publisher → Option GoError × Publisher
  exported_publish exchange key message = publish exchange key false message
