-- ===== src/Publisher/Tests.antt =====
-- Runs of the publisher over a broker that is given.
use orchestration_service.Base.{ℕ, suc, zero, refl, ◌≡◌, ◌↔◌, Bool, true, none, some, List, [], ◌∷◌}
use orchestration_service.Base.Int.{pos}
use orchestration_service.Text.{Text, codes}
use orchestration_service.Errors.{deadline_exceeded}
use orchestration_service.Errors.Result.{Result, ok, err}
use orchestration_service.Publisher.Channel.{Publishing, Return, pending, Broker, Channel}
use orchestration_service.Publisher.Publish.{returned_error, publish_on, publish_json, json_message}
use orchestration_service.Publisher.Attribution.{Taken, publish_json-succeeds_iff, publish_on-stale}

abbrev no_route : Return
no_route = record { reply_code = pos 312; reply_text = codes "NO_ROUTE"; message_id = codes "1" }

-- The first wait ends in a timeout, after the message has been returned; the others in an ack.
abbrev answer_to : ℕ → Result Bool × List Return
answer_to zero = (err deadline_exceeded, no_route ∷ [])
answer_to (suc n) = (ok true, [])

abbrev broker : Broker
broker = record {
  State = ℕ;
  send = λ exchange key mandatory message n. (pending, n);
  wait = λ n. (answer_to n, suc n);
  id_time = λ n. pos n;
  timestamp = λ n. pos n;
}

abbrev idle : ℕ → Channel broker
idle n = record { state = n; returns = [] }

abbrev started : Publishing
started = json_message broker 0 (b'{' ∷ b'}' ∷ [])

abbrev exchange : Text
exchange = codes "shiply.deployments"

publish_json-succeeds_iff_example :
    ((publish_json broker exchange (codes "a") (ok []) true (some (idle 1))).0 ≡ none) ↔ (
      (c : Channel broker) × ((bytes : List ℕ) × ((some (idle 1) ≡ some c)
          × ((◌≡◌ {A = Result (List ℕ)} (ok []) (ok bytes))
              × Taken broker exchange (codes "a") true (json_message broker c.state bytes) c))))
publish_json-succeeds_iff_example =
    publish_json-succeeds_iff broker exchange (codes "a") (ok []) true (some (idle 1))

publish_on-stale_example :
    (publish_on broker exchange
      (codes "b")
      true
      started
      (publish_on broker exchange (codes "a") true started (idle 0)).1).0
    ≡ some (returned_error no_route)
unfolding publish_on
publish_on-stale_example =
    publish_on-stale broker exchange (codes "a") exchange (codes "b") true started started (idle 0)
      deadline_exceeded no_route [] (refl, (refl, refl)) (refl, refl)
