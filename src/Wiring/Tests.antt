-- ===== src/Wiring/Tests.antt =====
-- Runs of the start-up over answers that are given.
use orchestration_service.Base.{
  ℕ, refl, ◌≡◌, true, false, none, some, [], length, ◌<◌, if◌then◌else◌, ◌==◌,
}
use orchestration_service.Base.Int.{ℤ, pos, leb_ℤ}
use orchestration_service.Text.{codes}
use orchestration_service.Consumer.Delivery.{retry_queue}
use orchestration_service.Wiring.Growing.{is_declared}
use orchestration_service.Wiring.Declared.{new_deploy_consumer-declares}
use orchestration_service.Errors.{plain}
use orchestration_service.Errors.Result.{ok}
use orchestration_service.Config.Samples.{config}
use orchestration_service.Wiring.Link.{Environment, World, call, open_new}
use orchestration_service.Wiring.Start.{Opened, new_deploy_consumer, close_consumer, matches_schema}
use orchestration_service.Wiring.Stack.{live, outcome}
use orchestration_service.Wiring.Parts.{holdings}
use orchestration_service.Wiring.Closing.{new_deploy_consumer-Closed}

-- The call of this number fails.
abbrev failing_at : ℕ → Environment
failing_at n = record {
  reply = λ m. if m == n then some (plain (codes "refused")) else none;
  queue_name = λ m name. name;
  quote = λ t. t;
}

abbrev start : World
start = record { tick = 0; log = [] }

matches_schema_run : matches_schema (codes "orchestration_service") ≡ true
unfolding matches_schema
matches_schema_run = refl

matches_schema_digit : matches_schema (codes "1a") ≡ false
unfolding matches_schema
matches_schema_digit = refl

-- The ping of the database is call 17.
new_deploy_consumer-Closed_example :
    (live (new_deploy_consumer (failing_at 17) config start).1.log
      ≡ some (outcome [] holdings (new_deploy_consumer (failing_at 17) config start).0))
    × ((c : Opened)
        → (new_deploy_consumer (failing_at 17) config start).0 ≡ ok c
        → live
            (close_consumer
              (failing_at 17)
              c
              (new_deploy_consumer (failing_at 17) config start).1).1.log
          ≡ some [])
unfolding live
new_deploy_consumer-Closed_example = new_deploy_consumer-Closed (failing_at 17) config start refl

-- What the start-up opens where no call fails.
abbrev opened : Opened
opened = record { conn = some 0; ch = some 1; pub_ch = some 11; ledger = some 16 }

new_deploy_consumer-declares_example :
    (is_declared config.dlq (new_deploy_consumer (failing_at 100) config start).1.log ≡ true)
    × ((attempt : ℤ)
        → leb_ℤ (pos 0) attempt ≡ true
        → 0 < length config.retry_backoffs
        → is_declared
            (retry_queue config attempt)
            (new_deploy_consumer (failing_at 100) config start).1.log
          ≡ true)
unfolding new_deploy_consumer matches_schema call open_new
new_deploy_consumer-declares_example =
    new_deploy_consumer-declares (failing_at 100) config start opened refl
