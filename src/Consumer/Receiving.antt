-- ===== src/Consumer/Receiving.antt =====
-- `Start`: the loop over the deliveries of the queue.
use orchestration_service.Base.{◌≡◌, refl, Option, none, some, List, [], ◌∷◌}
use orchestration_service.Text.{codes}
use orchestration_service.Errors.{GoError, plain, wrapped}
use orchestration_service.Consumer.World.{Environment, Consumer, World, Effect, M, ◌>>◌, pure}
use orchestration_service.Consumer.Delivery.{Delivery, process_delivery}
use orchestration_service.Consumer.Delivery.Settled.{SettledOnce, process_delivery-SettledOnce}

module _ (env : Environment) (c : Consumer) where
  -- `for msg := range msgs`, until the channel is closed.
  unfoldable pub receive_all : List Delivery → M (Unit {0})
  receive_all [] = pure tt
  receive_all (msg ∷ msgs) = let rest = receive_all msgs in process_delivery env c msg >> rest

  -- With the error of `Consume` and the deliveries that come until the channel is closed.
  unfoldable pub start_consumer : Option GoError → List Delivery → M GoError
  unfolding receive_all
  start_consumer (some e) msgs = pure (wrapped (codes "consume queue: ") e)
  start_consumer none msgs =
      receive_all msgs >> pure (plain (codes "rabbitmq consumer channel closed"))

-- `after` is the log once the deliveries have been handled from `w` on, one after the other, each in the
-- world that the one before it left and each settled by one ack or nack, its last effect.
abbrev pub EachSettled : Environment → Consumer → List Delivery → World → List Effect → Type 0
EachSettled env c [] w after = after ≡ w.log
EachSettled env c (msg ∷ msgs) w after =
    SettledOnce w.log (process_delivery env c msg w).1.log
    × EachSettled env c msgs (process_delivery env c msg w).1 after

receive_all-EachSettled :
    (env : Environment) (c : Consumer) (msgs : List Delivery) (w : World)
    → EachSettled env c msgs w (receive_all env c msgs w).1.log
unfolding receive_all
receive_all-EachSettled env c [] w = refl
receive_all-EachSettled env c (msg ∷ msgs) w = (
  process_delivery-SettledOnce env c msg w,
  receive_all-EachSettled env c msgs (process_delivery env c msg w).1,
)

-- The loop handles the deliveries in their order, each in the world that the one before it left, whatever
-- they are and whatever the broker, the database and the cluster answer: the handling of each ends with
-- one ack or nack, with no other before it and no panic. A loop that cannot start leaves the log as it was.
pub start_consumer-settles :
    (env : Environment) (c : Consumer) (refused : Option GoError) (msgs : List Delivery) (w : World)
    → ((refused ≡ none) → EachSettled env c msgs w (start_consumer env c refused msgs w).1.log)
      × ((e : GoError) → refused ≡ some e → (start_consumer env c refused msgs w).1.log ≡ w.log)
unfolding start_consumer
start_consumer-settles env c none msgs w = ((λ p. receive_all-EachSettled env c msgs w), λ e p. cc)
start_consumer-settles env c (some e') msgs w = ((λ p. cc), λ e p. refl)
