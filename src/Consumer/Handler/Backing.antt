-- ===== src/Consumer/Handler/Backing.antt =====
-- What it means that a service event in the log is backed by the ledger.
use orchestration_service.Base.{◌≡◌, ◌⊎◌, Option, none, some, List, [], ◌∷◌, inl, inr, refl}
use orchestration_service.Text.{Text}
use orchestration_service.Json.{Json}
use orchestration_service.Config.{Config}
use orchestration_service.Ledger.{StageRecord, StageState, in_progress, completed, failed}
use orchestration_service.Events.Build.{orchestration_stage}
use orchestration_service.Events.Stored.{make_deploy_result_events, result_json}
use orchestration_service.Consumer.World.{
  World, Effect, published, persisted, service_publish, read_back, row_effect,
}
use orchestration_service.Consumer.Rows.{Held, run-HasRow}
use orchestration_service.Consumer.Rules.{Endures}
use orchestration_service.Consumer.Handler.Written.{Ending, well, badly, state_of}

-- The log's newest entry is a statement that has left the deployment's row in this state, with a result
-- that holds the event under this key.
abbrev pub JustWritten : Text → StageState → Text → Json → List Effect → Type 0
JustWritten id state key event log =
    (pk : Text) × (pj : Json) × (before : List Effect) × (log
      ≡ persisted id state (result_json (make_deploy_result_events key event pk pj)) ∷ before)

-- An event under the key of deploy.succeeded has a completed row behind it, one under the key of
-- deploy.failed a failed row.
abbrev pub JustSettled : Config → Text → Text → Json → List Effect → Type 0
JustSettled cfg id key event log =
    ((key ≡ cfg.deploy_succeeded_routing_key) × JustWritten id completed key event log)
    ⊎ ((key ≡ cfg.deploy_failed_routing_key) × JustWritten id failed key event log)

abbrev pub Backs : Config → Text → Effect → List Effect → Type 0
Backs cfg id (published service_publish x key event) log = JustSettled cfg id key event log
Backs cfg id _ log = Unit

-- Every service event in the log was published right after the row of this deployment took the result
-- that holds it.
abbrev pub Backed : Config → Text → List Effect → Type 0
Backed cfg id [] = Unit
Backed cfg id (e ∷ log) = Backs cfg id e log × Backed cfg id log

-- The stage of the deployment has a row, and its service events are backed.
abbrev pub IsBacked : Config → Text → World → Type 0
IsBacked cfg id w = Held id w × Backed cfg id w.log

pub IsBacked-endures : (cfg : Config) (id : Text) → Endures (IsBacked cfg id)
IsBacked-endures cfg id w calls n (held, q) =
    (run-HasRow w.ledger calls id orchestration_stage held, q)

row_effect-Backs :
    (cfg : Config) (d id : Text) (s : StageState) (v : Option Json) (log : List Effect)
    → Backs cfg d (row_effect id s v) log
unfolding row_effect
row_effect-Backs cfg d id in_progress v log = tt
row_effect-Backs cfg d id completed none log = tt
row_effect-Backs cfg d id completed (some v) log = tt
row_effect-Backs cfg d id failed none log = tt
row_effect-Backs cfg d id failed (some v) log = tt

pub read_back-Backs :
    (cfg : Config) (d id : Text) (row : Option StageRecord) (log : List Effect)
    → Backs cfg d (read_back id row) log
unfolding read_back
read_back-Backs cfg d id none log = tt
read_back-Backs cfg d id (some r) log = row_effect-Backs cfg d id r.state r.result_json log

abbrev pub key_of : Config → Ending → Text
key_of cfg well = cfg.deploy_succeeded_routing_key
key_of cfg badly = cfg.deploy_failed_routing_key

pub JustWritten-settled :
    (cfg : Config) (id : Text) (s : Ending) (j : Json) (log : List Effect)
    → JustWritten id (state_of s) (key_of cfg s) j log
    → JustSettled cfg id (key_of cfg s) j log
JustWritten-settled cfg id well j log h = inl (refl, h)
JustWritten-settled cfg id badly j log h = inr (refl, h)
