-- ===== src/Config/Tests.antt =====
-- The settings on concrete environments.
use orchestration_service.Base.{◌≡◌, refl, Option, none, some, [], ◌∷◌, if◌then◌else◌}
use orchestration_service.Base.Int.{ℤ, pos, negsuc}
use orchestration_service.Text.{Text, codes, text_eq, trim, trim_space}
use orchestration_service.Config.Load.{
  seconds, env_int32_or_default, env_durations_or_default, default_backoffs, load_config, atoi,
  split_commas, durations,
}
use orchestration_service.Config.Ready.{IsReady, load_config-IsReady}

-- It reads "5s" alone.
abbrev five_seconds : Text → Option ℤ
five_seconds t = if text_eq t (codes "5s") then some (seconds 5) else none

env_durations_or_default_run :
    env_durations_or_default
      (λ key. codes "5s, 5s")
      five_seconds
      (codes "K")
      (default_backoffs (λ key. []) five_seconds)
    ≡ seconds 5 ∷ seconds 5 ∷ []
unfolding env_durations_or_default split_commas durations trim_space trim text_eq
env_durations_or_default_run = refl

-- A number beyond 2^31 - 1 passes the test and wraps.
env_int32_or_default_run :
    env_int32_or_default (λ key. codes "2147483648") five_seconds (codes "K") (pos 5)
    ≡ negsuc 2147483647
unfolding env_int32_or_default atoi trim_space trim
env_int32_or_default_run = refl

load_config-IsReady_example : IsReady (load_config (λ key. codes "5s") five_seconds)
load_config-IsReady_example = load_config-IsReady (λ key. codes "5s") five_seconds
