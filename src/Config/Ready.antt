-- ===== src/Config/Ready.antt =====
-- What the consumer relies on in the settings that `loadConfig` returns.
use orchestration_service.Base.{
  ◌<◌, ◌≡◌, ◌≢◌, refl, subst, Bool, true, false, Option, none, some, List, [], ◌∷◌, length, All,
  if◌then◌else◌, arith,
}
use orchestration_service.Base.Int.{ℤ, pos, leb_ℤ, ltb_ℤ}
use orchestration_service.Text.{Text, codes, trim_space}
use orchestration_service.Config.{Config}
use orchestration_service.Config.Load.{
  split_commas, positive, or_else, put, durations, default_backoffs, env_duration_or_default,
  env_durations_or_default, settings, load_config,
}

abbrev pub IsPositive : ℤ → Type 0
IsPositive d = ltb_ℤ (pos 0) d ≡ true

-- A schedule of backoffs: one at least, and all positive.
abbrev pub IsSchedule : List ℤ → Type 0
IsSchedule ds = (0 < length ds) × All IsPositive ds

pub record IsReady (cfg : Config) : Type 0 where
  pub schedule : IsSchedule cfg.retry_backoffs
  pub rollout : IsPositive cfg.rollout_timeout
  pub poll : IsPositive cfg.rollout_poll_interval

split_commas-ne_nil : (s : Text) → split_commas s ≢ []
unfolding split_commas
split_commas-ne_nil [] h = cc
split_commas-ne_nil (c ∷ s) h = ground arith

module _ (get_env : Text → Text) (parse_duration : Text → Option ℤ) where
  env_duration_or_default-IsPositive :
      (key : Text) (fallback : ℤ)
      → IsPositive fallback
      → IsPositive (env_duration_or_default get_env parse_duration key fallback)
  unfolding env_duration_or_default
  env_duration_or_default-IsPositive key fallback h = ground arith

  put-IsSchedule :
      (o : Option ℤ) (rest : Option (List ℤ)) (ds : List ℤ)
      → put get_env parse_duration (positive get_env parse_duration o) rest ≡ some ds
      → ((es : List ℤ) → rest ≡ some es → All IsPositive es)
      → IsSchedule ds
  put-IsSchedule none rest ds e h = cc
  put-IsSchedule (some d) rest ds e h = go (leb_ℤ d (pos 0)) refl rest e h
    where
      go :
          (b : Bool)
          → leb_ℤ d (pos 0) ≡ b
          → (rest : Option (List ℤ))
          → put get_env parse_duration (if b then none else some d) rest ≡ some ds
          → ((es : List ℤ) → rest ≡ some es → All IsPositive es)
          → IsSchedule ds
      go true k rest e h = cc
      go false k none e h = cc
      go false k (some es) e h =
          subst IsSchedule (same e) (omega arith, (ground (arith, k), h es refl))
        where
          same : some (d ∷ es) ≡ some ds → d ∷ es ≡ ds
          same e = cc

  durations-IsPositive :
      (parts : List Text) (ds : List ℤ)
      → durations get_env parse_duration parts ≡ some ds
      → All IsPositive ds
  unfolding durations
  durations-IsPositive [] ds e = subst (All IsPositive) (same e) tt
    where
      same : some [] ≡ some ds → [] ≡ ds
      same e = cc
  durations-IsPositive (part ∷ parts) ds e =
      (put-IsSchedule (parse_duration (trim_space part)) (durations get_env parse_duration parts) ds
        e λ es k. durations-IsPositive parts es k).1

  durations-IsSchedule :
      (parts : List Text) (ds : List ℤ)
      → parts ≢ []
      → durations get_env parse_duration parts ≡ some ds
      → IsSchedule ds
  unfolding durations
  durations-IsSchedule [] ds n e = absurd (n refl)
  durations-IsSchedule (part ∷ parts) ds n e =
      put-IsSchedule (parse_duration (trim_space part)) (durations get_env parse_duration parts) ds
        e λ es k. durations-IsPositive parts es k

  or_else-IsSchedule :
      (o : Option (List ℤ)) (fallback : List ℤ)
      → IsSchedule fallback
      → ((ds : List ℤ) → o ≡ some ds → IsSchedule ds)
      → IsSchedule (or_else get_env parse_duration fallback o)
  or_else-IsSchedule none fallback f h = f
  or_else-IsSchedule (some ds) fallback f h = h ds refl

  if-IsSchedule :
      (b : Bool) (ds es : List ℤ)
      → IsSchedule ds
      → IsSchedule es
      → IsSchedule (if b then ds else es)
  if-IsSchedule true ds es h k = h
  if-IsSchedule false ds es h k = k

  env_durations_or_default-IsSchedule :
      (key : Text) (fallback : List ℤ)
      → IsSchedule fallback
      → IsSchedule (env_durations_or_default get_env parse_duration key fallback)
  unfolding env_durations_or_default
  env_durations_or_default-IsSchedule key fallback h =
      let parts = split_commas (trim_space (get_env key)) in
      if-IsSchedule _ _ _ h (
        or_else-IsSchedule (durations get_env parse_duration parts) fallback h
          λ ds e. durations-IsSchedule parts ds (split_commas-ne_nil (trim_space (get_env key))) e)

  -- Whatever the environment and the reading of durations: the settings have a backoff at least, all
  -- backoffs are positive, and so are the rollout timeout and the poll interval.
  pub load_config-IsReady : IsReady (load_config get_env parse_duration)
  unfolding load_config settings
  load_config-IsReady = record {
    schedule =
        env_durations_or_default-IsSchedule (codes "RETRY_BACKOFF_SCHEDULE")
          (default_backoffs get_env parse_duration)
          (omega arith, (refl, (refl, (refl, (refl, tt)))));
    rollout = env_duration_or_default-IsPositive (codes "K8S_ROLLOUT_TIMEOUT") _ refl;
    poll = env_duration_or_default-IsPositive (codes "K8S_ROLLOUT_POLL_INTERVAL") _ refl;
  }
