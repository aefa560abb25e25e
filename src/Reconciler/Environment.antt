-- ===== src/Reconciler/Environment.antt =====
-- The environment of the pods: `platformPortEnv`.
use orchestration_service.Base.{
  ◌≡◌, refl, ap, arith, Bool, true, false, ◌||◌, ◌++◌, Option, none, some, List, [], ◌∷◌, map,
  if◌then◌else◌,
}
use orchestration_service.Base.Int.{ℤ}
use orchestration_service.Text.{Text, codes, text_eq, decimal}
use orchestration_service.Text.Equality.{text_eq_self, text_eq→eq}
use orchestration_service.Names.{EnvVar, DeployRequest}
use orchestration_service.Reconciler.Desired.{
  is_reserved, is_seen, user_env, port_vars, platform_port_env,
}

-- The value of the first variable of a name.
unfoldable pub find_env : Text → List EnvVar → Option Text
find_env n [] = none
find_env n (v ∷ rest) = if text_eq v.name n then some v.value else find_env n rest

abbrev pub env_names : List EnvVar → List Text
env_names = map (λ v. v.name)

-- No name stands twice.
abbrev pub IsDistinct : List Text → Type 0
IsDistinct [] = Unit
IsDistinct (n ∷ names) = (is_seen n names ≡ false) × IsDistinct names

same_on : (f : Text → Bool) (a b : Text) → text_eq a b ≡ true → f a ≡ f b
same_on f a b h = ap f (text_eq→eq a b h)

find_env-user_env :
    (n : Text) (seen : List Text) (env : List EnvVar)
    → find_env n (user_env seen env)
      ≡ (if is_reserved n || is_seen n seen then none else find_env n env)
unfolding find_env user_env is_seen
find_env-user_env n seen [] = ground arith
find_env-user_env n seen (v ∷ rest) = ground (
  arith,
  find_env-user_env n seen rest,
  find_env-user_env n (v.name ∷ seen) rest,
  same_on is_reserved v.name n,
  same_on (λ s. is_seen s seen) v.name n,
)

is_seen-env_names :
    (n : Text) (env : List EnvVar) → find_env n env ≡ none → is_seen n (env_names env) ≡ false
unfolding find_env is_seen
is_seen-env_names n [] h = refl
is_seen-env_names n (v ∷ rest) h = ground (arith, is_seen-env_names n rest)

elim_IsDistinct :
    (b c : Bool) (skipped kept : List EnvVar)
    → IsDistinct (env_names skipped)
    → IsDistinct (env_names kept)
    → IsDistinct
        (env_names (elim b [ true ↦ skipped | false ↦ elim c [ true ↦ skipped | false ↦ kept ] ]))
elim_IsDistinct true c skipped kept p q = p
elim_IsDistinct false true skipped kept p q = p
elim_IsDistinct false false skipped kept p q = q

user_env-IsDistinct :
    (seen : List Text) (env : List EnvVar) → IsDistinct (env_names (user_env seen env))
unfolding user_env is_seen
user_env-IsDistinct seen [] = tt
user_env-IsDistinct seen (v ∷ rest) =
    elim_IsDistinct (is_reserved v.name) (is_seen v.name seen) (user_env seen rest)
      (v ∷ user_env (v.name ∷ seen) rest) (user_env-IsDistinct seen rest)
      (
        is_seen-env_names v.name (user_env (v.name ∷ seen) rest)
            (ground (arith, find_env-user_env v.name (v.name ∷ seen) rest, text_eq_self v.name)),
        user_env-IsDistinct (v.name ∷ seen) rest,
      )

find_env-append :
    (n : Text) (a b : List EnvVar)
    → find_env n (a ++ b) ≡ (elim (find_env n a) [ none ↦ find_env n b | some v ↦ some v ])
unfolding find_env
find_env-append n [] b = refl
find_env-append n (v ∷ a) b = ground (arith, find_env-append n a b)

is_seen-append :
    (n : Text) (a b : List EnvVar)
    → is_seen n (env_names (a ++ b)) ≡ (is_seen n (env_names a) || is_seen n (env_names b))
unfolding is_seen
is_seen-append n [] b = refl
is_seen-append n (v ∷ a) b = ground (arith, is_seen-append n a b)

text_eq_comm : (a b : Text) → text_eq a b ≡ text_eq b a
unfolding text_eq
text_eq_comm [] [] = refl
text_eq_comm [] (d ∷ b) = refl
text_eq_comm (c ∷ a) [] = refl
text_eq_comm (c ∷ a) (d ∷ b) = ground (arith, text_eq_comm a b)

append-IsDistinct :
    (a b : List EnvVar)
    → IsDistinct (env_names a)
    → IsDistinct (env_names b)
    → ((n : Text) → is_seen n (env_names a) ≡ true → is_seen n (env_names b) ≡ false)
    → IsDistinct (env_names (a ++ b))
unfolding is_seen
append-IsDistinct [] b p q h = q
append-IsDistinct (v ∷ a) b (x, p) q h = (
  ground (arith, is_seen-append v.name a b, h v.name, text_eq_self v.name),
  append-IsDistinct a b p q (λ n s. h n (ground arith)),
)

find_env-port_vars :
    (port : ℤ) (n : Text)
    → find_env n (port_vars port) ≡ (if is_reserved n then some (decimal port) else none)
unfolding find_env
find_env-port_vars port n =
    ground (arith, text_eq_comm n (codes "PORT"), text_eq_comm n (codes "SERVER_PORT"))

-- Reserved names are not among the user's.
reserved_names :
    (seen : List Text) (env : List EnvVar) (port : ℤ) (n : Text)
    → is_seen n (env_names (user_env seen env)) ≡ true
    → is_seen n (env_names (port_vars port)) ≡ false
reserved_names seen env port n s = is_seen-env_names n (port_vars port) (
    ground (
      arith,
      s,
      find_env-port_vars port n,
      find_env-user_env n seen env,
      is_seen-env_names n (user_env seen env),
    ))

port_vars-IsDistinct : (port : ℤ) → IsDistinct (env_names (port_vars port))
unfolding is_seen text_eq
port_vars-IsDistinct port = (refl, (refl, tt))

-- The environment of the pods has each name once; `PORT` and `SERVER_PORT` have the port as their value,
-- and any other name has the value of the first variable of that name in the request, if there is one.
pub platform_port_env-IsDistinct :
    (request : DeployRequest) (port : ℤ)
    → IsDistinct (env_names (platform_port_env request port))
      × ((n : Text)
          → find_env n (platform_port_env request port)
            ≡ (if is_reserved n then some (decimal port) else find_env n request.environment))
unfolding platform_port_env is_seen
platform_port_env-IsDistinct request port = (
  append-IsDistinct (user_env [] request.environment) (port_vars port)
      (user_env-IsDistinct [] request.environment) (port_vars-IsDistinct port)
      (reserved_names [] request.environment port),
  λ n. ground (
    arith,
    find_env-append n (user_env [] request.environment) (port_vars port),
    find_env-user_env n [] request.environment,
    find_env-port_vars port n,
  ),
)
