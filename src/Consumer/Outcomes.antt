-- ===== src/Consumer/Outcomes.antt =====
-- Rules for what the results of a piece of the consumer satisfy, whatever the world.
use orchestration_service.Base.{Bool, true, false, Option, none, some, if◌then◌else◌}
use orchestration_service.Errors.{GoError}
use orchestration_service.Consumer.World.{World, M, ◌>>=◌, pure, branch, check}

-- Whatever the world, the result of `m` satisfies `P`.
pub record Yields {A : Type 0} (P : A → Type 0) (m : M A) : Type 0 where
  pub at : (w : World) → P (m w).0

module _ {A : Type 0} (P : A → Type 0) where
  pub Yields-pure : (a : A) → P a → Yields P (pure a)
  Yields-pure a p = record { at = λ w. p }

  pub Yields-bind :
      {B : Type 0} (m : M B) (f : B → M A) → ((b : B) → Yields P (f b)) → Yields P (m >>= f)
  Yields-bind m f k = record { at = λ w. (k (m w).0).at (m w).1 }

  Yields-branch :
      (handler : GoError → M A) (next : M A)
      → ((err : GoError) → Yields P (handler err))
      → Yields P next
      → (e : Option GoError) → Yields P (branch handler next e)
  Yields-branch handler next kh kn none = kn
  Yields-branch handler next kh kn (some err) = kh err

  pub Yields-check :
      (m : M (Option GoError)) (handler : GoError → M A) (next : M A)
      → ((err : GoError) → Yields P (handler err))
      → Yields P next
      → Yields P (check m handler next)
  Yields-check m handler next kh kn =
      Yields-bind m (branch handler next) (Yields-branch handler next kh kn)

  pub Yields-if : (b : Bool) (m n : M A) → Yields P m → Yields P n → Yields P (if b then m else n)
  Yields-if true m n km kn = km
  Yields-if false m n km kn = kn

pub ruleset yields_rules = (Yields-bind, Yields-pure, Yields-check, Yields-if)
