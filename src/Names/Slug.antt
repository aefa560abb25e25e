-- ===== src/Names/Slug.antt =====
-- The shape of a DNS label, `[a-z0-9]+(-[a-z0-9]+)*`, as an automaton, and how it meets trimming,
-- cutting and joining.
use orchestration_service.Base.{
  ℕ, zero, suc, ◌≤◌, ◌≡◌, refl, Bool, true, false, not, ◌&&◌, ◌⊎◌, inl, inr, [], ◌∷◌, length, take,
  leb, arith, Bool-cases, if◌then◌else◌, length-take-le,
}
use orchestration_service.Text.{Text, is_empty, trim_left, trim_right, trim}
use orchestration_service.Text.Trim.{length-trim-le}
use orchestration_service.Names.{is_dash, is_alnum, label_limit, join_dash, truncate_dns_label}

-- `after_dash` says that a letter or digit has to come next.
unfoldable pub slug_from : Bool → Text → Bool
slug_from after_dash [] = not after_dash
slug_from after_dash (c ∷ s) = elim (is_alnum c) [
  | true ↦ slug_from false s
  | false ↦ if is_dash c && not after_dash then slug_from true s else false
]

abbrev pub IsSlug : Text → Type 0
IsSlug s = slug_from true s ≡ true

-- A DNS label: one to 63 lower-case letters, digits and single dashes inside.
pub record IsLabel (s : Text) : Type 0 where
  pub slug : IsSlug s
  pub fits : length s ≤ label_limit

pub slug-weaken : (s : Text) → IsSlug s → slug_from false s ≡ true
unfolding slug_from
slug-weaken [] h = refl
slug-weaken (c ∷ s) h = ground arith

pub IsSlug-ne-nil : (s : Text) → IsSlug s → is_empty s ≡ false
unfolding slug_from
IsSlug-ne-nil [] h = cc
IsSlug-ne-nil (c ∷ s) h = refl

trim_left-slug : (s : Text) → IsSlug s → trim_left is_dash s ≡ s
unfolding slug_from trim_left
trim_left-slug [] h = refl
trim_left-slug (c ∷ s) h = ground arith

trim_right-slug : (d : Bool) (s : Text) → slug_from d s ≡ true → trim_right is_dash s ≡ s
unfolding slug_from trim_right
trim_right-slug d [] h = refl
trim_right-slug d (c ∷ s) h =
    ground (arith, trim_right-slug false s, trim_right-slug true s, IsSlug-ne-nil s)

pub trim-slug : (s : Text) → IsSlug s → trim is_dash s ≡ s
unfolding trim
trim-slug s h = rw (trim_left-slug s h) (trim_right-slug true s h)

-- What is left of the first `n` characters once a last dash is cut off: a slug, or nothing.
abbrev Cut : Bool → Text → Type 0
Cut false o = slug_from false o ≡ true
Cut true o = (o ≡ []) ⊎ IsSlug o

pub Cut-take :
    (d : Bool) (n : ℕ) (s : Text) → slug_from d s ≡ true → Cut d (trim_right is_dash (take n s))
unfolding slug_from trim_right
Cut-take false zero s h = refl
Cut-take true zero s h = inl refl
Cut-take false (suc n) [] h = refl
Cut-take true (suc n) [] h = inl refl
Cut-take false (suc n) (c ∷ s) h =
    ground
      (arith, Cut-take false n s, Cut-take true n s, IsSlug-ne-nil (trim_right is_dash (take n s)))
Cut-take true (suc n) (c ∷ s) h = ground (arith, Cut-take false n s)

-- A slug is cut to a slug.
IsSlug-take : (n : ℕ) (s : Text) → IsSlug s → IsSlug (trim_right is_dash (take (suc n) s))
unfolding slug_from trim_right
IsSlug-take n [] h = cc
IsSlug-take n (c ∷ s) h = ground (arith, Cut-take false n s)

take-slug : (n : ℕ) (s : Text) → IsSlug s → trim_left is_dash (take (suc n) s) ≡ take (suc n) s
unfolding slug_from trim_left
take-slug n [] h = cc
take-slug n (c ∷ s) h = ground arith

trim-take-IsSlug : (n : ℕ) (s : Text) → IsSlug s → IsSlug (trim is_dash (take (suc n) s))
unfolding trim
trim-take-IsSlug n s h = rw (take-slug n s h) (IsSlug-take n s h)

-- A slug of any length is truncated to a label.
pub truncate_dns_label-IsLabel : (s : Text) → IsSlug s → IsLabel (truncate_dns_label s)
unfolding truncate_dns_label
truncate_dns_label-IsLabel s h = elim (Bool-cases (leb (length s) label_limit)) [
  | inl short ↦ rw (trim-slug s h, short) (record { slug = h; fits = ground arith })
  | inr long ↦
      rw (trim-slug s h, long)
        (record {
          slug = trim-take-IsSlug 62 s h;
          fits = omega (arith, length-trim-le is_dash (take 63 s), length-take-le 63 s);
        })
]

-- A label is not changed by truncation.
pub truncate_dns_label-label : (s : Text) → IsLabel s → truncate_dns_label s ≡ s
unfolding truncate_dns_label
truncate_dns_label-label s h = rw (trim-slug s h.slug) (ground arith)

slug_from-join :
    (d : Bool) (a b : Text) → slug_from d a ≡ true → IsSlug b → slug_from d (join_dash a b) ≡ true
unfolding slug_from
slug_from-join false [] b h k = ground arith
slug_from-join true [] b h k = cc
slug_from-join d (c ∷ a) b h k = ground (arith, slug_from-join false a b, slug_from-join true a b)

-- Two slugs joined by a dash make a slug.
pub join_dash-IsSlug : (a b : Text) → IsSlug a → IsSlug b → IsSlug (join_dash a b)
join_dash-IsSlug a b = slug_from-join true a b
