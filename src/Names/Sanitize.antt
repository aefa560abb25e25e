-- ===== src/Names/Sanitize.antt =====
-- `sanitizeDNSLabel`: the shape of its result.
use orchestration_service.Base.{
  ℕ, ◌≡◌, refl, Bool, true, false, ◌&&◌, ◌||◌, ◌⊎◌, [], ◌∷◌, All, arith,
}
use orchestration_service.Text.{Text, is_space, trim_left, trim_right, trim, trim_space, to_lower}
use orchestration_service.Text.Trim.{trim-keep}
use orchestration_service.Names.{is_dash, dash_runs, or_fallback, sanitize_dns_label}
use orchestration_service.Names.Slug.{
  slug_from, IsSlug, IsLabel, IsSlug-ne-nil, trim-slug, truncate_dns_label-IsLabel,
  truncate_dns_label-label,
}

-- What the loop writes next, its last dash cut off, continues a slug.
abbrev Goes : Bool → Text → Type 0
Goes after_dash o = ((after_dash ≡ true) × (o ≡ [])) ⊎ (slug_from after_dash o ≡ true)

Goes-dash_runs :
    (text : Text) (blank last : Bool)
    → (blank && last) ≡ false
    → Goes (blank || last) (trim_right is_dash (dash_runs text blank last))
unfolding dash_runs trim_right slug_from
Goes-dash_runs [] true last h = ground arith
Goes-dash_runs [] false last h = ground arith
Goes-dash_runs (r ∷ text) blank last h = ground (
  arith,
  Goes-dash_runs text false false,
  Goes-dash_runs text false true,
  Goes-dash_runs text blank last,
  IsSlug-ne-nil (trim_right is_dash (dash_runs text false true)),
)

-- The loop never begins with a dash.
trim_left-dash_runs :
    (text : Text) (last : Bool)
    → trim_left is_dash (dash_runs text true last) ≡ dash_runs text true last
unfolding dash_runs trim_left
trim_left-dash_runs [] last = refl
trim_left-dash_runs (r ∷ text) last = ground (arith, trim_left-dash_runs text last)

-- The text that is truncated is a slug, if the fallback is one.
or_fallback-IsSlug :
    (text fallback : Text)
    → IsSlug fallback
    → IsSlug (or_fallback (trim is_dash (dash_runs text true false)) fallback)
unfolding trim
or_fallback-IsSlug text fallback h =
    rw (trim_left-dash_runs text false) (ground (arith, Goes-dash_runs text true false refl))

-- Whatever the value, the result is a DNS label, if the fallback is a slug.
pub sanitize_dns_label-IsLabel :
    (table : ℕ → ℕ) (value fallback : Text)
    → IsSlug fallback
    → IsLabel (sanitize_dns_label table value fallback)
unfolding sanitize_dns_label
sanitize_dns_label-IsLabel table value fallback h =
    let text = or_fallback (to_lower table (trim_space value)) fallback in
    truncate_dns_label-IsLabel (or_fallback (trim is_dash (dash_runs text true false)) fallback)
      (or_fallback-IsSlug text fallback h)

-- The loop copies a slug.
dash_runs-slug :
    (s : Text) (blank last : Bool) → slug_from (blank || last) s ≡ true → dash_runs s blank last ≡ s
unfolding dash_runs slug_from
dash_runs-slug [] blank last h = refl
dash_runs-slug (c ∷ s) blank last h =
    ground (arith, dash_runs-slug s false false, dash_runs-slug s false true)

slug-not-space : (d : Bool) (s : Text) → slug_from d s ≡ true → All (λ c. is_space c ≡ false) s
unfolding slug_from is_space
slug-not-space d [] h = tt
slug-not-space d (c ∷ s) h = ground (arith, slug-not-space false s, slug-not-space true s)

to_lower-slug : (table : ℕ → ℕ) (d : Bool) (s : Text) → slug_from d s ≡ true → to_lower table s ≡ s
unfolding slug_from to_lower
to_lower-slug table d [] h = refl
to_lower-slug table d (c ∷ s) h =
    ground (arith, to_lower-slug table false s, to_lower-slug table true s)

-- A label is given back unchanged, whatever the fallback.
pub sanitize_dns_label-label :
    (table : ℕ → ℕ) (s fallback : Text) → IsLabel s → sanitize_dns_label table s fallback ≡ s
unfolding sanitize_dns_label trim_space
sanitize_dns_label-label table s fallback h =
    rw
      (
        trim-keep is_space s (slug-not-space true s h.slug),
        to_lower-slug table true s h.slug,
        IsSlug-ne-nil s h.slug,
        dash_runs-slug s true false h.slug,
        trim-slug s h.slug,
        IsSlug-ne-nil s h.slug,
      )
      (truncate_dns_label-label s h)

-- Where the first fallback is a slug, sanitizing twice is sanitizing once, whatever the second fallback.
pub sanitize_dns_label_idem :
    (table : ℕ → ℕ) (value fallback other : Text)
    → IsSlug fallback
    → sanitize_dns_label table (sanitize_dns_label table value fallback) other
      ≡ sanitize_dns_label table value fallback
sanitize_dns_label_idem table value fallback other h =
    sanitize_dns_label-label table _ other (sanitize_dns_label-IsLabel table value fallback h)
