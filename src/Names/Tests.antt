-- ===== src/Names/Tests.antt =====
-- Names on concrete input.
use orchestration_service.Base.{◌≡◌, refl}
use orchestration_service.Config.Samples.{config}
use orchestration_service.Names.Samples.{no_table, request, shop, target_for_request_run}
use orchestration_service.Text.{codes, trim, trim_space, to_lower}
use orchestration_service.Names.{sanitize_dns_label, clean_domain, target_for_request}
use orchestration_service.Names.Slug.{IsLabel}
use orchestration_service.Names.Sanitize.{sanitize_dns_label-IsLabel, sanitize_dns_label_idem}
use orchestration_service.Names.Targets.{
  fallbacks_are_slugs, IsDeployable, target_for_request-IsDeployable, target_for_request-sanitized,
}

sanitize_dns_label_run :
    sanitize_dns_label no_table (codes " My__Shop! ") (codes "project") ≡ codes "my-shop"
unfolding sanitize_dns_label trim trim_space to_lower
sanitize_dns_label_run = refl

sanitize_dns_label_fallback :
    sanitize_dns_label no_table (codes "--") (codes "service") ≡ codes "service"
unfolding sanitize_dns_label trim trim_space to_lower
sanitize_dns_label_fallback = refl

sanitize_dns_label-IsLabel_example :
    IsLabel (sanitize_dns_label no_table (codes "A b") (codes "project"))
sanitize_dns_label-IsLabel_example =
    sanitize_dns_label-IsLabel no_table (codes "A b") (codes "project") fallbacks_are_slugs.0

sanitize_dns_label_idem_example :
    sanitize_dns_label no_table
      (sanitize_dns_label no_table (codes "A b") (codes "project"))
      (codes "x")
    ≡ sanitize_dns_label no_table (codes "A b") (codes "project")
sanitize_dns_label_idem_example =
    sanitize_dns_label_idem no_table (codes "A b") (codes "project") (codes "x")
      fallbacks_are_slugs.0

target_for_request-IsDeployable_example :
    IsDeployable (clean_domain no_table config.base_domain) shop
target_for_request-IsDeployable_example =
    target_for_request-IsDeployable no_table config request shop target_for_request_run

target_for_request-sanitized_example :
    target_for_request no_table config (record request {
      project_slug = sanitize_dns_label no_table request.project_slug (codes "project");
      service_slug = sanitize_dns_label no_table request.service_slug (codes "service");
    })
    ≡ target_for_request no_table config request
target_for_request-sanitized_example = target_for_request-sanitized no_table config request
