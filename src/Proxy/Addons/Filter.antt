-- ===== src/Proxy/Addons/Filter.antt =====
-- internal/proxy/addons/url_filter.go: the URL rules and the shared categories.
use gowebfilter.Base.{true, false, ◌||◌, not, Option, none, some, if◌then◌else◌, Bytes, codes}
use gowebfilter.Models.Policy.{Policy, UrlFilterConfig}
use gowebfilter.Proxy.Addons.Env.{Env}
use gowebfilter.Proxy.Flow.{block}
use gowebfilter.Proxy.HostGate.{
  CategoryDecision, category_allowed, category_blocked, category_none, category_verdict,
}
use gowebfilter.Proxy.Matching.{any_panic, url_matches}
use gowebfilter.Proxy.Pipeline.{Addon, Hook}

module _ (env : Env) where
  abbrev pub block_flow : Bytes → Hook
  block_flow reason fc =
      some (block env.render env.runtime.settings.ui_language reason (codes "url_filter") fc)

  abbrev pub apply_category : CategoryDecision × Bytes → Hook
  apply_category (category_none, reason) fc = some fc
  apply_category (category_allowed, reason) fc = some (record fc { url_allowed = true })
  apply_category (category_blocked, reason) fc = block_flow reason fc

  -- The rules of a policy whose URL filter is on.
  unfoldable pub filter_rules : UrlFilterConfig → Hook
  unfolding any_panic block
  filter_rules cfg fc =
      elim (any_panic (url_matches env.regexp fc.request.hostname fc.request.url) cfg.allow) [
        | none ↦ none
        | some true ↦ some (record fc { url_allowed = true })
        | some false ↦
            elim (any_panic (url_matches env.regexp fc.request.hostname fc.request.url) cfg.block) [
              | none ↦ none
              | some true ↦ block_flow (codes "URL blocked by policy") fc
              | some false ↦
                  apply_category (category_verdict env.runtime.categories fc.request.hostname cfg)
                    fc
            ]
      ]

  abbrev pub filter_for : Option Policy → Hook
  filter_for none fc = some fc
  filter_for (some p) fc =
      if not p.url_filter.enabled || fc.mitm_passthrough
      then some fc
      else filter_rules p.url_filter fc

  unfoldable pub url_filter : Hook
  unfolding filter_rules
  url_filter fc = filter_for fc.policy fc

  abbrev pub url_filter_addon : Addon
  url_filter_addon = record {
    name = codes "url_filter";
    on_request = some url_filter;
    on_response = none;
    on_error = none;
  }
