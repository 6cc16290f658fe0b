-- ===== src/Tests/Policies.antt =====
-- The schedules, the choice of a policy and the host gate at concrete inputs.
use gowebfilter.Base.{
  ℕ, ◌≡◌, refl, ◌≢◌, ◌↔◌, ◌⊎◌, Bool, true, false, Option, none, some, List, [], ◌∷◌, map, arith,
  if◌then◌else◌, Bytes, codes, bytes_eq, cut_byte, trim_space, to_lower, pos, atoi, itoa, Within,
  Any,
}
use gowebfilter.Categories.Hash.{DomainSet}
use gowebfilter.Categories.Store.{Store}
use gowebfilter.Models.Policy.{Policy, new_policy, new_url_filter_config, whitelist}
use gowebfilter.Models.Schedule.{ScheduleConfig, Time, hhmm, is_active_at, parse_hhmm}
use gowebfilter.Models.Schedule.Clock.{IsClockOf, parse_hhmm_iff}
use gowebfilter.Models.Schedule.Normal.{is_active_at-normalize}
use gowebfilter.Models.Schedule.Week.{WindowOn, is_active_at_iff}
use gowebfilter.Models.Settings.{new_settings}
use gowebfilter.Models.UrlFilter.{allow_categories, block_categories}
use gowebfilter.Net.Ip4.{ip4, parse_ip4}
use gowebfilter.Proxy.HostGate.{
  HostVerdict, category_blocked, category_verdict, host_filter_verdict,
}
use gowebfilter.Proxy.HostGate.Categories.{InSome, category_verdict_iff}
use gowebfilter.Proxy.Matching.{domain_in_list, domain_pattern}
use gowebfilter.Proxy.Matching.Domains.{Under, domain_in_list_iff}
use gowebfilter.Proxy.Tunnel.{
  categories_of, filters_dns, handle_tunnel, never_intercepts, spliced, tunnel_with,
}
use gowebfilter.Proxy.Tunnel.Laws.{Intercepts, handle_tunnel-dot, tunnel_spliced_iff}
use gowebfilter.State.Match.{get_policy, match_policy, resolve_mac, without_zone}
use gowebfilter.State.Match.Selection.{IsSelection, get_policy_sound, match_policy-IsSelection}
use gowebfilter.State.Runtime.{
  Runtime, bypass_domain, excludes, reload_policies, should_bypass_mitm,
}
use gowebfilter.State.Runtime.Bypass.{should_bypass_mitm_iff}

abbrev office_hours : ScheduleConfig
office_hours = record {
  enabled = true;
  active_windows =
      record { days = some (pos 4 ∷ []); start = codes "22:00"; end = codes "06:00" } ∷ [];
}

-- Saturday, 01:30: behind the Friday evening that starts the window.
abbrev saturday_night : Time
saturday_night = record { weekday = 6; hour = 1; minute = 30 }

abbrev home : Policy
home = record new_policy { name = codes "home"; source_ips = codes "10.0.0.0/8" ∷ [] }

abbrev kids : Policy
kids = record new_policy {
  name = codes "kids";
  source_ips = codes "10.1.0.0/16" ∷ [];
  schedule = office_hours;
}

abbrev policies : List Policy
policies = home ∷ kids ∷ []

unfoldable client_addr : ip4.Addr
unfolding ip4
client_addr = 167838211

client_parses : ip4.parse_ip (trim_space (without_zone (codes "10.1.2.3"))) ≡ some client_addr
unfolding client_addr ip4 parse_ip4 trim_space cut_byte
client_parses = refl

match_policy-IsSelection_example :
    IsSelection ip4 policies client_addr saturday_night []
      (match_policy ip4 policies (codes "10.1.2.3") saturday_night none)
unfolding resolve_mac
match_policy-IsSelection_example =
    match_policy-IsSelection ip4 policies (codes "10.1.2.3") saturday_night none client_addr
      client_parses

get_policy_sound_example :
    ((p : Policy)
      → get_policy ip4 policies (codes "10.1.2.3") saturday_night none ≡ some p
      → Within p policies × (p.inactive ≡ false) × (is_active_at p.schedule saturday_night ≡ true))
    × (ip4.parse_ip (trim_space (without_zone (codes "10.1.2.3"))) ≡ none
        → get_policy ip4 policies (codes "10.1.2.3") saturday_night none ≡ none)
get_policy_sound_example = get_policy_sound ip4 policies (codes "10.1.2.3") saturday_night none

is_active_at_iff_example : (is_active_at office_hours saturday_night ≡ true) ↔ (
    (true ≡ false)
    ⊎ ((office_hours.active_windows ≡ [])
        ⊎ Any (WindowOn saturday_night) office_hours.active_windows))
is_active_at_iff_example = is_active_at_iff office_hours saturday_night (omega arith) (omega arith)

is_active_at-normalize_example :
    is_active_at
      (record office_hours {
        active_windows = map gowebfilter.Models.Schedule.normalize office_hours.active_windows;
      })
      saturday_night
    ≡ is_active_at office_hours saturday_night
is_active_at-normalize_example = is_active_at-normalize office_hours saturday_night

nine_thirty : parse_hhmm (codes "9:30") ≡ some (codes "09:30")
unfolding parse_hhmm cut_byte gowebfilter.Models.Schedule.clock_time atoi hhmm itoa
nine_thirty = refl

parse_hhmm_iff_example :
    (parse_hhmm (codes "9:30") ≡ some (codes "09:30")) ↔ IsClockOf (codes "9:30") (codes "09:30")
parse_hhmm_iff_example = parse_hhmm_iff (codes "9:30") (codes "09:30")

domain_in_list_iff_example :
    (domain_in_list (codes "www.example.com") (codes "*.example.com" ∷ []) ≡ true)
    ↔ Any
        (λ p. (domain_pattern p ≢ []) × Under (codes "www.example.com") (domain_pattern p))
        (codes "*.example.com" ∷ [])
domain_in_list_iff_example =
    domain_in_list_iff (codes "www.example.com") (codes "*.example.com" ∷ [])

abbrev empty_runtime : Runtime
empty_runtime = record {
  settings = new_settings;
  categories = none;
  policies = [];
  mitm_bypass = [];
  generation = 0;
}

should_bypass_mitm_iff_example :
    (should_bypass_mitm (reload_policies (some policies) empty_runtime) (codes "bank.example")
      ≡ true)
    ↔ Any
        (λ p.
          (excludes p.mitm.mode ≡ true)
          × Any
              (λ site.
                (bypass_domain site ≢ [])
                × Under (to_lower (codes "bank.example")) (bypass_domain site))
              p.mitm.sites)
        policies
should_bypass_mitm_iff_example =
    should_bypass_mitm_iff policies empty_runtime (codes "bank.example")

-- A store with one category.
abbrev games : Store
games = record {
  domains = λ name.
      if bytes_eq name (codes "games")
      then DomainSet.exact (codes "play.example" ∷ [])
      else DomainSet.exact [];
}

category_verdict_iff_example :
    (category_verdict (some games) (codes "www.play.example") new_url_filter_config).0
      ≡ category_blocked
    ↔ ¬ InSome games (codes "www.play.example") (allow_categories new_url_filter_config)
      × (InSome games (codes "www.play.example") (block_categories new_url_filter_config)
          ⊎ (new_url_filter_config.mode ≡ whitelist))
category_verdict_iff_example =
    category_verdict_iff games (codes "www.play.example") new_url_filter_config

abbrev no_regexp : Bytes → Option (Bytes → Bool)
no_regexp pattern = none

tunnel_spliced_iff_example :
    (tunnel_with ip4 no_regexp
        (some empty_runtime)
        (some home)
        (codes "one.example")
        853
        (codes "10.1.2.3")
        true
        none
      ≡ spliced)
    ↔ (((◌≡◌ {A = ℕ} 853 853) × (filters_dns (some home) ≡ false)
          ⊎ (◌≢◌ {A = ℕ} 853 853)
            × (never_intercepts (some empty_runtime) (codes "one.example") ≡ true))
        × ((verdict : HostVerdict) × (host_filter_verdict no_regexp
                (categories_of (some empty_runtime))
                (some home)
                (codes "one.example")
              ≡ some verdict)
            × (verdict.blocked ≡ false)))
tunnel_spliced_iff_example =
    tunnel_spliced_iff ip4 no_regexp (some empty_runtime) (some home) (codes "one.example") 853
      (codes "10.1.2.3") true none

handle_tunnel-dot_example : ¬ Intercepts (
    handle_tunnel ip4 no_regexp
      (some empty_runtime)
      saturday_night
      none
      (codes "one.example")
      853
      (codes "10.1.2.3")
      true
      (some 0x16))
handle_tunnel-dot_example =
    handle_tunnel-dot ip4 no_regexp (some empty_runtime) saturday_night none (codes "one.example")
      (codes "10.1.2.3") true (some 0x16)
