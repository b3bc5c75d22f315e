-- ===== src/Tests/Acme/Providers.antt =====
-- Runs of the Cloudflare provider of src/acme.rs, against an account with one zone.
use archetype_proxy_server.Prelude.{◌≡◌, refl, true, none, some, List, [], ◌∷◌, if◌then◌else◌}
use archetype_proxy_server.Text.{Str, codes, str_eq, strip_prefix, split, join}
use archetype_proxy_server.Ordered.{get, insert}
use archetype_proxy_server.Ordered.Keys.{str_cmp}
use archetype_proxy_server.Steps.{◌>>=◌}
use archetype_proxy_server.Acme.Dns.{
  Call, get_zones, envelope, unsent, CfZone, CfRecord, DnsWorld, DnsState,
}
use archetype_proxy_server.Acme.Dns.Cloudflare.{
  CloudflareDnsProvider, decoded, created_record, joined_tails, zone_candidates, lookup,
  search_zones, resolve_zone_id, untrack, create, cloudflare_publish, cloudflare_cleanup,
}
use archetype_proxy_server.Acme.Dns.Answers.{IsRecorded}
use archetype_proxy_server.Acme.Dns.Records.{IsPublished, IsCleaned, cloudflare_cleanup-publish}

abbrev zones_named : Call → List CfZone
zones_named (get_zones url token name) =
    if str_eq name (codes "example.org") then record { id = codes "z1" } ∷ [] else []
zones_named call = []

abbrev account : DnsWorld
account = record {
  run = λ calls call. none;
  zones = λ calls call.
      envelope (record { success = true; errors = []; result = some (zones_named call) });
  created = λ calls call.
      envelope (record { success = true; errors = []; result = some (record { id = codes "r1" }) });
  deleted = λ calls call. some true;
}

abbrev provider : CloudflareDnsProvider
provider = record {
  token = codes "t";
  zone_id = none;
  base_url = codes "https://api";
  propagation = 5;
}

abbrev nothing_yet : DnsState
nothing_yet = record { records = []; zone_cache = []; calls = [] }

abbrev name : Str
name = codes "_acme-challenge.www.example.org"

candidates : zone_candidates name ≡ codes "www.example.org" ∷ codes "example.org" ∷ codes "org" ∷ []
unfolding zone_candidates strip_prefix split joined_tails join
candidates = refl

nothing_cached : IsRecorded account provider nothing_yet
unfolding get
nothing_cached c id e = absurd cc

-- An account that fails once and then answers.
abbrev flaky : DnsWorld
flaky = record account {
  zones = λ calls call. elim calls [
    | [] ↦ unsent
    | c ∷ cs ↦ envelope (record { success = true; errors = []; result = some (zones_named call) })
  ];
}

abbrev live : DnsState
live =
    (cloudflare_publish account provider (codes "www.example.org") name (codes "v") nothing_yet).0

cloudflare_cleanup-publish_example :
    (zone_id : Str) × (made : CfRecord) × IsPublished account provider name
      (codes "v")
      zone_id
      made
      live
    × IsCleaned account provider name
        (codes "v")
        zone_id
        made
        (resolve_zone_id account provider name (untrack (name, codes "v") live))
        (cloudflare_cleanup account provider (codes "www.example.org") name (codes "v") live)
unfolding cloudflare_publish resolve_zone_id zone_candidates strip_prefix split joined_tails join
    search_zones lookup get insert str_cmp str_eq create created_record decoded ◌>>=◌
cloudflare_cleanup-publish_example =
    cloudflare_cleanup-publish account provider (codes "www.example.org") name (codes "v")
      nothing_yet live tt nothing_cached refl
