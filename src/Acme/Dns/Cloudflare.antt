-- ===== src/Acme/Dns/Cloudflare.antt =====
-- `CloudflareDnsProvider` of src/acme.rs.
use archetype_proxy_server.Prelude.{
  ℕ, Bool, Option, none, some, List, [], ◌∷◌, ◌++◌, map, Result, ok, err, ok_or, first, filter,
  is_empty, not, if◌then◌else◌, unwrap_or, and_then, ◌==◌, map_ok,
}
use archetype_proxy_server.Text.{Str, codes, strip_prefix, split, join, trim_end_matches, is_slash}
use archetype_proxy_server.Ordered.{Ord, get, insert, remove}
use archetype_proxy_server.Ordered.Keys.{str_ord, pair_ord}
use archetype_proxy_server.Steps.{done, update, ◌>>=◌, ◌>>◌}
use archetype_proxy_server.Acme.{
  AcmeError, dns, DnsReason, lookup_request, lookup_decode, lookup_refused, no_zone, create_request,
  create_decode, create_refused, no_record,
}
use archetype_proxy_server.Acme.Dns.{
  signed_decimal, CfError, CfRecord, CfZone, Call, get_zones, post_txt, delete, sleep, Reply,
  unsent, undecoded, envelope, DnsWorld, DnsState, called, DnsStep,
}

pub record CloudflareDnsProvider : Type 0 where
  pub token : Str
  pub zone_id : Option Str
  pub base_url : Str
  pub propagation : ℕ

abbrev pub cloudflare_api_base : Str
cloudflare_api_base = codes "https://api.cloudflare.com"

unfoldable pub with_base_url : (token : Str) → Option Str → ℕ → Str → CloudflareDnsProvider
unfolding trim_end_matches
with_base_url token zone_id propagation_secs base_url = record {
  token = token;
  zone_id = zone_id;
  base_url = trim_end_matches is_slash base_url;
  propagation = propagation_secs;
}

abbrev error_line : CfError → Str
error_line e = e.message ++ codes " (" ++ signed_decimal e.code ++ codes ")"

unfoldable pub cf_errors_to_string : List CfError → Str
unfolding signed_decimal join
cf_errors_to_string [] = codes "no error detail"
cf_errors_to_string (e ∷ errors) = join (codes "; ") (map error_line (e ∷ errors))

abbrev is_label : Str → Bool
is_label l = not (is_empty l)

-- `(0..labels.len()).map(|i| labels[i..].join("."))`
unfoldable pub joined_tails : List Str → List Str
unfolding join
joined_tails [] = []
joined_tails (l ∷ labels) = join (codes ".") (l ∷ labels) ∷ joined_tails labels

unfoldable pub zone_candidates : Str → List Str
unfolding strip_prefix split joined_tails
zone_candidates record_name =
    let base = unwrap_or (strip_prefix record_name (codes "_acme-challenge.")) record_name in
    joined_tails (filter is_label (split (λ c. c == b'.') base))

-- A reply to a request, as far as the `success` flag.
unfoldable pub decoded :
    {T : Type 0}
    → (request decode : DnsReason) → (refused : Str → DnsReason) → Reply T
    → Result AcmeError (Option T)
unfolding cf_errors_to_string
decoded request decode refused unsent = err (dns request)
decoded request decode refused undecoded = err (dns decode)
decoded request decode refused (envelope e) =
    if e.success then ok e.result else err (dns (refused (cf_errors_to_string e.errors)))

unfoldable pub created_record : Result AcmeError (Option CfRecord) → Result AcmeError CfRecord
created_record (err e) = err e
created_record (ok created) = ok_or created (dns no_record)

abbrev pub remember : Str → Str → DnsState → DnsState
remember candidate id d = record {
  records = d.records;
  zone_cache = insert candidate id d.zone_cache;
  calls = d.calls;
}

instance abbrev pub record_key : Ord (Str × Str)
record_key = pair_ord str_ord str_ord

abbrev pub track : Str × Str → Str → DnsState → DnsState
track key id d = record {
  records = insert key id d.records;
  zone_cache = d.zone_cache;
  calls = d.calls;
}

abbrev pub untrack : Str × Str → DnsState → DnsState
untrack key d = record {
  records = remove key d.records;
  zone_cache = d.zone_cache;
  calls = d.calls;
}

module _ (w : DnsWorld) (p : CloudflareDnsProvider) where
  abbrev pub zones_call : (candidate : Str) → Call
  zones_call candidate = get_zones (p.base_url ++ codes "/client/v4/zones") p.token candidate

  -- The request for one candidate, and the first zone of a successful reply.
  unfoldable pub lookup : (candidate : Str) → DnsStep (Option CfZone)
  unfolding decoded
  lookup candidate d = (
    called (zones_call candidate) d,
    map_ok (λ zones. and_then zones first)
        (decoded lookup_request lookup_decode (lookup_refused candidate)
          (w.zones d.calls (zones_call candidate))),
  )

  -- The body of the loop over the candidates, `rest` being the candidates that follow.
  abbrev pub found_zone : (candidate : Str) → (rest : DnsStep Str) → Option CfZone → DnsStep Str
  found_zone candidate rest none = rest
  found_zone candidate rest (some zone) = do update (remember candidate zone.id); done zone.id

  abbrev pub cached_or : (candidate : Str) → (rest : DnsStep Str) → Option Str → DnsStep Str
  cached_or candidate rest (some id) = done id
  cached_or candidate rest none = do found ← lookup candidate; found_zone candidate rest found

  unfoldable pub search_zones : (record_name : Str) → List Str → DnsStep Str
  unfolding lookup get
  search_zones record_name [] d = (d, err (dns (no_zone record_name)))
  search_zones record_name (candidate ∷ candidates) d =
      cached_or candidate (search_zones record_name candidates) (get candidate d.zone_cache) d

  unfoldable pub resolve_zone_id : (record_name : Str) → DnsStep Str
  unfolding search_zones zone_candidates
  resolve_zone_id record_name = elim p.zone_id [
    | some id ↦ done id
    | none ↦ search_zones record_name (zone_candidates record_name)
  ]

  abbrev pub records_url : (zone_id : Str) → Str
  records_url zone_id = p.base_url ++ codes "/client/v4/zones/" ++ zone_id ++ codes "/dns_records"

  unfoldable pub create : (zone_id record_name value : Str) → DnsStep CfRecord
  unfolding decoded created_record
  create zone_id record_name value d =
      let call = post_txt (records_url zone_id) p.token record_name value 60 in
      (
        called call d,
        created_record (
            decoded create_request create_decode (create_refused record_name)
              (w.created d.calls call)),
      )

  unfoldable pub cloudflare_publish : (domain record_name value : Str) → DnsStep (Unit {0})
  unfolding resolve_zone_id create insert
  cloudflare_publish domain record_name value = do
    zone_id ← resolve_zone_id record_name
    created ← create zone_id record_name value
    update (track (record_name, value) created.id)
    update (called (sleep p.propagation))

  -- The requests of a cleanup, once the record was tracked.
  abbrev pub delete_record : (record_id : Str) → DnsState × Result AcmeError Str → DnsState
  delete_record record_id (d, err e) = d
  delete_record record_id (d, ok zone_id) =
      called (delete (records_url zone_id ++ codes "/" ++ record_id) p.token) d

  abbrev pub cleanup_tracked : (record_name value : Str) → Option Str → DnsState → DnsState
  cleanup_tracked record_name value none d = d
  cleanup_tracked record_name value (some record_id) d =
      delete_record record_id (resolve_zone_id record_name (untrack (record_name, value) d))

  -- What the DELETE returns is only logged.
  unfoldable pub cloudflare_cleanup : (domain record_name value : Str) → DnsState → DnsState
  unfolding resolve_zone_id get remove
  cloudflare_cleanup domain record_name value d =
      cleanup_tracked record_name value (get (record_name, value) d.records) d
