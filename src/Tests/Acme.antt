-- ===== src/Tests/Acme.antt =====
-- Runs of src/acme.rs and src/tls.rs: an authority that offers one HTTP-01 challenge, a file system
-- that is a map, and certificates that are their own encoding.
pub mod Providers
use Prim.Native.Nat.{◌≤◌}
use archetype_proxy_server.Prelude.{
  ℕ, ◌≡◌, ◌↔◌, refl, Bool, true, false, Option, none, some, List, [], ◌∷◌, Result, ok, err, arith,
  ◌*◌,
}
use archetype_proxy_server.Text.{Str, codes, str_eq}
use archetype_proxy_server.Ordered.{BTreeMap, get, insert}
use archetype_proxy_server.Ordered.Keys.{str_ord, str_cmp}
use archetype_proxy_server.Ordered.Laws.{get-insert_self, get-insert_ne}
use archetype_proxy_server.Config.Kinds.{AcmeChallenge}
use archetype_proxy_server.Config.Settings.{AcmeConfig}
use archetype_proxy_server.Steps.{Ensures, ◌>>=◌}
use archetype_proxy_server.Tls as Tls
use archetype_proxy_server.Tls.{
  Rustls, matching, CertifiedKey, ClientHello, acme_tls_alpn_name, load_certified_key, acme_resolve,
  is_acme_alpn,
}
use archetype_proxy_server.Tls.Load.{IsPair, load_certified_key_iff}
use archetype_proxy_server.Tls.Latest.{
  Change, installed, published, withdrawn, after, served, acme_resolve-after,
}
use archetype_proxy_server.Acme.{
  acme, AuthorizationStatus, OrderStatus, ChallengeType, KeyAuthorization, no_tokens, get_token,
  challenge_type, challenge_response, build_challenge_response, insert_token, contacts,
  directory_url,
}
use archetype_proxy_server.Acme.Dns.{pos, unsent, DnsWorld, DnsState}
use archetype_proxy_server.Acme.Dns.Provider.{manual}
use archetype_proxy_server.Acme.Cert.{
  IssuedCert, Pki, into_certified_key, needs_renewal, time_to_expiry, collect,
}
use archetype_proxy_server.Acme.Cache.{Files, read, write, ensure_dir, store_cert, load_cert}
use archetype_proxy_server.Acme.Manager.{
  Authority, Authorization, Challenge, Order, Manager, Shared, Active, inactive, finalize_and_fetch,
}
use archetype_proxy_server.Acme.Manager.Issue.{
  account, cached_credentials, restore_or_create, save_account, publish_response, respond,
  by_status, authorize_one, authorize, remove_tokens, clear_challenges, cleanup_records, tear_down,
  save_cert, install, conclude, issue,
}
use archetype_proxy_server.Acme.Manager.Issue.Installed.{Settles, live, issue-Settles}
use archetype_proxy_server.Acme.Manager.Issue.Granted.{IsGranted, issue-IsGranted}
use archetype_proxy_server.Acme.Manager.Issue.Leak.{IsServed, issue-leaves_token}
use archetype_proxy_server.Acme.Manager.Renewal.{Turn, due, load_cached, renewal_loop}
use archetype_proxy_server.Acme.Manager.Renewal.Served.{
  IsSettled, due_iff, Origin, renewal_loop-Origin,
}
use archetype_proxy_server.Acme.Manager.Renewal.Restart.{IsFileSystem, load_cached-issue}
use archetype_proxy_server.Tests.Config.{acme_block}

abbrev pub Disk : Type 0
Disk = BTreeMap Str Str

abbrev pub files : Files Disk
files = record {
  read_to_string = λ d path. get path d;
  create_dir_all = λ d path. (d, true);
  write = λ d path contents. (insert path contents d, true);
}

files-IsFileSystem : IsFileSystem files
files-IsFileSystem = record {
  same_file = λ d path contents h. get-insert_self path contents d;
  other_file = λ d path contents other ne. get-insert_ne other path contents d ne;
}

abbrev pub Key : Type 0
Key = List ℕ

abbrev pub pki : Pki Key
pki = record {
  pem_slice_iter = λ pem. some pem ∷ [];
  key_from_pem_slice = λ pem. some pem;
  from_der = λ certs key. some (record { cert = certs; signing_key = key });
  time_to_expiration = λ der. some (some (pos 7776000));
  certificate_params = λ names. some (record { names = names; acme_identifiers = [] });
  self_signed = λ params key_pair. some key_pair;
  key_der_of = λ key_pair. some key_pair;
  load_private_key = λ der. some der;
}

abbrev pub offline : DnsWorld
offline = record {
  run = λ calls call. none;
  zones = λ calls call. unsent;
  created = λ calls call. unsent;
  deleted = λ calls call. none;
}

abbrev offered : Challenge
offered = record {
  token = codes "token";
  key_authorization = record { text = codes "token.thumb"; digest = 1 ∷ []; dns_value = codes "v" };
  set_ready = true;
}

abbrev first_authorization : Authorization
first_authorization = record {
  status = AuthorizationStatus.pending;
  domain = codes "example.org";
  challenge = λ kind. some offered;
  key_pair = some (7 ∷ []);
}

abbrev order_of : List (Option Authorization) → Order
order_of items = record {
  authorizations = items;
  poll_ready = some OrderStatus.ready;
  finalize = some (codes "key");
  poll_certificate = some (codes "cert");
}

abbrev pub authority_of : List (Option Authorization) → Authority
authority_of items = record {
  Account = Unit {0};
  AccountCredentials = Str;
  parse = λ text. some text;
  print = λ creds. some creds;
  builder = true;
  from_credentials = λ creds. some tt;
  create = λ contact directory. some (tt, codes "creds");
  new_order = λ acc domains. some (order_of items);
  staging_url = codes "https://staging.example";
  production_url = codes "https://ca.example";
}

abbrev pub authority : Authority
authority = authority_of (some first_authorization ∷ [])

abbrev failing : Authority
failing = authority_of (some first_authorization ∷ none ∷ [])

abbrev pub http_block : AcmeConfig
http_block = record acme_block {
  domains = codes "example.org" ∷ [];
  challenge = AcmeChallenge.http01;
}

abbrev by_hand : Option Str → Manager
by_hand cache = record {
  cfg = http_block;
  dns = manual (record { hook_command = none; cleanup_command = none; propagation = 0 });
  cache = cache;
}

abbrev new_state : Shared Key Disk
new_state = record {
  resolver = Tls.empty;
  http_tokens = no_tokens;
  dns_state = record { records = []; zone_cache = []; calls = [] };
  disk = [];
}

abbrev pub turn : Turn Key
turn = record { authority = authority; pki = pki; net = offline }

issue-Settles_example :
    Settles authority pki files offline none
      (issue authority pki files offline (by_hand none) new_state)
unfolding Tls.empty
issue-Settles_example = issue-Settles authority pki files offline (by_hand none) new_state

issue-IsGranted_example :
    Ensures
      (λ s. Unit)
      (issue authority pki files offline (by_hand none))
      (λ issued s. IsGranted {D = Disk} authority pki files offline (by_hand none) issued)
issue-IsGranted_example = issue-IsGranted authority pki files offline (by_hand none)

-- The state once the response is published.
abbrev responding : Shared Key Disk
responding = record new_state { http_tokens = (codes "token", codes "token.thumb") ∷ [] }

abbrev noted : Active
noted = record { http = codes "token" ∷ []; alpn = []; dns = [] }

issue-leaves_token_example :
    (issue failing pki files offline (by_hand none) new_state ≡ (responding, err acme))
    × IsServed failing pki files offline (codes "token") responding
unfolding Tls.empty account cached_credentials restore_or_create save_account authorize
    authorize_one by_status respond publish_response challenge_type challenge_response
    build_challenge_response insert_token insert ◌>>=◌
issue-leaves_token_example =
    issue-leaves_token failing pki files offline (by_hand none) new_state new_state new_state
      responding tt (order_of (some first_authorization ∷ none ∷ [])) [] (none ∷ [])
      first_authorization offered inactive acme refl refl refl refl refl refl refl refl

due_iff_example :
    (due files pki (by_hand none) new_state ≡ false) ↔ IsSettled files pki (by_hand none) new_state
due_iff_example = due_iff files pki (by_hand none) new_state

renewal_loop-Origin_example :
    Origin files
      (by_hand none)
      none
      (turn ∷ turn ∷ [])
      (renewal_loop files (by_hand none) new_state (turn ∷ turn ∷ [])).resolver.current
unfolding Tls.empty
renewal_loop-Origin_example = renewal_loop-Origin files (by_hand none) new_state (turn ∷ turn ∷ [])

-- A manager with a cache, and what its order leaves.
abbrev keeping : Manager
keeping = by_hand (some (codes "/var/acme"))

abbrev ordered : Shared Key Disk
ordered = (issue authority pki files offline keeping new_state).0

abbrev returned : IssuedCert
returned = record { cert_pem = codes "cert"; key_pem = codes "key" }

abbrev restarted : Shared Key Disk
restarted = record new_state { disk = ordered.disk }

load_cached-issue_example :
    ((load_cached files pki keeping restarted).1 ≡ true)
    × ((load_cached files pki keeping restarted).0.resolver.current ≡ ordered.resolver.current)
unfolding Tls.empty account cached_credentials read restore_or_create save_account ensure_dir write
    authorize authorize_one by_status respond publish_response challenge_type challenge_response
    build_challenge_response insert_token get insert ◌>>=◌ issue conclude tear_down remove_tokens
    clear_challenges cleanup_records install save_cert store_cert into_certified_key collect
    finalize_and_fetch str_cmp needs_renewal time_to_expiry
load_cached-issue_example =
    load_cached-issue files files-IsFileSystem authority pki offline keeping (codes "/var/acme")
      new_state ordered restarted returned pki refl refl refl refl refl

-- src/tls.rs
abbrev certified : CertifiedKey Key
certified = record { cert = (1 ∷ []) ∷ []; signing_key = 2 ∷ [] }

abbrev renewed : CertifiedKey Key
renewed = record { cert = (3 ∷ []) ∷ []; signing_key = 4 ∷ [] }

abbrev pub pem_files : Rustls Key
pem_files = record {
  read_file = λ path. some path;
  certs = λ pem. some (pem ∷ []);
  private_key_of = λ pem. some (some pem);
  any_supported_type = λ der. some der;
  keys_match = λ ck. matching;
}

load_certified_key_iff_example :
    (load_certified_key pem_files (1 ∷ []) (2 ∷ []) ≡ ok certified)
    ↔ IsPair pem_files (1 ∷ []) (2 ∷ []) certified
load_certified_key_iff_example = load_certified_key_iff pem_files (1 ∷ []) (2 ∷ []) certified

abbrev history : List (Change Key)
history =
    installed renewed
    ∷ withdrawn (codes "a.example")
    ∷ published (codes "b.example") certified
    ∷ published (codes "a.example") certified
    ∷ []

abbrev validating : ClientHello
validating = record {
  alpn = some (acme_tls_alpn_name ∷ []);
  server_name = some (codes "b.example");
}

acme_resolve-after_example :
    acme_resolve (after history) validating
    ≡ served history (is_acme_alpn validating) (some (codes "b.example"))
acme_resolve-after_example = acme_resolve-after history validating
