-- ===== src/Acme/Manager/Issue.antt =====
-- `AcmeManager::account` and `AcmeManager::issue`.
pub mod TearDown
pub mod Installed
pub mod Granted
pub mod Leak
use archetype_proxy_server.Prelude.{
  ℕ, Option, none, some, List, [], ◌∷◌, ◌++◌, Result, ok, err, ok_or, ensure, and_then,
}
use archetype_proxy_server.Text.{Str}
use archetype_proxy_server.Steps.{Step, done, fail, lift, update, look, resume, ◌>>=◌, ◌>>◌}
use archetype_proxy_server.Tls.{CertifiedKey, store, set_challenge, clear_challenge}
use archetype_proxy_server.Acme.{
  AcmeError, acme, cert, credentials, no_challenge, authorization, AuthorizationStatus,
  ChallengeResponse, challenge_response, challenge_type, insert_token, remove_token, directory_url,
  contacts, account_file,
}
use archetype_proxy_server.Acme.Dns.{DnsWorld}
use archetype_proxy_server.Acme.Dns.Provider.{publish, cleanup}
use archetype_proxy_server.Acme.Cert.{IssuedCert, Pki, into_certified_key, tls_alpn_cert}
use archetype_proxy_server.Acme.Cache.{Files, ensure_dir, read, write, store_cert}
use archetype_proxy_server.Acme.Manager.{
  Authority, Authorization, Order, Manager, Shared, Active, inactive, with_resolver, with_tokens,
  with_dns, on_dns, on_disk, finalize_and_fetch,
}

module _ {S D : Type 0} (a : Authority) (pki : Pki S) (fs : Files D) (net : DnsWorld) where
  open a use {Account, AccountCredentials}

  abbrev pub IssueStep : Type 0 → Type 0
  IssueStep A = Step (Shared S D) AcmeError A

  unfoldable pub cached_credentials : Manager → D → Option AccountCredentials
  unfolding read
  cached_credentials m disk =
      and_then m.cache (λ dir. and_then (read fs dir account_file disk) a.parse)

  unfoldable pub save_account : Option Str → AccountCredentials → IssueStep (Unit {0})
  unfolding ensure_dir write
  save_account none creds = done tt
  save_account (some dir) creds = do
    on_disk (ensure_dir fs dir)
    text ← lift (ok_or (a.print creds) (cert credentials))
    on_disk (write fs dir account_file text)

  unfoldable pub restore_or_create : Manager → Option AccountCredentials → IssueStep Account
  unfolding save_account contacts directory_url
  restore_or_create m (some creds) = do
    lift (ensure a.builder acme)
    lift (ok_or (a.from_credentials creds) acme)
  restore_or_create m none = do
    lift (ensure a.builder acme)
    made ← lift (
        ok_or (a.create (contacts m.cfg) (directory_url a.staging_url a.production_url m.cfg)) acme)
    save_account m.cache made.1
    done made.0

  unfoldable pub account : Manager → IssueStep Account
  unfolding restore_or_create cached_credentials
  account m = do creds ← look (λ s. cached_credentials m s.disk); restore_or_create m creds

  -- Publish a response and note it for the teardown.
  unfoldable pub publish_response :
      Manager → (key_pair : Option (List ℕ)) → ChallengeResponse → Active → IssueStep Active
  unfolding insert_token tls_alpn_cert set_challenge publish
  publish_response m key_pair (ChallengeResponse.http01 token key_authorization) active = do
    update (with_tokens (insert_token token key_authorization))
    done (record { http = active.http ++ token ∷ []; alpn = active.alpn; dns = active.dns })
  publish_response m key_pair (ChallengeResponse.tls_alpn01 domain digest) active = do
    ck ← lift (tls_alpn_cert pki key_pair domain digest)
    update (with_resolver (λ r. set_challenge r domain ck))
    done (record { http = active.http; alpn = active.alpn ++ domain ∷ []; dns = active.dns })
  publish_response m key_pair (ChallengeResponse.dns01 domain record_name value) active = do
    on_dns (publish net m.dns domain record_name value)
    done (record {
      http = active.http;
      alpn = active.alpn;
      dns = active.dns ++ (domain, record_name, value) ∷ [];
    })

  unfoldable pub respond : Manager → Authorization → Active → IssueStep Active
  unfolding publish_response challenge_response challenge_type
  respond m z active = do
    c ← lift (
        ok_or (z.challenge (challenge_type m.cfg.challenge))
          (cert (no_challenge m.cfg.challenge z.domain)))
    next ←
        publish_response m z.key_pair
          (challenge_response m.cfg.challenge z.domain c.token c.key_authorization) active
    lift (ensure c.set_ready acme)
    done next

  unfoldable pub by_status :
      Manager → Authorization → Active → AuthorizationStatus → IssueStep Active
  unfolding respond
  by_status m z active AuthorizationStatus.pending = respond m z active
  by_status m z active AuthorizationStatus.valid = done active
  by_status m z active status = fail (authorization z.domain status)

  -- One turn of the loop over the authorizations.
  unfoldable pub authorize_one : Manager → Option Authorization → Active → IssueStep Active
  unfolding by_status
  authorize_one m none active = fail acme
  authorize_one m (some z) active = by_status m z active z.status

  unfoldable pub authorize : Manager → List (Option Authorization) → Active → IssueStep Active
  unfolding authorize_one
  authorize m [] active = done active
  authorize m (item ∷ items) active = authorize_one m item active >>= authorize m items

  unfoldable pub remove_tokens : List Str → Shared S D → Shared S D
  unfolding remove_token
  remove_tokens [] s = s
  remove_tokens (token ∷ tokens) s = remove_tokens tokens (with_tokens (remove_token token) s)

  unfoldable pub clear_challenges : List Str → Shared S D → Shared S D
  unfolding clear_challenge
  clear_challenges [] s = s
  clear_challenges (domain ∷ domains) s =
      clear_challenges domains (with_resolver (λ r. clear_challenge r domain) s)

  unfoldable pub cleanup_records : Manager → List (Str × Str × Str) → Shared S D → Shared S D
  unfolding cleanup
  cleanup_records m [] s = s
  cleanup_records m ((domain, record_name, value) ∷ records) s =
      cleanup_records m records
        (with_dns s (cleanup net m.dns domain record_name value s.dns_state))

  unfoldable pub tear_down : Manager → Active → Shared S D → Shared S D
  unfolding remove_tokens clear_challenges cleanup_records
  tear_down m active s =
      cleanup_records m active.dns (clear_challenges active.alpn (remove_tokens active.http s))

  unfoldable pub save_cert : Option Str → IssuedCert → IssueStep (Unit {0})
  unfolding ensure_dir store_cert
  save_cert none issued = done tt
  save_cert (some dir) issued = do on_disk (ensure_dir fs dir); on_disk (store_cert fs dir issued)

  abbrev pub serve_cert : IssuedCert → CertifiedKey S → IssueStep IssuedCert
  serve_cert issued ck = do update (with_resolver (λ r. store r ck)); done issued

  -- From the issued certificate on.
  unfoldable pub install : Manager → IssuedCert → IssueStep IssuedCert
  unfolding save_cert into_certified_key store
  install m issued = do
    save_cert m.cache issued
    ck ← lift (into_certified_key pki issued)
    serve_cert issued ck

  -- After the loop over the authorizations.
  unfoldable pub conclude : Manager → Order → Active → IssueStep IssuedCert
  unfolding tear_down install finalize_and_fetch
  conclude m order active = do
    result ← done (finalize_and_fetch order)
    update (tear_down m active)
    issued ← lift result
    install m issued

  unfoldable pub issue : Manager → IssueStep IssuedCert
  unfolding account authorize conclude
  issue m = do
    account ← account m
    order ← lift (ok_or (a.new_order account m.cfg.domains) acme)
    active ← authorize m order.authorizations inactive
    conclude m order active
