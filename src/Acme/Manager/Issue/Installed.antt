-- ===== src/Acme/Manager/Issue/Installed.antt =====
-- What an order does to the certificate that is served.
use archetype_proxy_server.Prelude.{
  ℕ, ◌≡◌, refl, ◌∙◌, Option, none, some, List, [], ◌∷◌, Result, ok, err, ap, subst,
}
use archetype_proxy_server.Text.{Str}
use archetype_proxy_server.Steps.{lift, done, update, resume, Keeps, keeps, chain, ◌>>=◌}
use archetype_proxy_server.Tls.{CertifiedKey, AcmeResolver, store, set_challenge, clear_challenge}
use archetype_proxy_server.Acme.{AuthorizationStatus, ChallengeResponse, AcmeError, Http01Tokens}
use archetype_proxy_server.Acme.Dns.{DnsWorld}
use archetype_proxy_server.Acme.Cert.{IssuedCert, Pki, into_certified_key}
use archetype_proxy_server.Acme.Cache.{Files}
use archetype_proxy_server.Acme.Manager.{Authority, Authorization, Order, Manager, Shared, Active}
use archetype_proxy_server.Acme.Manager.Issue.{
  IssueStep, account, restore_or_create, save_account, publish_response, respond, by_status,
  authorize_one, authorize, remove_tokens, clear_challenges, cleanup_records, tear_down, save_cert,
  serve_cert, install, conclude, issue,
}

module _ {S D : Type 0} (a : Authority) (pki : Pki S) (fs : Files D) (net : DnsWorld) where
  open a use {Account, AccountCredentials}

  -- What the listeners see.
  abbrev pub seen : Shared S D → AcmeResolver S × Http01Tokens
  seen s = (s.resolver, s.http_tokens)

  abbrev pub live : Shared S D → Option (CertifiedKey S)
  live s = s.resolver.current

  save_account-Keeps :
      (cache : Option Str) (creds : AccountCredentials)
      → Keeps seen (save_account a pki fs net cache creds)
  unfolding save_account
  save_account-Keeps none creds = keeps (λ s. refl)
  save_account-Keeps (some dir) creds =
      chain (keeps (λ s. refl)) (λ _. chain (keeps (λ s. refl)) (λ text. keeps (λ s. refl)))

  restore_or_create-Keeps :
      (m : Manager) (creds : Option AccountCredentials)
      → Keeps seen (restore_or_create a pki fs net m creds)
  unfolding restore_or_create
  restore_or_create-Keeps m (some creds) = chain (keeps (λ s. refl)) (λ _. keeps (λ s. refl))
  restore_or_create-Keeps m none = chain (keeps (λ s. refl)) (λ _.
      chain (keeps (λ s. refl))
        (λ made. chain (save_account-Keeps m.cache made.1) (λ _. keeps (λ s. refl))))

  pub account-Keeps : (m : Manager) → Keeps seen (account a pki fs net m)
  unfolding account
  account-Keeps m = chain (keeps (λ s. refl)) (restore_or_create-Keeps m)

  publish_response-Keeps :
      (m : Manager) (key_pair : Option (List ℕ)) (r : ChallengeResponse) (active : Active)
      → Keeps live (publish_response a pki fs net m key_pair r active)
  unfolding publish_response set_challenge
  publish_response-Keeps m key_pair (ChallengeResponse.http01 token text) active =
      chain (keeps (λ s. refl)) (λ _. keeps (λ s. refl))
  publish_response-Keeps m key_pair (ChallengeResponse.tls_alpn01 domain digest) active =
      chain (keeps (λ s. refl)) (λ ck. chain (keeps (λ s. refl)) (λ _. keeps (λ s. refl)))
  publish_response-Keeps m key_pair (ChallengeResponse.dns01 domain name value) active =
      chain (keeps (λ s. refl)) (λ _. keeps (λ s. refl))

  respond-Keeps :
      (m : Manager) (z : Authorization) (active : Active)
      → Keeps live (respond a pki fs net m z active)
  unfolding respond
  respond-Keeps m z active = chain (keeps (λ s. refl)) (λ c.
      chain (publish_response-Keeps m z.key_pair _ active)
        (λ next. chain (keeps (λ s. refl)) (λ _. keeps (λ s. refl))))

  by_status-Keeps :
      (m : Manager) (z : Authorization) (active : Active) (status : AuthorizationStatus)
      → Keeps live (by_status a pki fs net m z active status)
  unfolding by_status
  by_status-Keeps m z active AuthorizationStatus.pending = respond-Keeps m z active
  by_status-Keeps m z active AuthorizationStatus.valid = keeps (λ s. refl)
  by_status-Keeps m z active AuthorizationStatus.invalid = keeps (λ s. refl)
  by_status-Keeps m z active AuthorizationStatus.revoked = keeps (λ s. refl)
  by_status-Keeps m z active AuthorizationStatus.expired = keeps (λ s. refl)
  by_status-Keeps m z active AuthorizationStatus.deactivated = keeps (λ s. refl)

  authorize_one-Keeps :
      (m : Manager) (item : Option Authorization) (active : Active)
      → Keeps live (authorize_one a pki fs net m item active)
  unfolding authorize_one
  authorize_one-Keeps m none active = keeps (λ s. refl)
  authorize_one-Keeps m (some z) active = by_status-Keeps m z active z.status

  authorize-Keeps :
      (m : Manager) (items : List (Option Authorization)) (active : Active)
      → Keeps live (authorize a pki fs net m items active)
  unfolding authorize
  authorize-Keeps m [] active = keeps (λ s. refl)
  authorize-Keeps m (item ∷ items) active =
      chain (authorize_one-Keeps m item active) (authorize-Keeps m items)

  pub remove_tokens-Keeps :
      (tokens : List Str) (s : Shared S D)
      → (remove_tokens a pki fs net tokens s).resolver ≡ s.resolver
  unfolding remove_tokens
  remove_tokens-Keeps [] s = refl
  remove_tokens-Keeps (token ∷ tokens) s = remove_tokens-Keeps tokens _

  clear_challenges-Keeps :
      (domains : List Str) (s : Shared S D)
      → live (clear_challenges a pki fs net domains s) ≡ live s
  unfolding clear_challenges clear_challenge
  clear_challenges-Keeps [] s = refl
  clear_challenges-Keeps (domain ∷ domains) s = clear_challenges-Keeps domains _

  pub cleanup_records-Keeps :
      (m : Manager) (records : List (Str × Str × Str)) (s : Shared S D)
      → seen (cleanup_records a pki fs net m records s) ≡ seen s
  unfolding cleanup_records
  cleanup_records-Keeps m [] s = refl
  cleanup_records-Keeps m (record_ ∷ records) s = cleanup_records-Keeps m records _

  tear_down-Keeps :
      (m : Manager) (active : Active) (s : Shared S D)
      → live (tear_down a pki fs net m active s) ≡ live s
  unfolding tear_down
  tear_down-Keeps m active s =
      ap (λ x. x.0.current) (cleanup_records-Keeps m active.dns _)
      ∙ clear_challenges-Keeps active.alpn _
      ∙ ap (λ r. r.current) (remove_tokens-Keeps active.http s)

  save_cert-Keeps :
      (cache : Option Str) (issued : IssuedCert) → Keeps live (save_cert a pki fs net cache issued)
  unfolding save_cert
  save_cert-Keeps none issued = keeps (λ s. refl)
  save_cert-Keeps (some dir) issued = chain (keeps (λ s. refl)) (λ _. keeps (λ s. refl))

  -- A step's outcome: the certificate that it returns is the one that is served, and a failure
  -- leaves the one that was served before.
  abbrev pub Settles : Option (CertifiedKey S) → Shared S D × Result AcmeError IssuedCert → Type 0
  Settles before (s, ok issued) =
      (ck : CertifiedKey S) × (into_certified_key pki issued ≡ ok ck) × (live s ≡ some ck)
  Settles before (s, err e) = live s ≡ before

  settle :
      {A : Type 0} (step : IssueStep a pki fs net A) (next : A → IssueStep a pki fs net IssuedCert)
      → Keeps live step
      → ((x : A) (s : Shared S D) → Settles (live s) (next x s))
      → (s : Shared S D) → Settles (live s) ((step >>= next) s)
  unfolding ◌>>=◌
  settle {A = A} step next kept settles s = after (step s) (kept.same s)
    where
      after :
          (r : Shared S D × Result AcmeError A)
          → live r.0 ≡ live s
          → Settles (live s) (resume next r)
      after (s', ok x) e = subst (λ before. Settles before (next x s')) e (settles x s')
      after (s', err f) e = e

  serve-Settles :
      (issued : IssuedCert) (r : Result AcmeError (CertifiedKey S)) (s : Shared S D)
      → into_certified_key pki issued ≡ r
      → Settles (live s) ((lift r >>= serve_cert a pki fs net issued) s)
  unfolding ◌>>=◌ store
  serve-Settles issued (ok ck) s e = (ck, e, refl)
  serve-Settles issued (err f) s e = refl

  install-Settles :
      (m : Manager) (issued : IssuedCert) (s : Shared S D)
      → Settles (live s) (install a pki fs net m issued s)
  unfolding install
  install-Settles m issued =
      settle (save_cert a pki fs net m.cache issued) _ (save_cert-Keeps m.cache issued)
        (λ _ s. serve-Settles issued (into_certified_key pki issued) s refl)

  conclude-Settles :
      (m : Manager) (order : Order) (active : Active) (s : Shared S D)
      → Settles (live s) (conclude a pki fs net m order active s)
  unfolding conclude
  conclude-Settles m order active = settle (done _) _ (keeps (λ s. refl)) (λ result.
      settle (update _) _ (keeps (tear_down-Keeps m active))
        (λ _. settle (lift _) _ (keeps (λ s. refl)) (install-Settles m)))

  -- An order installs the certificate that it returns, so the next handshake is served it; an
  -- order that fails, whatever failed, leaves the certificate that was served before.
  pub issue-Settles : (m : Manager) (s : Shared S D) → Settles (live s) (issue a pki fs net m s)
  unfolding issue
  issue-Settles m =
      settle (account a pki fs net m) _
        (keeps (λ s. ap (λ x. x.0.current) ((account-Keeps m).same s)))
        (λ acc. settle (lift _) _ (keeps (λ s. refl)) (λ order.
          settle (authorize a pki fs net m order.authorizations _) _ (authorize-Keeps m _ _)
            (conclude-Settles m order)))
