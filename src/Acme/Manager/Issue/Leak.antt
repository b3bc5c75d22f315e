-- ===== src/Acme/Manager/Issue/Leak.antt =====
-- An error in the loop over the authorizations skips the teardown.
use archetype_proxy_server.Prelude.{
  ℕ, ◌≡◌, subst, sym, ap, ◌∙◌, inl, inr, true, Option, none, some, List, [], ◌∷◌, ◌++◌, Result, ok,
  err, is_some, Bool-cases,
}
use archetype_proxy_server.Text.{Str, str_eq}
use archetype_proxy_server.Text.Laws.{eq_of_str_eq, ne_of_str_eq}
use archetype_proxy_server.Ordered.Keys.{str_ord}
use archetype_proxy_server.Ordered.Laws.{get-insert_self, get-insert_ne}
use archetype_proxy_server.Config.Kinds.{AcmeChallenge}
use archetype_proxy_server.Steps.{◌>>=◌, resume, Preserves, preserves, preserved}
use archetype_proxy_server.Acme.{
  AcmeError, AuthorizationStatus, ChallengeType, ChallengeResponse, challenge_type,
  challenge_response, build_challenge_response, Http01Tokens, get_token, insert_token,
}
use archetype_proxy_server.Acme.Dns.{DnsWorld}
use archetype_proxy_server.Acme.Cert.{Pki}
use archetype_proxy_server.Acme.Cache.{Files}
use archetype_proxy_server.Acme.Manager.{
  Authority, Authorization, Challenge, Order, Manager, Shared, Active, inactive,
}
use archetype_proxy_server.Acme.Manager.Issue.{
  account, publish_response, respond, by_status, authorize_one, authorize, issue,
}

module _ {S D : Type 0} (a : Authority) (pki : Pki S) (fs : Files D) (net : DnsWorld) where
  open a use {Account}

  -- The token is answered by the HTTP-01 responder.
  abbrev pub IsServed : Str → Shared S D → Type 0
  IsServed token s = is_some (get_token token s.http_tokens) ≡ true

  insert_token-served :
      (token other text : Str) (tokens : Http01Tokens)
      → is_some (get_token token tokens) ≡ true
      → is_some (get_token token (insert_token other text tokens)) ≡ true
  unfolding get_token insert_token
  insert_token-served token other text tokens h = elim (Bool-cases (str_eq token other)) [
    | inl same ↦ rw (eq_of_str_eq token other same) (ap is_some (get-insert_self other text tokens))
    | inr differ ↦
        ap is_some (get-insert_ne token other text tokens (ne_of_str_eq token other differ)) ∙ h
  ]

  publish_response-Preserves :
      (token : Str) (m : Manager) (key_pair : Option (List ℕ)) (r : ChallengeResponse)
      (active : Active)
      → Preserves (IsServed token) (publish_response a pki fs net m key_pair r active)
  unfolding publish_response
  publish_response-Preserves token m key_pair (ChallengeResponse.http01 other text) active =
      preserved (preserves (λ s h. insert_token-served token other text s.http_tokens h))
        (λ _. preserves (λ s h. h))
  publish_response-Preserves token m key_pair (ChallengeResponse.tls_alpn01 domain digest) active =
      preserved (preserves (λ s h. h))
        (λ ck. preserved (preserves (λ s h. h)) (λ _. preserves (λ s h. h)))
  publish_response-Preserves token m key_pair (ChallengeResponse.dns01 domain name value) active =
      preserved (preserves (λ s h. h)) (λ _. preserves (λ s h. h))

  by_status-Preserves :
      (token : Str) (m : Manager) (z : Authorization) (active : Active)
      (status : AuthorizationStatus)
      → Preserves (IsServed token) (by_status a pki fs net m z active status)
  unfolding by_status respond
  by_status-Preserves token m z active AuthorizationStatus.pending =
      preserved (preserves (λ s h. h)) (λ c.
        preserved (publish_response-Preserves token m z.key_pair _ active)
          (λ next. preserved (preserves (λ s h. h)) (λ _. preserves (λ s h. h))))
  by_status-Preserves token m z active AuthorizationStatus.valid = preserves (λ s h. h)
  by_status-Preserves token m z active AuthorizationStatus.invalid = preserves (λ s h. h)
  by_status-Preserves token m z active AuthorizationStatus.revoked = preserves (λ s h. h)
  by_status-Preserves token m z active AuthorizationStatus.expired = preserves (λ s h. h)
  by_status-Preserves token m z active AuthorizationStatus.deactivated = preserves (λ s h. h)

  authorize_one-Preserves :
      (token : Str) (m : Manager) (item : Option Authorization) (active : Active)
      → Preserves (IsServed token) (authorize_one a pki fs net m item active)
  unfolding authorize_one
  authorize_one-Preserves token m none active = preserves (λ s h. h)
  authorize_one-Preserves token m (some z) active = by_status-Preserves token m z active z.status

  authorize-Preserves :
      (token : Str) (m : Manager) (items : List (Option Authorization)) (active : Active)
      → Preserves (IsServed token) (authorize a pki fs net m items active)
  unfolding authorize
  authorize-Preserves token m [] active = preserves (λ s h. h)
  authorize-Preserves token m (item ∷ items) active =
      preserved (authorize_one-Preserves token m item active) (authorize-Preserves token m items)

  -- A pending authorization that offers a challenge for HTTP-01 is served its token, even where
  -- the authority does not take the word that it is ready.
  authorize_one-IsServed :
      (m : Manager) (z : Authorization) (c : Challenge) (active : Active) (s : Shared S D)
      → m.cfg.challenge ≡ AcmeChallenge.http01
      → z.status ≡ AuthorizationStatus.pending
      → z.challenge ChallengeType.http01 ≡ some c
      → IsServed c.token (authorize_one a pki fs net m (some z) active s).0
  unfolding authorize_one by_status respond publish_response challenge_response
      build_challenge_response challenge_type get_token insert_token ◌>>=◌
  authorize_one-IsServed m z c active s http pending offered =
      let served = ap is_some (get-insert_self c.token c.key_authorization.text s.http_tokens) in
      elim (Bool-cases c.set_ready) [
        | inl e ↦ rw (pending, http, offered, e) served
        | inr e ↦ rw (pending, http, offered, e) served
      ]

  -- Once the loop has come to it, the token is served until the end of the loop.
  authorize-IsServed :
      (m : Manager) (before after : List (Option Authorization)) (z : Authorization) (c : Challenge)
      (active mid : Active) (s s₂ : Shared S D)
      → m.cfg.challenge ≡ AcmeChallenge.http01
      → z.status ≡ AuthorizationStatus.pending
      → z.challenge ChallengeType.http01 ≡ some c
      → authorize a pki fs net m before active s ≡ (s₂, ok mid)
      → IsServed c.token (authorize a pki fs net m (before ++ some z ∷ after) active s).0
  unfolding authorize ◌>>=◌
  authorize-IsServed m [] after z c active mid s s₂ http pending offered reached =
      go (authorize_one a pki fs net m (some z) active s)
        (authorize_one-IsServed m z c active s http pending offered)
    where
      go :
          (r : Shared S D × Result AcmeError Active)
          → IsServed c.token r.0
          → IsServed c.token (resume (authorize a pki fs net m after) r).0
      go (state, ok next) h = (authorize-Preserves c.token m after next).after state h
      go (state, err e) h = h
  authorize-IsServed m (item ∷ before) after z c active mid s s₂ http pending offered reached =
      go (authorize_one a pki fs net m item active s)
        (λ next state. authorize-IsServed m before after z c next mid state s₂ http pending offered)
        reached
    where
      rest : Active → Shared S D → Shared S D × Result AcmeError Active
      rest = authorize a pki fs net m (before ++ some z ∷ after)

      go :
          (r : Shared S D × Result AcmeError Active)
          → ((next : Active) (state : Shared S D)
              → authorize a pki fs net m before next state ≡ (s₂, ok mid)
              → IsServed c.token (rest next state).0)
          → resume (authorize a pki fs net m before) r ≡ (s₂, ok mid)
          → IsServed c.token (resume rest r).0
      go (state, ok next) later h = later next state h
      go (state, err e) later h = absurd cc

  -- With HTTP-01, an error in the loop over the authorizations ends the order with that error and
  -- in the state of the loop. There the token of every pending authorization that offers an HTTP-01
  -- challenge, and that the loop came to, is still served; the error may be that of its own answer.
  pub issue-leaves_token :
      (m : Manager) (s s₁ s₂ s₃ : Shared S D) (acc : Account) (order : Order)
      (before after : List (Option Authorization)) (z : Authorization) (c : Challenge)
      (mid : Active) (e : AcmeError)
      → account a pki fs net m s ≡ (s₁, ok acc)
      → a.new_order acc m.cfg.domains ≡ some order
      → m.cfg.challenge ≡ AcmeChallenge.http01
      → authorize a pki fs net m order.authorizations inactive s₁ ≡ (s₃, err e)
      → order.authorizations ≡ before ++ some z ∷ after
      → authorize a pki fs net m before inactive s₁ ≡ (s₂, ok mid)
      → z.status ≡ AuthorizationStatus.pending
      → z.challenge ChallengeType.http01 ≡ some c
      → (issue a pki fs net m s ≡ (s₃, err e)) × IsServed c.token s₃
  unfolding issue ◌>>=◌
  issue-leaves_token m s s₁ s₂ s₃ acc order before after z c mid e found ordered http failed items
        reached pending offered =
      let served =
        authorize-IsServed m before after z c inactive mid s₁ s₂ http pending offered reached in
      let same : authorize a pki fs net m (before ++ some z ∷ after) inactive s₁ ≡ (s₃, err e) =
        ap (λ xs. authorize a pki fs net m xs inactive s₁) (sym items) ∙ failed in
      (rw (found, ordered, failed), subst (λ r. IsServed c.token r.0) same served)
