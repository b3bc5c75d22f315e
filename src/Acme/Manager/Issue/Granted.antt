-- ===== src/Acme/Manager/Issue/Granted.antt =====
-- What must have happened for an order to return a certificate.
use archetype_proxy_server.Prelude.{
  ◌≡◌, refl, sym, ap, ◌∙◌, true, Option, none, some, List, [], ◌∷◌, ok, ok_or, ensure, ok_or-eq-ok,
  ensure-eq-ok, All, >>=-eq-ok,
}
use archetype_proxy_server.Steps.{
  Ensures, given, observed, always, weaken, supposing, failed, followed,
}
use archetype_proxy_server.Tls.{CertifiedKey}
use archetype_proxy_server.Acme.{AuthorizationStatus, OrderStatus, challenge_type}
use archetype_proxy_server.Acme.Dns.{DnsWorld}
use archetype_proxy_server.Acme.Cert.{IssuedCert, Pki, into_certified_key}
use archetype_proxy_server.Acme.Cache.{Files}
use archetype_proxy_server.Acme.Manager.{
  Authority, Authorization, Challenge, Order, Manager, Shared, Active, inactive, is_ready,
  finalize_and_fetch,
}
use archetype_proxy_server.Acme.Manager.Issue.{
  respond, by_status, authorize_one, authorize, install, conclude, issue,
}

-- The authority held an authorization valid, or offered the configured challenge for it and took
-- the word that it is ready.
pub data IsCleared (m : Manager) (item : Option Authorization) : Type 0 where
  already :
      (z : Authorization) → item ≡ some z → z.status ≡ AuthorizationStatus.valid → IsCleared m item
  responded :
      (z : Authorization) (c : Challenge)
      → item ≡ some z
      → z.status ≡ AuthorizationStatus.pending
      → z.challenge (challenge_type m.cfg.challenge) ≡ some c
      → c.set_ready ≡ true
      → IsCleared m item

module _ {S D : Type 0} (a : Authority) (pki : Pki S) (fs : Files D) (net : DnsWorld) where
  open a use {Account}

  abbrev Always : Shared S D → Type 0
  Always s = Unit

  by_status-IsCleared :
      (m : Manager) (z : Authorization) (active : Active) (status : AuthorizationStatus)
      → z.status ≡ status
      → Ensures Always (by_status a pki fs net m z active status) (λ _ _. IsCleared m (some z))
  unfolding by_status respond
  by_status-IsCleared m z active AuthorizationStatus.pending e =
      followed (observed (ok_or (z.challenge _) _)) (λ c. supposing (λ offered.
        followed always (λ next. followed (observed (ensure c.set_ready _)) (λ _. given (λ s ready.
          responded z c refl e (ok_or-eq-ok _ _ offered.0) (ensure-eq-ok _ _ ready.0))))))
  by_status-IsCleared m z active AuthorizationStatus.valid e = given (λ s h. already z refl e)
  by_status-IsCleared m z active AuthorizationStatus.invalid e = failed _
  by_status-IsCleared m z active AuthorizationStatus.revoked e = failed _
  by_status-IsCleared m z active AuthorizationStatus.expired e = failed _
  by_status-IsCleared m z active AuthorizationStatus.deactivated e = failed _

  authorize_one-IsCleared :
      (m : Manager) (item : Option Authorization) (active : Active)
      → Ensures Always (authorize_one a pki fs net m item active) (λ _ _. IsCleared m item)
  unfolding authorize_one
  authorize_one-IsCleared m none active = failed _
  authorize_one-IsCleared m (some z) active = by_status-IsCleared m z active z.status refl

  authorize-IsCleared :
      (m : Manager) (items : List (Option Authorization)) (active : Active)
      → Ensures Always (authorize a pki fs net m items active) (λ _ _. All (IsCleared m) items)
  unfolding authorize
  authorize-IsCleared m [] active = given (λ s h. tt)
  authorize-IsCleared m (item ∷ items) active =
      followed (authorize_one-IsCleared m item active) (λ next.
        supposing
          (λ cleared. weaken (λ _ _ rest. (cleared, rest)) (authorize-IsCleared m items next)))

  -- An order of the configured domains, every authorization of which was cleared and whose
  -- finalization returned the certificate.
  pub record IsGranted (m : Manager) (issued : IssuedCert) : Type 0 where
    pub acc : Account
    pub order : Order
    pub ordered : a.new_order acc m.cfg.domains ≡ some order
    pub cleared : All (IsCleared m) order.authorizations
    pub ready : order.poll_ready ≡ some OrderStatus.ready
    pub key_pem : order.finalize ≡ some issued.key_pem
    pub cert_pem : order.poll_certificate ≡ some issued.cert_pem
    pub key : CertifiedKey S
    pub usable : into_certified_key pki issued ≡ ok key

  is_ready-eq-true : (status : OrderStatus) → is_ready status ≡ true → status ≡ OrderStatus.ready
  is_ready-eq-true OrderStatus.ready h = refl
  is_ready-eq-true OrderStatus.pending h = cc
  is_ready-eq-true OrderStatus.processing h = cc
  is_ready-eq-true OrderStatus.valid h = cc
  is_ready-eq-true OrderStatus.invalid h = cc

  -- A certificate is fetched only for an order that was ready, and is the one of that order.
  finalize_and_fetch-eq-ok :
      (order : Order) (issued : IssuedCert)
      → finalize_and_fetch order ≡ ok issued
      → (order.poll_ready ≡ some OrderStatus.ready)
        × (order.finalize ≡ some issued.key_pem)
        × (order.poll_certificate ≡ some issued.cert_pem)
  unfolding finalize_and_fetch
  finalize_and_fetch-eq-ok order issued h =
      let (status, polled, h₁) = >>=-eq-ok (ok_or order.poll_ready _) _ h in
      let (_, ready, h₂) = >>=-eq-ok (ensure (is_ready status) _) _ h₁ in
      let (key_pem, finalized, h₃) = >>=-eq-ok (ok_or order.finalize _) _ h₂ in
      let (cert_pem, fetched, h₄) = >>=-eq-ok (ok_or order.poll_certificate _) _ h₃ in
      let same : record { cert_pem = cert_pem; key_pem = key_pem } ≡ issued = cc in
      (
        ok_or-eq-ok _ _ polled ∙ ap some (is_ready-eq-true status (ensure-eq-ok _ _ ready)),
        ok_or-eq-ok _ _ finalized ∙ ap (λ c. some c.key_pem) same,
        ok_or-eq-ok _ _ fetched ∙ ap (λ c. some c.cert_pem) same,
      )

  install-usable :
      (m : Manager) (issued : IssuedCert)
      → Ensures Always (install a pki fs net m issued) (λ c _.
        (c ≡ issued) × ((key : CertifiedKey S) × (into_certified_key pki issued ≡ ok key)))
  unfolding install
  install-usable m issued = followed always (λ _.
      followed (observed (into_certified_key pki issued)) (λ key.
        supposing (λ parsed. followed always (λ _. given (λ s h. (refl, (key, parsed.0)))))))

  -- A certificate is returned only when the authority took an order of exactly the configured
  -- domains, held each of its authorizations valid or was given the configured challenge's
  -- response for it, and then reported the order as ready; the certificate and the key are what
  -- the finalization of that order returned, and they parse and match.
  pub issue-IsGranted :
      (m : Manager) → Ensures Always (issue a pki fs net m) (λ issued _. IsGranted m issued)
  unfolding issue conclude
  issue-IsGranted m = followed always (λ acc.
      followed (observed (ok_or (a.new_order acc m.cfg.domains) _)) (λ order. supposing (λ ordered.
        followed (authorize-IsCleared m order.authorizations inactive) (λ active.
          supposing (λ cleared.
            followed (given {Q = λ r _. r ≡ finalize_and_fetch order} (λ s h. refl)) (λ result.
              supposing (λ same. followed always (λ _. followed (observed result) (λ issued.
                supposing (λ finalized.
                  weaken
                    (λ c _ h.
                      let (ready, key_pem, cert_pem) =
                        finalize_and_fetch-eq-ok order c
                          (sym same ∙ finalized.0 ∙ ap ok (sym h.0)) in
                      record {
                        acc = acc;
                        order = order;
                        ordered = ok_or-eq-ok _ _ ordered.0;
                        cleared = cleared;
                        ready = ready;
                        key_pem = key_pem;
                        cert_pem = cert_pem;
                        key = h.1.0;
                        usable = ap (into_certified_key pki) h.0 ∙ h.1.1;
                      })
                    (install-usable m issued)))))))))))
