-- ===== src/Acme/Manager/Renewal.antt =====
-- The cached certificate and the renewal loop.
pub mod Served
pub mod Restart
use archetype_proxy_server.Prelude.{
  Bool, true, false, Option, none, some, List, [], ◌∷◌, Result, ok, err, and_then, if◌then◌else◌,
}
use archetype_proxy_server.Tls.{CertifiedKey, store}
use archetype_proxy_server.Acme.{AcmeError}
use archetype_proxy_server.Acme.Dns.{DnsWorld}
use archetype_proxy_server.Acme.Cert.{IssuedCert, Pki, into_certified_key, needs_renewal}
use archetype_proxy_server.Acme.Cache.{Files, load_cert}
use archetype_proxy_server.Acme.Manager.{Authority, Manager, Shared, with_resolver}
use archetype_proxy_server.Acme.Manager.Issue.{issue}

-- A turn of the loop meets the authority, the clock and the network as they are at that time.
pub record Turn (S : Type 0) : Type 1 where
  pub authority : Authority
  pub pki : Pki S
  pub net : DnsWorld

abbrev pub cached : {D : Type 0} → Files D → Manager → D → Option IssuedCert
cached fs m disk = and_then m.cache (λ dir. load_cert fs dir disk)

module _ {S D : Type 0} (fs : Files D) where
  unfoldable pub cert_needs_renewal : Pki S → Manager → D → Bool
  unfolding load_cert needs_renewal
  cert_needs_renewal pki m disk = elim (cached fs m disk) [
    | some c ↦ needs_renewal pki c
    | none ↦ true
  ]

  abbrev pub reuse : Shared S D → Result AcmeError (CertifiedKey S) → Shared S D × Bool
  reuse s (ok ck) = (with_resolver (λ r. store r ck) s, true)
  reuse s (err e) = (s, false)

  abbrev pub check_cached : Pki S → Shared S D → Option IssuedCert → Shared S D × Bool
  check_cached pki s none = (s, false)
  check_cached pki s (some c) =
      if needs_renewal pki c then (s, false) else reuse s (into_certified_key pki c)

  unfoldable pub load_cached : Pki S → Manager → Shared S D → Shared S D × Bool
  unfolding load_cert needs_renewal into_certified_key store
  load_cached pki m s = check_cached pki s (cached fs m s.disk)

  -- `self.resolver.current().is_none_or(|_| self.cert_needs_renewal())`
  unfoldable pub due : Pki S → Manager → Shared S D → Bool
  unfolding cert_needs_renewal
  due pki m s = elim s.resolver.current [ none ↦ true | some ck ↦ cert_needs_renewal pki m s.disk ]

  -- One turn of the loop, after the sleep; a failed order is only logged.
  unfoldable pub renewal_turn : Manager → Shared S D → Turn S → Shared S D
  unfolding due issue
  renewal_turn m s t = if due t.pki m s then (issue t.authority t.pki fs t.net m s).0 else s

  -- The loop, on the turns so far.
  unfoldable pub renewal_loop : Manager → Shared S D → List (Turn S) → Shared S D
  unfolding renewal_turn
  renewal_loop m s [] = s
  renewal_loop m s (t ∷ turns) = renewal_loop m (renewal_turn m s t) turns
