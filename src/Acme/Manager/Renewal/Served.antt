-- ===== src/Acme/Manager/Renewal/Served.antt =====
-- When a renewal is due, and where the certificate that is served comes from.
use mathlib.Core.List.{Memᴰ}
use mathlib.Core.List.Memᴰ.{head, tail, not-nil}
use archetype_proxy_server.Prelude.{
  ℕ, ◌<◌, ◌≡◌, ◌≢◌, refl, sym, ◌∙◌, ◌↔◌, ◌⊎◌, inl, inr, Bool, true, false, Option, none, some, List,
  [], ◌∷◌, Result, ok, err, arith, leb, if◌then◌else◌, Option-cases,
}
use archetype_proxy_server.Steps.{Holds}
use archetype_proxy_server.Tls.{CertifiedKey}
use archetype_proxy_server.Acme.{AcmeError, renew_before}
use archetype_proxy_server.Acme.Cert.{
  IssuedCert, Pki, into_certified_key, time_to_expiry, needs_renewal,
}
use archetype_proxy_server.Acme.Cache.{Files}
use archetype_proxy_server.Acme.Manager.{Manager, Shared}
use archetype_proxy_server.Acme.Manager.Issue.{issue}
use archetype_proxy_server.Acme.Manager.Issue.Installed.{Settles, issue-Settles}
use archetype_proxy_server.Acme.Manager.Issue.Granted.{IsGranted, issue-IsGranted}
use archetype_proxy_server.Acme.Manager.Renewal.{
  Turn, cached, cert_needs_renewal, due, renewal_turn, renewal_loop,
}

module _ {S D : Type 0} (fs : Files D) where
  -- A certificate is served, and the one in the cache outlives the renewal lead.
  pub record IsSettled (pki : Pki S) (m : Manager) (s : Shared S D) : Type 0 where
    pub key : CertifiedKey S
    pub stored : IssuedCert
    pub remaining : ℕ
    pub serving : s.resolver.current ≡ some key
    pub caching : cached fs m s.disk ≡ some stored
    pub expiry : time_to_expiry pki stored ≡ some remaining
    pub lasting : renew_before < remaining

  -- A turn of the renewal loop lets the order be exactly when a certificate is served and the
  -- cached one has more than thirty days left: without a cache, every turn orders.
  pub due_iff :
      (pki : Pki S) (m : Manager) (s : Shared S D) → (due fs pki m s ≡ false) ↔ IsSettled pki m s
  unfolding due cert_needs_renewal needs_renewal
  due_iff pki m s = (sound, complete)
    where
      lasting_of : (n : ℕ) → leb n renew_before ≡ false → renew_before < n
      lasting_of n h = ground arith

      sound : due fs pki m s ≡ false → IsSettled pki m s
      sound h = elim (Option-cases s.resolver.current) [
        | inl e ↦ absurd (ground arith)
        | inr (key, serving) ↦ elim (Option-cases (cached fs m s.disk)) [
          | inl e ↦ absurd (ground arith)
          | inr (stored, caching) ↦ elim (Option-cases (time_to_expiry pki stored)) [
            | inl e ↦ absurd (ground arith)
            | inr (n, expiry) ↦ record {
              key = key;
              stored = stored;
              remaining = n;
              serving = serving;
              caching = caching;
              expiry = expiry;
              lasting = ground arith;
            }
          ]
        ]
      ]

      complete : IsSettled pki m s → due fs pki m s ≡ false
      complete h = ground (arith, h.serving, h.caching, h.expiry, h.lasting)

  -- The certificate that an order of this turn returned, as a key to serve.
  pub record IsRenewed (m : Manager) (ck : CertifiedKey S) (t : Turn S) : Type 0 where
    pub issued : IssuedCert
    pub granted : IsGranted {D = D} t.authority t.pki fs t.net m issued
    pub parsed : into_certified_key t.pki issued ≡ ok ck

  -- Where a served certificate may come from.
  abbrev pub Origin :
      Manager → Option (CertifiedKey S) → List (Turn S) → Option (CertifiedKey S) → Type 1
  Origin m before turns served =
      (served ≡ before)
      ⊎ ((t : Turn S) × Memᴰ t turns
          × ((ck : CertifiedKey S) × (served ≡ some ck) × IsRenewed m ck t))

  renewal_turn-Origin :
      (m : Manager) (s : Shared S D) (t : Turn S)
      → Origin m s.resolver.current (t ∷ []) (renewal_turn fs m s t).resolver.current
  unfolding renewal_turn
  renewal_turn-Origin m s t = by_due (due fs t.pki m s)
    where
      of_issue :
          (r : Shared S D × Result AcmeError IssuedCert)
          → Settles t.authority t.pki fs t.net (s.resolver.current) r
          → Holds (λ issued _. IsGranted {D = D} t.authority t.pki fs t.net m issued) r
          → Origin m s.resolver.current (t ∷ []) r.0.resolver.current
      of_issue (s', ok issued) (ck, parsed, served) granted = inr (
        t,
        head refl,
        (ck, served, record { issued = issued; granted = granted; parsed = parsed }),
      )
      of_issue (s', err e) kept granted = inl kept

      by_due :
          (b : Bool)
          → Origin m s.resolver.current
              (t ∷ [])
              (if b then (issue t.authority t.pki fs t.net m s).0 else s).resolver.current
      by_due true =
          of_issue (issue t.authority t.pki fs t.net m s)
            (issue-Settles t.authority t.pki fs t.net m s)
            ((issue-IsGranted t.authority t.pki fs t.net m).run s tt)
      by_due false = inl refl

  -- Whatever the turns of the renewal loop meet, the certificate that is served afterwards is the
  -- one that was served before, or one that an order of one of these turns was granted.
  pub renewal_loop-Origin :
      (m : Manager) (s : Shared S D) (turns : List (Turn S))
      → Origin m s.resolver.current turns (renewal_loop fs m s turns).resolver.current
  unfolding renewal_loop
  renewal_loop-Origin m s [] = inl refl
  renewal_loop-Origin m s (t ∷ turns) = elim (renewal_loop-Origin m (renewal_turn fs m s t) turns) [
    | inr (u, mem, from) ↦ inr (u, tail mem, from)
    | inl same ↦ elim (renewal_turn-Origin m s t) [
      | inl kept ↦ inl (same ∙ kept)
      | inr (u, head e, (ck, served, renewed)) ↦ inr (u, head e, (ck, same ∙ served, renewed))
      | inr (u, tail mem, from) ↦ absurd (not-nil mem)
    ]
  ]

  option_ne : (ck : CertifiedKey S) → some ck ≢ none
  option_ne ck e = cc

  -- A listener that serves a certificate goes on serving one.
  pub renewal_loop-serves :
      (m : Manager) (s : Shared S D) (turns : List (Turn S))
      → s.resolver.current ≢ none
      → (renewal_loop fs m s turns).resolver.current ≢ none
  renewal_loop-serves m s turns some_cert e = elim (renewal_loop-Origin m s turns) [
    | inl kept ↦ some_cert (sym kept ∙ e)
    | inr (u, mem, (ck, served, renewed)) ↦ option_ne ck (sym served ∙ e)
  ]
