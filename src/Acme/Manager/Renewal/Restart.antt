-- ===== src/Acme/Manager/Renewal/Restart.antt =====
-- A certificate that an order stored is served again after a restart.
use archetype_proxy_server.Prelude.{
  ◌≡◌, ◌≢◌, refl, sym, ap, ◌∙◌, subst, Bool, true, false, Option, none, some, [], ◌∷◌, ◌++◌, Result,
  ok, err, ensure,
}
use archetype_proxy_server.Text.{Str, codes}
use archetype_proxy_server.Steps.{Step, Holds, Ensures, silent, given, always, followed, weaken}
use archetype_proxy_server.Tls.{store}
use archetype_proxy_server.Acme.{AcmeError, cache, cert_file, key_file}
use archetype_proxy_server.Acme.Dns.{DnsWorld}
use archetype_proxy_server.Acme.Cert.{IssuedCert, Pki, into_certified_key, needs_renewal}
use archetype_proxy_server.Acme.Cache.{Files, in_dir, read, write, load_cert, store_cert}
use archetype_proxy_server.Acme.Manager.{Authority, Manager, Shared, on_disk, with_disk}
use archetype_proxy_server.Acme.Manager.Issue.{save_cert, install, conclude, issue}
use archetype_proxy_server.Acme.Manager.Issue.Installed.{issue-Settles, Settles}
use archetype_proxy_server.Acme.Manager.Renewal.{load_cached}

-- What is read of a file is what was written last, and other files are not touched.
pub record IsFileSystem {D : Type 0} (fs : Files D) : Type 0 where
  pub same_file :
      (d : D) (path contents : Str)
      → (fs.write d path contents).1 ≡ true
      → fs.read_to_string (fs.write d path contents).0 path ≡ some contents
  pub other_file :
      (d : D) (path contents other : Str)
      → other ≢ path
      → fs.read_to_string (fs.write d path contents).0 other ≡ fs.read_to_string d other

append_cancel : (s : Str) {t u : Str} → s ++ t ≡ s ++ u → t ≡ u
append_cancel [] e = e
append_cancel (c ∷ s) e = append_cancel s cc

files_differ : (dir : Str) → in_dir dir cert_file ≢ in_dir dir key_file
files_differ dir e =
    let names : cert_file ≡ key_file = append_cancel (dir ++ codes "/") e in absurd cc

module _ {D : Type 0} (fs : Files D) (law : IsFileSystem fs) where
  write-Ensures :
      (dir name contents : Str)
      → Ensures (λ _. Unit) (write fs dir name contents) (λ _ d. read fs dir name d ≡ some contents)
  unfolding write read
  write-Ensures dir name contents = record {
    run = λ d h.
        go (fs.write d (in_dir dir name) contents) (law.same_file d (in_dir dir name) contents);
  }
    where
      go :
          (r : D × Bool)
          → (r.1 ≡ true → fs.read_to_string r.0 (in_dir dir name) ≡ some contents)
          → Holds {E = AcmeError}
              (λ _ d. fs.read_to_string d (in_dir dir name) ≡ some contents)
              (r.0, ensure r.1 (cache (in_dir dir name)))
      go (d, true) h = h refl
      go (d, false) h = tt

  second-Ensures :
      (dir : Str) (c : IssuedCert)
      → Ensures
          (λ d. read fs dir cert_file d ≡ some c.cert_pem)
          (write fs dir key_file c.key_pem)
          (λ _ d. load_cert fs dir d ≡ some c)
  unfolding write read load_cert
  second-Ensures dir c = record {
    run = λ d h.
        both (fs.write d (in_dir dir key_file) c.key_pem)
          (law.same_file d (in_dir dir key_file) c.key_pem)
          (law.other_file d (in_dir dir key_file) c.key_pem (in_dir dir cert_file)
              (files_differ dir)
            ∙ h);
  }
    where
      both :
          (r : D × Bool)
          → (r.1 ≡ true → fs.read_to_string r.0 (in_dir dir key_file) ≡ some c.key_pem)
          → fs.read_to_string r.0 (in_dir dir cert_file) ≡ some c.cert_pem
          → Holds {E = AcmeError}
              (λ _ d'. load_cert fs dir d' ≡ some c)
              (r.0, ensure r.1 (cache (in_dir dir key_file)))
      both (d', true) key pem = rw (pem, key refl) refl
      both (d', false) key pem = tt

  store_cert-Ensures :
      (dir : Str) (c : IssuedCert)
      → Ensures (λ _. Unit) (store_cert fs dir c) (λ _ d. load_cert fs dir d ≡ some c)
  unfolding store_cert
  store_cert-Ensures dir c =
      followed (write-Ensures dir cert_file c.cert_pem) (λ _. second-Ensures dir c)

  module _ {S : Type 0} (a : Authority) (pki : Pki S) (net : DnsWorld) where
    on_disk-Ensures :
        {A : Type 0} {P : D → Type 0} {Q : A → D → Type 0} {step : Step D AcmeError A}
        → Ensures P step Q
        → Ensures (λ s. P s.disk) (on_disk {S = S} step) (λ x s. Q x s.disk)
    on_disk-Ensures {Q = Q} {step = step} h = record {
      run = λ s p. go s (step s.disk) (h.run s.disk p);
    }
      where
        go :
            (s : Shared S D) (r : D × Result AcmeError _)
            → Holds Q r
            → Holds (λ x t. Q x t.disk) (with_disk s r.0, r.1)
        go s (d, ok x) q = q
        go s (d, err e) q = tt

    save_cert-Ensures :
        (cache : Option Str) (dir : Str) (issued : IssuedCert)
        → cache ≡ some dir
        → Ensures
            (λ _. Unit)
            (save_cert a pki fs net cache issued)
            (λ _ s. load_cert fs dir s.disk ≡ some issued)
    unfolding save_cert
    save_cert-Ensures none dir issued e = absurd cc
    save_cert-Ensures (some d) dir issued e =
        let same : dir ≡ d = cc in
        rw same (followed always (λ _. on_disk-Ensures (store_cert-Ensures d issued)))

    install-Ensures :
        (m : Manager) (dir : Str) (issued : IssuedCert)
        → m.cache ≡ some dir
        → Ensures
            (λ _. Unit)
            (install a pki fs net m issued)
            (λ c s. (c ≡ issued) × (load_cert fs dir s.disk ≡ some issued))
    unfolding install save_cert
    install-Ensures m dir issued e = followed (save_cert-Ensures m.cache dir issued e) (λ _.
        followed (silent (λ s h. h))
          (λ ck. followed (silent (λ s h. h)) (λ _. given (λ s h. (refl, h)))))

    issue-Ensures :
        (m : Manager) (dir : Str)
        → m.cache ≡ some dir
        → Ensures
            (λ _. Unit)
            (issue a pki fs net m)
            (λ issued s. load_cert fs dir s.disk ≡ some issued)
    unfolding issue conclude
    issue-Ensures m dir e = followed always (λ acc. followed always (λ order.
        followed always (λ active. followed always (λ result. followed always (λ _.
          followed always (λ issued.
            weaken (λ c s h. h.1 ∙ ap some (sym h.0)) (install-Ensures m dir issued e)))))))

    -- On a file system that keeps what is written: a manager that starts with the files that a
    -- successful order left, and reads the same key out of them, serves the certificate of that
    -- order at once, unless it needs renewal by then.
    pub load_cached-issue :
        (m : Manager) (dir : Str) (s s' fresh : Shared S D) (issued : IssuedCert) (later : Pki S)
        → m.cache ≡ some dir
        → issue a pki fs net m s ≡ (s', ok issued)
        → fresh.disk ≡ s'.disk
        → into_certified_key later issued ≡ into_certified_key pki issued
        → needs_renewal later issued ≡ false
        → ((load_cached fs later m fresh).1 ≡ true)
          × ((load_cached fs later m fresh).0.resolver.current ≡ s'.resolver.current)
    unfolding load_cached store
    load_cached-issue m dir s s' fresh issued later e done_ok same_disk same_key lasting =
        let stored : load_cert fs dir s'.disk ≡ some issued =
          subst (Holds (λ c t. load_cert fs dir t.disk ≡ some c)) done_ok
            ((issue-Ensures m dir e).run s tt) in
        let (ck, parsed, served) =
          subst (Settles a pki fs net s.resolver.current) done_ok
            (issue-Settles a pki fs net m s) in
        let loaded : load_cert fs dir fresh.disk ≡ some issued =
          ap (load_cert fs dir) same_disk ∙ stored in
        rw (e, loaded, lasting, same_key, parsed) (refl, sym served)
