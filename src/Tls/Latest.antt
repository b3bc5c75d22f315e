-- ===== src/Tls/Latest.antt =====
-- The ACME resolver against its history: what a handshake is served after any sequence of changes.
use archetype_proxy_server.Prelude.{
  ◌≡◌, refl, Bool, true, false, Option, none, some, List, [], ◌∷◌, Bool-cases, inl, inr,
  if◌then◌else◌,
}
use archetype_proxy_server.Text.{Str, str_eq}
use archetype_proxy_server.Text.Laws.{eq_of_str_eq, str_eq_refl, ne_of_str_eq}
use archetype_proxy_server.Ordered.{get, IsOrdered}
use archetype_proxy_server.Ordered.Laws.{
  get-insert_self, get-insert_ne, get-remove_self, get-remove_ne, insert-IsOrdered,
  remove-IsOrdered,
}
use archetype_proxy_server.Ordered.Keys.{str_ord}
use archetype_proxy_server.Tls.{
  CertifiedKey, AcmeResolver, challenge_for, empty, store, set_challenge, clear_challenge,
  ClientHello, is_acme_alpn, acme_resolve,
}

-- The calls that change a resolver.
pub data Change (S : Type 0) : Type 0 where
  installed : CertifiedKey S → Change S
  published : Str → CertifiedKey S → Change S
  withdrawn : Str → Change S

module _ {S : Type 0} where
  abbrev pub change : AcmeResolver S → Change S → AcmeResolver S
  change r (installed ck) = store r ck
  change r (published domain ck) = set_challenge r domain ck
  change r (withdrawn domain) = clear_challenge r domain

  -- The resolver after a history, the last change first.
  unfoldable pub after : List (Change S) → AcmeResolver S
  unfolding empty store set_challenge clear_challenge
  after [] = empty
  after (c ∷ earlier) = change (after earlier) c

  -- The certificate that was installed last.
  unfoldable pub last_installed : List (Change S) → Option (CertifiedKey S)
  last_installed [] = none
  last_installed (installed ck ∷ earlier) = some ck
  last_installed (published domain ck ∷ earlier) = last_installed earlier
  last_installed (withdrawn domain ∷ earlier) = last_installed earlier

  -- The validation certificate that was published last for a name and not withdrawn since.
  unfoldable pub last_published : Str → List (Change S) → Option (CertifiedKey S)
  unfolding str_eq
  last_published name [] = none
  last_published name (installed ck ∷ earlier) = last_published name earlier
  last_published name (published domain ck ∷ earlier) =
      if str_eq name domain then some ck else last_published name earlier
  last_published name (withdrawn domain ∷ earlier) =
      if str_eq name domain then none else last_published name earlier

  after-IsOrdered : (history : List (Change S)) → IsOrdered (after history).challenges
  unfolding after
  after-IsOrdered [] = tt
  after-IsOrdered (installed ck ∷ earlier) = after-IsOrdered earlier
  after-IsOrdered (published domain ck ∷ earlier) =
      insert-IsOrdered domain ck (after earlier).challenges (after-IsOrdered earlier)
  after-IsOrdered (withdrawn domain ∷ earlier) =
      remove-IsOrdered domain (after earlier).challenges (after-IsOrdered earlier)

  current-after : (history : List (Change S)) → (after history).current ≡ last_installed history
  unfolding after last_installed
  current-after [] = refl
  current-after (installed ck ∷ earlier) = refl
  current-after (published domain ck ∷ earlier) = current-after earlier
  current-after (withdrawn domain ∷ earlier) = current-after earlier

  get-after :
      (name : Str) (history : List (Change S))
      → get name (after history).challenges ≡ last_published name history
  unfolding after last_published get
  get-after name [] = refl
  get-after name (installed ck ∷ earlier) = get-after name earlier
  get-after name (published domain ck ∷ earlier) = elim (Bool-cases (str_eq name domain)) [
    | inl same ↦
        rw (eq_of_str_eq name domain same, str_eq_refl domain)
          (get-insert_self domain ck (after earlier).challenges)
    | inr other ↦
        rw
          (
            get-insert_ne name domain ck (after earlier).challenges
                (ne_of_str_eq name domain other),
            other,
          )
          (get-after name earlier)
  ]
  get-after name (withdrawn domain ∷ earlier) = elim (Bool-cases (str_eq name domain)) [
    | inl same ↦
        rw (eq_of_str_eq name domain same, str_eq_refl domain)
          (get-remove_self domain (after earlier).challenges (after-IsOrdered earlier))
    | inr other ↦
        rw
          (
            get-remove_ne name domain (after earlier).challenges (after-IsOrdered earlier)
                (ne_of_str_eq name domain other),
            other,
          )
          (get-after name earlier)
  ]

  -- What a handshake should be served after a history: whether it offers the ACME protocol, and
  -- the name that it asks for.
  abbrev pub served : List (Change S) → Bool → Option Str → Option (CertifiedKey S)
  served history true none = none
  served history true (some name) = last_published name history
  served history false name = last_installed history

  -- Whatever was stored, set and cleared before, in any order: a handshake that offers the ACME
  -- protocol is served the validation certificate that was set last for its server name and not
  -- cleared since, and none without a name; any other handshake is served the certificate that was
  -- stored last.
  pub acme_resolve-after :
      (history : List (Change S)) (hello : ClientHello)
      → acme_resolve (after history) hello ≡ served history (is_acme_alpn hello) hello.server_name
  unfolding acme_resolve
  acme_resolve-after history hello = by_kind (is_acme_alpn hello) hello.server_name
    where
      by_kind :
          (acme : Bool) (name : Option Str)
          → (if acme then challenge_for (after history) name else (after history).current)
            ≡ served history acme name
      by_kind true none = refl
      by_kind true (some name) = get-after name history
      by_kind false name = current-after history
