-- ===== src/Acme/Dns/Zones.antt =====
-- The zone of a record, found through the cache, whatever the API replies.
use archetype_proxy_server.Prelude.{
  ◌≡◌, ◌⊎◌, refl, sym, ap, ◌∙◌, inl, inr, Option, none, some, List, [], ◌∷◌, ◌++◌, Result, ok, err,
  subst, append_assoc,
}
use archetype_proxy_server.Text.{Str}
use archetype_proxy_server.Ordered.{get}
use archetype_proxy_server.Ordered.Keys.{str_ord}
use archetype_proxy_server.Steps.{done, resume, ◌>>=◌}
use archetype_proxy_server.Acme.{AcmeError, dns, no_zone}
use archetype_proxy_server.Acme.Dns.{CfZone, Call, DnsWorld, DnsState, DnsStep, called}
use archetype_proxy_server.Acme.Dns.Cloudflare.{
  CloudflareDnsProvider, zones_call, zone_candidates, lookup, found_zone, cached_or, search_zones,
  resolve_zone_id,
}
use archetype_proxy_server.Acme.Dns.Answers.{
  zone_answer, WasAnswered-later, WasAnswered, WasNamed, IsRecorded-called, IsRecorded-remember,
  IsRecorded,
}

module _ (w : DnsWorld) (p : CloudflareDnsProvider) where
  -- The outcome for a list of candidates: the zone that the API named for one of them, where it
  -- knew none for those before it; its error for one of them; or that it knew none for any.
  pub data IsOutcome (record_name : Str) (calls : List Call)
      : List Str → Result AcmeError Str → Type 0 where
    named :
        {c : Str} {cs : List Str} {id : Str}
        → WasNamed w p calls c id
        → IsOutcome record_name calls (c ∷ cs) (ok id)
    passed :
        {c : Str} {cs : List Str} {r : Result AcmeError Str}
        → WasAnswered w p calls c (ok none)
        → IsOutcome record_name calls cs r
        → IsOutcome record_name calls (c ∷ cs) r
    failed :
        {c : Str} {cs : List Str} {e : AcmeError}
        → WasAnswered w p calls c (err e)
        → IsOutcome record_name calls (c ∷ cs) (err e)
    exhausted : IsOutcome record_name calls [] (err (dns (no_zone record_name)))

  -- The state after a lookup of a zone: calls were added at most, and the cache is recorded.
  pub record IsGrown (before after : DnsState) : Type 0 where
    pub added : List Call
    pub calls : after.calls ≡ added ++ before.calls
    pub records : after.records ≡ before.records
    pub recorded : IsRecorded w p after

  -- The outcome, after calls that were added.
  abbrev Resolves :
      (record_name : Str) → List Str → DnsState → DnsState × Result AcmeError Str → Type 0
  Resolves record_name cs d r = IsGrown d r.0 × IsOutcome record_name r.0.calls cs r.1

  unchanged : (d : DnsState) → IsRecorded w p d → IsGrown d d
  unchanged d h = record { added = []; calls = refl; records = refl; recorded = h }

  asked_of :
      (c : Str) (d : DnsState) (answer : Result AcmeError (Option CfZone))
      → zone_answer w p d.calls c ≡ answer
      → WasAnswered w p (zones_call w p c ∷ d.calls) c answer
  asked_of c d answer e = record { later = []; earlier = d.calls; asked = refl; answered = e }

  -- A candidate without a zone is passed over.
  passed-Resolves :
      (record_name c : Str) (cs : List Str) (d : DnsState) (r : DnsState × Result AcmeError Str)
      → zone_answer w p d.calls c ≡ ok none
      → Resolves record_name cs (called (zones_call w p c) d) r
      → Resolves record_name (c ∷ cs) d r
  passed-Resolves record_name c cs d r miss (grown, outcome) = (
    record {
      added = grown.added ++ zones_call w p c ∷ [];
      calls = grown.calls ∙ sym (append_assoc grown.added (zones_call w p c ∷ []) d.calls);
      records = grown.records;
      recorded = grown.recorded;
    },
    passed
        (subst (λ calls. WasAnswered w p calls c (ok none)) (sym grown.calls)
          (WasAnswered-later w p grown.added (asked_of c d (ok none) miss)))
        outcome,
  )

  module _ (record_name c : Str) (cs : List Str) (rest : DnsStep Str)
      (rest-Resolves : (d : DnsState) → IsRecorded w p d → Resolves record_name cs d (rest d)) where
    found-Resolves :
        (answer : Result AcmeError (Option CfZone)) (d : DnsState)
        → IsRecorded w p d
        → zone_answer w p d.calls c ≡ answer
        → Resolves record_name
            (c ∷ cs)
            d
            (resume (found_zone w p c rest) (called (zones_call w p c) d, answer))
    unfolding ◌>>=◌
    found-Resolves (err e) d h same = (
      record {
        added = zones_call w p c ∷ [];
        calls = refl;
        records = refl;
        recorded = IsRecorded-called w p d (zones_call w p c) h;
      },
      failed (asked_of c d (err e) same),
    )
    found-Resolves (ok none) d h same =
        passed-Resolves record_name c cs d (rest (called (zones_call w p c) d)) same (
          rest-Resolves (called (zones_call w p c) d)
            (IsRecorded-called w p d (zones_call w p c) h))
    found-Resolves (ok (some zone)) d h same =
        let answer = asked_of c d (ok (some zone)) same in
        (
          record {
            added = zones_call w p c ∷ [];
            calls = refl;
            records = refl;
            recorded =
                IsRecorded-remember w p (called (zones_call w p c) d) c zone answer
                  (IsRecorded-called w p d (zones_call w p c) h);
          },
          named (zone, answer, refl),
        )

    cached-Resolves :
        (hit : Option Str) (d : DnsState)
        → IsRecorded w p d
        → get c d.zone_cache ≡ hit
        → Resolves record_name (c ∷ cs) d (cached_or w p c rest hit d)
    unfolding ◌>>=◌ lookup zone_answer
    cached-Resolves (some id) d h same = (unchanged d h, named (h c id same))
    cached-Resolves none d h same = found-Resolves (zone_answer w p d.calls c) d h refl

  search_zones-Resolves :
      (record_name : Str) (cs : List Str) (d : DnsState)
      → IsRecorded w p d
      → Resolves record_name cs d (search_zones w p record_name cs d)
  unfolding search_zones
  search_zones-Resolves record_name [] d h = (unchanged d h, exhausted)
  search_zones-Resolves record_name (c ∷ cs) d h =
      cached-Resolves record_name c cs (search_zones w p record_name cs)
        (search_zones-Resolves record_name cs) (get c d.zone_cache) d h refl

  -- `resolve_zone_id`, for what is configured.
  abbrev by_zone_id : (record_name : Str) → Option Str → DnsStep Str
  by_zone_id record_name (some id) d = (d, ok id)
  by_zone_id record_name none d = search_zones w p record_name (zone_candidates record_name) d

  by_zone_id-IsOutcome :
      (record_name : Str) (zone_id : Option Str) (d : DnsState)
      → IsRecorded w p d
      → IsGrown d (by_zone_id record_name zone_id d).0
        × (((id : Str) × (zone_id ≡ some id) × (by_zone_id record_name zone_id d ≡ (d, ok id)))
            ⊎ ((zone_id ≡ none)
                × IsOutcome record_name
                    (by_zone_id record_name zone_id d).0.calls
                    (zone_candidates record_name)
                    (by_zone_id record_name zone_id d).1))
  by_zone_id-IsOutcome record_name (some id) d h = (unchanged d h, inl (id, refl, refl))
  by_zone_id-IsOutcome record_name none d h =
      let (grown, outcome) = search_zones-Resolves record_name (zone_candidates record_name) d h in
      (grown, inr (refl, outcome))

  resolve_zone_id-by :
      (record_name : Str) (zone_id : Option Str) (d : DnsState)
      → p.zone_id ≡ zone_id
      → resolve_zone_id w p record_name d ≡ by_zone_id record_name zone_id d
  unfolding resolve_zone_id
  resolve_zone_id-by record_name zone_id d e =
      same p.zone_id ∙ ap (λ z. by_zone_id record_name z d) e
    where
      same :
          (z : Option Str)
          → (elim z as (λ _. DnsStep Str) [
            | some id ↦ done id
            | none ↦ search_zones w p record_name (zone_candidates record_name)
          ])
              d
            ≡ by_zone_id record_name z d
      same (some id) = refl
      same none = refl

  pub resolve_zone_id-IsOutcome :
      (record_name : Str) (d : DnsState)
      → IsRecorded w p d
      → IsGrown d (resolve_zone_id w p record_name d).0
        × (((id : Str) × (p.zone_id ≡ some id) × (resolve_zone_id w p record_name d ≡ (d, ok id)))
            ⊎ ((p.zone_id ≡ none)
                × IsOutcome record_name
                    (resolve_zone_id w p record_name d).0.calls
                    (zone_candidates record_name)
                    (resolve_zone_id w p record_name d).1))
  resolve_zone_id-IsOutcome record_name d h =
      subst
        (λ r.
          IsGrown d r.0
          × (((id : Str) × (p.zone_id ≡ some id) × (r ≡ (d, ok id)))
              ⊎ ((p.zone_id ≡ none)
                  × IsOutcome record_name r.0.calls (zone_candidates record_name) r.1)))
        (sym (resolve_zone_id-by record_name p.zone_id d refl))
        (by_zone_id-IsOutcome record_name p.zone_id d h)
