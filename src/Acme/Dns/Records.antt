-- ===== src/Acme/Dns/Records.antt =====
-- A TXT record that Cloudflare created is deleted again.
use archetype_proxy_server.Prelude.{
  ◌≡◌, ◌⊎◌, inl, inr, none, refl, sym, ap, ◌∙◌, some, List, ◌∷◌, ◌++◌, Result, ok, err, subst,
}
use archetype_proxy_server.Text.{Str, codes}
use archetype_proxy_server.Ordered.{get, IsOrdered}
use archetype_proxy_server.Ordered.Laws.{get-insert_self, get-remove_self, insert-IsOrdered}
use archetype_proxy_server.Steps.{Holds, Ensures, written, followed}
use archetype_proxy_server.Acme.{AcmeError, create_request, create_decode, create_refused}
use archetype_proxy_server.Acme.Dns.{
  CfRecord, Call, post_txt, delete, sleep, DnsWorld, DnsState, called,
}
use archetype_proxy_server.Acme.Dns.Cloudflare.{
  CloudflareDnsProvider, decoded, created_record, record_key, untrack, delete_record,
  cleanup_tracked, create, records_url, resolve_zone_id, zone_candidates, cloudflare_publish,
  cloudflare_cleanup,
}
use archetype_proxy_server.Acme.Dns.Answers.{IsRecorded, IsRecorded-called}
use archetype_proxy_server.Acme.Dns.Zones.{IsGrown, IsOutcome, resolve_zone_id-IsOutcome}

module _ (w : DnsWorld) (p : CloudflareDnsProvider) where
  abbrev creation_call : (zone_id record_name value : Str) → Call
  creation_call zone_id record_name value =
      post_txt (records_url w p zone_id) p.token record_name value 60

  -- The answer to the creation of a record after some calls.
  abbrev creation : (zone_id record_name value : Str) → List Call → Result AcmeError CfRecord
  creation zone_id record_name value calls = created_record (
      decoded create_request create_decode (create_refused record_name)
        (w.created calls (creation_call zone_id record_name value)))

  -- A published record: the last request created it in some zone, which is the configured one if
  -- there is one; the wait for the propagation is over, and its id is tracked.
  pub record IsPublished (record_name value zone_id : Str) (made : CfRecord) (d : DnsState)
      : Type 0 where
    pub earlier : List Call
    pub answered : creation zone_id record_name value earlier ≡ ok made
    pub calls : d.calls ≡ sleep p.propagation ∷ creation_call zone_id record_name value ∷ earlier
    pub tracked : get (record_name, value) d.records ≡ some made.id
    pub configured : (p.zone_id ≡ none) ⊎ (p.zone_id ≡ some zone_id)
    pub ordered : IsOrdered d.records
    pub recorded : IsRecorded w p d

  abbrev IsKept : DnsState → Type 0
  IsKept d = IsOrdered d.records × IsRecorded w p d

  abbrev IsResolved : Str → DnsState → Type 0
  IsResolved zone_id d = ((p.zone_id ≡ none) ⊎ (p.zone_id ≡ some zone_id)) × IsKept d

  resolve-Ensures :
      (record_name : Str) → Ensures IsKept (resolve_zone_id w p record_name) IsResolved
  resolve-Ensures record_name = record {
    run = λ d (o, h).
        go d (resolve_zone_id w p record_name d) o (resolve_zone_id-IsOutcome w p record_name d h);
  }
    where
      go :
          (d : DnsState) (r : DnsState × Result AcmeError Str)
          → IsOrdered d.records
          → IsGrown w p d r.0
            × (((id : Str) × (p.zone_id ≡ some id) × (r ≡ (d, ok id)))
                ⊎ ((p.zone_id ≡ none)
                    × IsOutcome w p record_name r.0.calls (zone_candidates record_name) r.1))
          → Holds IsResolved r
      go d (after, err e) o h = tt
      go d (after, ok zone) o (grown, inl (id, e, same)) =
          let found : id ≡ zone = cc in
          (inr (e ∙ ap some found), (rw (grown.records) o, grown.recorded))
      go d (after, ok zone) o (grown, inr (e, outcome)) =
          (inl e, (rw (grown.records) o, grown.recorded))

  -- A record that was created and not tracked yet.
  record IsMade (record_name value zone_id : Str) (made : CfRecord) (d : DnsState) : Type 0 where
    earlier : List Call
    answered : creation zone_id record_name value earlier ≡ ok made
    calls : d.calls ≡ creation_call zone_id record_name value ∷ earlier
    resolved : IsResolved zone_id d

  create-Ensures :
      (zone_id record_name value : Str)
      → Ensures
          (IsResolved zone_id)
          (create w p zone_id record_name value)
          (λ made. IsMade record_name value zone_id made)
  unfolding create
  create-Ensures zone_id record_name value = record {
    run = λ d h. go d h (creation zone_id record_name value d.calls) refl;
  }
    where
      go :
          (d : DnsState)
          → IsResolved zone_id d
          → (r : Result AcmeError CfRecord) → creation zone_id record_name value d.calls ≡ r
          → Holds
              (λ made d'. IsMade record_name value zone_id made d')
              (called (creation_call zone_id record_name value) d, r)
      go d (configured, (ordered, recorded)) (ok made) answered = record {
        earlier = d.calls;
        answered = answered;
        calls = refl;
        resolved = (
          configured,
          (ordered, IsRecorded-called w p d (creation_call zone_id record_name value) recorded),
        );
      }
      go d h (err e) answered = tt

  publish-Ensures :
      (domain record_name value : Str)
      → Ensures IsKept (cloudflare_publish w p domain record_name value) (λ _ d.
        (zone_id : Str) × (made : CfRecord) × IsPublished record_name value zone_id made d)
  unfolding cloudflare_publish
  publish-Ensures domain record_name value = followed (resolve-Ensures record_name) (λ zone_id.
      followed (create-Ensures zone_id record_name value) (λ made.
        followed
          (written
            {Q = λ d.
              IsMade record_name value zone_id made d
              × (get (record_name, value) d.records ≡ some made.id)}
            (λ d h. (
              record {
                earlier = h.earlier;
                answered = h.answered;
                calls = h.calls;
                resolved = (
                  h.resolved.0,
                  (
                    insert-IsOrdered (record_name, value) made.id d.records h.resolved.1.0,
                    h.resolved.1.1,
                  ),
                );
              },
              get-insert_self (record_name, value) made.id d.records,
            )))
          (λ _. written (λ d h. (
            zone_id,
            made,
            record {
              earlier = h.0.earlier;
              answered = h.0.answered;
              calls = ap (λ calls. sleep p.propagation ∷ calls) h.0.calls;
              tracked = h.1;
              configured = h.0.resolved.0;
              ordered = h.0.resolved.1.0;
              recorded = IsRecorded-called w p d (sleep p.propagation) h.0.resolved.1.1;
            },
          )))))

  -- What a cleanup comes to: the record is tracked no longer, and the last request deletes it, in
  -- the configured zone or, without one, in the zone that is found again; or there is no configured
  -- zone, finding it again fails, and no request follows.
  pub record IsCleaned (record_name value zone_id : Str) (made : CfRecord)
      (found : DnsState × Result AcmeError Str) (after : DnsState) : Type 0 where
    pub forgotten : get (record_name, value) after.records ≡ none
    pub outcome :
        ((zone : Str) × (after.calls
            ≡ delete (records_url w p zone ++ codes "/" ++ made.id) p.token ∷ found.0.calls)
          × (((p.zone_id ≡ some zone_id) × (zone ≡ zone_id))
              ⊎ ((p.zone_id ≡ none)
                  × IsOutcome w p record_name found.0.calls
                      (zone_candidates record_name)
                      (ok zone))))
        ⊎ ((e : AcmeError) × (p.zone_id ≡ none)
            × IsOutcome w p record_name found.0.calls (zone_candidates record_name) (err e)
            × (after.calls ≡ found.0.calls))

  delete_record-IsCleaned :
      (record_name value zone_id : Str) (made : CfRecord) (d : DnsState)
      (r : DnsState × Result AcmeError Str)
      → IsPublished record_name value zone_id made d
      → IsGrown w p (untrack (record_name, value) d) r.0
        × (((id : Str) × (p.zone_id ≡ some id) × (r ≡ (untrack (record_name, value) d, ok id)))
            ⊎ ((p.zone_id ≡ none)
                × IsOutcome w p record_name r.0.calls (zone_candidates record_name) r.1))
      → IsCleaned record_name value zone_id made r (delete_record w p made.id r)
  delete_record-IsCleaned record_name value zone_id made d (after, ok zone) h (grown, way) =
      record {
        forgotten =
            ap (get (record_name, value)) grown.records
            ∙ get-remove_self (record_name, value) d.records h.ordered;
        outcome = inl (
          zone,
          refl,
          elim way [
            | inr searched ↦ inr searched
            | inl (id, e, same) ↦
                let found : zone ≡ id = cc in
                elim h.configured [
                  | inl missing ↦ absurd cc
                  | inr e' ↦ let same_zone : zone ≡ zone_id = cc in inl (e', same_zone)
                ]
          ],
        );
      }
  delete_record-IsCleaned record_name value zone_id made d (after, err e) h (grown, way) = record {
    forgotten =
        ap (get (record_name, value)) grown.records
        ∙ get-remove_self (record_name, value) d.records h.ordered;
    outcome = elim way [
      | inr (missing, outcome) ↦ inr (e, missing, outcome, refl)
      | inl (id, e', same) ↦ absurd cc
    ];
  }

  -- From records in order and a cache that holds only what the API named, and whatever the API
  -- replies: a record that is published was created by its last request, in the
  -- configured zone if there is one, and its cleanup forgets it. The cleanup ends with the request
  -- that deletes that record, in the configured zone or in the one that is found again; only where
  -- no zone is configured and finding it again fails, nothing is deleted.
  pub cloudflare_cleanup-publish :
      (domain record_name value : Str) (d d' : DnsState)
      → IsOrdered d.records
      → IsRecorded w p d
      → cloudflare_publish w p domain record_name value d ≡ (d', ok tt)
      → (zone_id : Str) × (made : CfRecord) × IsPublished record_name value zone_id made d'
        × IsCleaned record_name value zone_id made
            (resolve_zone_id w p record_name (untrack (record_name, value) d'))
            (cloudflare_cleanup w p domain record_name value d')
  unfolding cloudflare_cleanup
  cloudflare_cleanup-publish domain record_name value d d' ordered recorded h =
      let (zone_id, made, published) =
        subst
          (Holds (λ _ d'.
            (zone_id : Str) × (made : CfRecord) × IsPublished record_name value zone_id made d'))
          h ((publish-Ensures domain record_name value).run d (ordered, recorded)) in
      let found = resolve_zone_id w p record_name (untrack (record_name, value) d') in
      (
        zone_id,
        made,
        published,
        subst
            (λ hit.
              IsCleaned record_name value zone_id made found
                (cleanup_tracked w p record_name value hit d'))
            (sym published.tracked)
            (delete_record-IsCleaned record_name value zone_id made d' found published (
              resolve_zone_id-IsOutcome w p record_name (untrack (record_name, value) d')
                published.recorded)),
      )
