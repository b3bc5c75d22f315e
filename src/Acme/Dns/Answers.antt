-- ===== src/Acme/Dns/Answers.antt =====
-- What the zone API answered, and the cache that holds only what it answered.
use archetype_proxy_server.Prelude.{
  ◌≡◌, sym, ap, ◌∙◌, inl, inr, Option, some, List, [], ◌∷◌, ◌++◌, Result, ok, map_ok, and_then,
  first, Bool-cases, subst, append_assoc,
}
use archetype_proxy_server.Text.{Str, str_eq}
use archetype_proxy_server.Text.Laws.{eq_of_str_eq, ne_of_str_eq}
use archetype_proxy_server.Ordered.{get, insert}
use archetype_proxy_server.Ordered.Keys.{str_ord}
use archetype_proxy_server.Ordered.Laws.{get-insert_self, get-insert_ne}
use archetype_proxy_server.Acme.{AcmeError, lookup_request, lookup_decode, lookup_refused}
use archetype_proxy_server.Acme.Dns.{CfZone, Call, DnsWorld, DnsState, called}
use archetype_proxy_server.Acme.Dns.Cloudflare.{
  CloudflareDnsProvider, decoded, zones_call, remember,
}

module _ (w : DnsWorld) (p : CloudflareDnsProvider) where
  -- What the API said of a candidate after some calls: an error, no zone, or the first one.
  unfoldable pub zone_answer : List Call → Str → Result AcmeError (Option CfZone)
  zone_answer calls c =
      map_ok (λ zones. and_then zones first)
        (decoded lookup_request lookup_decode (lookup_refused c) (w.zones calls (zones_call w p c)))

  -- A lookup of the candidate among the calls, and its answer.
  pub record WasAnswered (calls : List Call) (c : Str) (answer : Result AcmeError (Option CfZone))
      : Type 0 where
    pub later : List Call
    pub earlier : List Call
    pub asked : calls ≡ later ++ zones_call w p c ∷ earlier
    pub answered : zone_answer earlier c ≡ answer

  -- A zone that the API named for the candidate.
  abbrev pub WasNamed : List Call → Str → Str → Type 0
  WasNamed calls c id = (zone : CfZone) × WasAnswered calls c (ok (some zone)) × (zone.id ≡ id)

  -- Every cached zone is one that the API named.
  abbrev pub IsRecorded : DnsState → Type 0
  IsRecorded d = (c id : Str) → get c d.zone_cache ≡ some id → WasNamed d.calls c id

  -- Calls that follow leave an answer as it was.
  pub WasAnswered-later :
      {calls : List Call} {c : Str} {answer : Result AcmeError (Option CfZone)} (more : List Call)
      → WasAnswered calls c answer
      → WasAnswered (more ++ calls) c answer
  WasAnswered-later more h = record {
    later = more ++ h.later;
    earlier = h.earlier;
    asked = ap (λ calls. more ++ calls) h.asked ∙ sym (append_assoc more h.later _);
    answered = h.answered;
  }

  WasNamed-later :
      {calls : List Call} {c id : Str} (more : List Call)
      → WasNamed calls c id
      → WasNamed (more ++ calls) c id
  WasNamed-later more (zone, h, e) = (zone, WasAnswered-later more h, e)

  pub IsRecorded-called : (d : DnsState) (call : Call) → IsRecorded d → IsRecorded (called call d)
  IsRecorded-called d call h c id e = WasNamed-later (call ∷ []) (h c id e)

  pub IsRecorded-remember :
      (d : DnsState) (c : Str) (zone : CfZone)
      → WasAnswered d.calls c (ok (some zone))
      → IsRecorded d
      → IsRecorded (remember c zone.id d)
  IsRecorded-remember d c zone answer h b id e = elim (Bool-cases (str_eq b c)) [
    | inl same ↦
        let b_c : b ≡ c = eq_of_str_eq b c same in
        let found : some zone.id ≡ some id =
          sym (get-insert_self c zone.id d.zone_cache)
          ∙ ap (λ x. get x (insert c zone.id d.zone_cache)) (sym b_c)
          ∙ e in
        (zone, subst (λ x. WasAnswered d.calls x (ok (some zone))) (sym b_c) answer, cc)
    | inr other ↦ h b id (sym (get-insert_ne b c zone.id d.zone_cache (ne_of_str_eq b c other)) ∙ e)
  ]
