-- ===== src/State/Store/RoundTrip.antt =====
-- core/emunel_core/state.py: `StateStore.save`, and `load` at the next start.
use emunel.Prelude.{
  ℕ, ◌≤◌, ◌≡◌, refl, sym, ap, ◌∙◌, Bool, true, some, [], ◌∷◌, Str, map, str_eq, length, take_all,
  elem, arith, All,
}
use emunel.Prelude.Dict.{Dict, put}
use emunel.Prelude.Dict.Keys.{put_all, put_all-append, HasKeysOnce}
use emunel.State.Link.{Link, new_link, clean_alpn, clean_fingerprint, fingerprints}
use emunel.State.Links.{LinkStore, add}
use emunel.State.Stats.{RuntimeStats, new_stats}
use emunel.State.Store.{StateFile, slots, payload, save, load, load_links}

-- The constructor keeps the link as it is: texts within their limits, a kept ALPN list, a known
-- fingerprint.
pub record IsClean (l : Link) : Type 0 where
  pub label : length l.label ≤ 80
  pub note : length l.note ≤ 300
  pub alpn : clean_alpn l.alpn ≡ l.alpn
  pub fingerprint : elem l.fingerprint fingerprints ≡ true

-- The entry stands under its own key.
abbrev pub IsFiled : Str × Link → Type 0
IsFiled (uuid, link) = (uuid ≡ link.uuid) × IsClean link

new_link-slots : (now_iso : Str) (l : Link) → IsClean l → new_link now_iso (slots l) ≡ l
unfolding new_link slots clean_fingerprint
new_link-slots now_iso l v =
    ground (arith, v.alpn, v.fingerprint, take_all 80 l.label v.label, take_all 300 l.note v.note)

load_links-slots :
    (now_iso : Str) (entries links : LinkStore)
    → All IsFiled entries
    → load_links now_iso (map (λ p. some (slots p.1)) entries) links ≡ put_all links entries
unfolding load_links put_all add
load_links-slots now_iso [] links h = refl
load_links-slots now_iso ((uuid, link) ∷ entries) links ((key, clean), h) =
    let filed : add links (new_link now_iso (slots link)) ≡ put links uuid link =
      ap (λ (l : Link). put links l.uuid l) (new_link-slots now_iso link clean)
      ∙ ap (λ (k : Str). put links k link) (sym key) in
    ap (load_links now_iso (map (λ p. some (slots p.1)) entries)) filed
    ∙ load_links-slots now_iso entries (put links uuid link) h

-- What a start reads after a save: the links and the accounted state, whole, and the requests, errors
-- and hits of the cap from 0. The links are filed under their keys, each key once.
pub load-save :
    (moved : Bool) (now later : Str) (links : LinkStore) (stats : RuntimeStats) (file : StateFile)
    → HasKeysOnce links
    → All IsFiled links
    → HasKeysOnce stats.hourly
    → (let s = load moved later (save true now links stats file) [] new_stats in
        (s.links ≡ links)
        × (s.stats ≡ record new_stats {
          total_bytes = stats.total_bytes;
          instance_cap_bytes = stats.instance_cap_bytes;
          hourly = stats.hourly;
        }))
unfolding load save payload
load-save moved now later links stats file once filed hours = (
  load_links-slots later links [] filed ∙ put_all-append [] links once,
  ap
      (λ (h : Dict Str ℕ). record new_stats {
        total_bytes = stats.total_bytes;
        instance_cap_bytes = stats.instance_cap_bytes;
        hourly = h;
      })
      (put_all-append [] stats.hourly hours),
)
