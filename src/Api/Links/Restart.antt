-- ===== src/Api/Links/Restart.antt =====
-- core/emunel_core/app.py: the handlers of links one after the other, and the state file of state.py.
use emunel.Prelude.{
  ℕ, ◌≡◌, refl, sym, ◌∙◌, Bool, true, ◌&&◌, not, List, [], ◌∷◌, Str, All, codes, ◌==◌, str_eq, inl,
  inr, Bool-cases, Option-cases,
}
use emunel.Prelude.Dict.{get, put, All-put, All-remove, All-get}
use emunel.Prelude.Dict.Keys.{HasKeysOnce, put-HasKeysOnce, remove-HasKeysOnce}
use emunel.State.Link.{Link, Clock, is_allowed}
use emunel.State.Links.{LinkStore, add, pop, spend, charge}
use emunel.State.Stats.{RuntimeStats, new_stats}
use emunel.State.Saver.{idle}
use emunel.State.Store.{StateFile, save, load}
use emunel.State.Store.RoundTrip.{IsClean, IsFiled, load-save}
use emunel.Api.Links.{
  LinkBody, Fresh, LinkPatch, Core, Made, made, failed, filed, Patched, so_far, raised,
  link_from_body, apply_link_patch, patched_core, core_links_create, core_links_update,
  core_links_delete,
}
use emunel.Api.Links.Clean.{
  IsCleanMade, KeepsLink, link_from_body-IsClean, apply_link_patch-IsClean,
}

-- What happens to the links: calls of the API, and accounted traffic.
pub data Event : Type 0 where
  creates : Bool → Fresh → LinkBody → Event
  updates : Str → LinkPatch → Event
  deletes : Str → Event
  charges : Clock → Str → ℕ → Event

unfoldable pub happen : Event → Core → Core
happen (creates runtime fresh b) c = (core_links_create runtime fresh b c).0
happen (updates uuid p) c = (core_links_update uuid p c).0
happen (deletes uuid) c = (core_links_delete uuid c).0
happen (charges k uuid n) c = record c { links = (spend k c.links uuid n).0 }

unfoldable pub happen_all : List Event → Core → Core
happen_all [] c = c
happen_all (e ∷ es) c = happen_all es (happen e c)

abbrev pub new_core : Core
new_core = record { links = []; speed = []; saver = idle 0 }

-- Each key once, each link under its own key, and each as the constructor keeps it.
abbrev IsKept : LinkStore → Type 0
IsKept links = HasKeysOnce links × All IsFiled links

put-IsKept :
    (links : LinkStore) (l : Link) (uuid : Str)
    → l.uuid ≡ uuid
    → IsClean l
    → IsKept links
    → IsKept (put links uuid l)
put-IsKept links l uuid e v (once, filed_) =
    (put-HasKeysOnce links uuid l once, All-put IsFiled links uuid l (sym e, v) filed_)

filed-IsKept :
    (runtime : Bool) (c : Core) (m : Made)
    → IsCleanMade m
    → IsKept c.links
    → IsKept (filed runtime c m).0.links
unfolding add
filed-IsKept runtime c (failed status) h k = k
filed-IsKept runtime c (made l) h k =
    elim (Bool-cases (l.protocol == codes "vmess-ws" && not runtime)) [
      | inl no_runtime ↦ rw no_runtime k
      | inr fine ↦ rw fine (put-IsKept c.links l l.uuid refl h k)
    ]

patched_core-IsKept :
    (p : LinkPatch) (uuid : Str) (c : Core) (l : Link) (m : Patched)
    → l.uuid ≡ uuid
    → KeepsLink l m
    → IsKept c.links
    → IsKept (patched_core p uuid c m).0.links
patched_core-IsKept p uuid c l (so_far l') e (same, v) k = put-IsKept c.links l' uuid (same ∙ e) v k
patched_core-IsKept p uuid c l (raised l') e (same, v) k = put-IsKept c.links l' uuid (same ∙ e) v k

update-IsKept :
    (uuid : Str) (p : LinkPatch) (c : Core)
    → IsKept c.links
    → IsKept (core_links_update uuid p c).0.links
unfolding core_links_update
update-IsKept uuid p c k = elim (Option-cases (get c.links uuid)) [
  | inl e ↦ rw e k
  | inr (l, e) ↦
      let (key, v) = All-get IsFiled c.links uuid l e k.1 in
      rw e (
        patched_core-IsKept p uuid c l (apply_link_patch p l) (sym key)
          (apply_link_patch-IsClean p l v) k)
]

delete-IsKept : (uuid : Str) (c : Core) → IsKept c.links → IsKept (core_links_delete uuid c).0.links
unfolding core_links_delete pop
delete-IsKept uuid c k = elim (Option-cases (get c.links uuid)) [
  | inl e ↦ rw e k
  | inr (l, e) ↦ rw e (remove-HasKeysOnce c.links uuid k.0, All-remove IsFiled c.links uuid k.1)
]

spend-IsKept :
    (clock : Clock) (links : LinkStore) (uuid : Str) (n : ℕ)
    → IsKept links
    → IsKept (spend clock links uuid n).0
unfolding spend
spend-IsKept clock links uuid n k = elim (Option-cases (get links uuid)) [
  | inl e ↦ rw e k
  | inr (l, e) ↦
      let (key, v) = All-get IsFiled links uuid l e k.1 in
      let charged : IsClean (charge l n) = record {
        label = v.label;
        note = v.note;
        alpn = v.alpn;
        fingerprint = v.fingerprint;
      } in
      elim (Bool-cases (is_allowed clock l)) [
        | inl b ↦ rw (e, b) (put-IsKept links (charge l n) uuid (sym key) charged k)
        | inr b ↦ rw (e, b) k
      ]
]

happen-IsKept : (e : Event) (c : Core) → IsKept c.links → IsKept (happen e c).links
unfolding happen core_links_create
happen-IsKept (creates runtime fresh b) c k =
    filed-IsKept runtime c (link_from_body fresh b) (link_from_body-IsClean fresh b) k
happen-IsKept (updates uuid p) c k = update-IsKept uuid p c k
happen-IsKept (deletes uuid) c k = delete-IsKept uuid c k
happen-IsKept (charges clock uuid n) c k = spend-IsKept clock c.links uuid n k

happen_all-IsKept : (es : List Event) (c : Core) → IsKept c.links → IsKept (happen_all es c).links
unfolding happen_all
happen_all-IsKept [] c k = k
happen_all-IsKept (e ∷ es) c k = happen_all-IsKept es (happen e c) (happen-IsKept e c k)

-- After any creations, patches, deletions and accounted traffic, refused or failed ones included, a save and
-- a start give the same links, with the same counters, and the accounted state. Each hour is counted
-- under one key.
pub load-happen_all :
    (es : List Event) (moved : Bool) (now later : Str) (stats : RuntimeStats) (file : StateFile)
    → HasKeysOnce stats.hourly
    → (let links = (happen_all es new_core).links in
        let s = load moved later (save true now links stats file) [] new_stats in
        (s.links ≡ links)
        × (s.stats ≡ record new_stats {
          total_bytes = stats.total_bytes;
          instance_cap_bytes = stats.instance_cap_bytes;
          hourly = stats.hourly;
        }))
load-happen_all es moved now later stats file hours =
    let (once, filed_) = happen_all-IsKept es new_core (tt, tt) in
    load-save moved now later (happen_all es new_core).links stats file once filed_ hours
