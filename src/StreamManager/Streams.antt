-- ===== src/StreamManager/Streams.antt =====
-- How the operations of src/core/stream_manager.rs act on the hubs of the streams.
use vcp_media_server.Prelude.{
  ◌≡◌, refl, subst, String, none, some, if◌then◌else◌, Bool-cases, Option-cases, inl, inr, ◌∙◌, sym,
}
use mathlib.Core.Option.{map as map_option}
use text.Mathlib.Text.{◌==◌}
use text.Mathlib.TextEquality.{eq_iff}
use text.Mathlib.TextPositions.{eq_refl}
use vcp_media_server.Prelude.StringMap.{find, insert, find-insert}
use vcp_media_server.StreamHub.{StreamHub}
use vcp_media_server.StreamManager.{StreamManager, get_hub, change_hub}

-- A change of one hub is found at its stream; every other stream finds what it found before.
pub get_hub-change_hub :
    (m : StreamManager) (k id : String) (f : StreamHub → StreamHub)
    → get_hub (change_hub m k f) id ≡ (if k == id then map_option f (get_hub m k) else get_hub m id)
unfolding get_hub change_hub
get_hub-change_hub m k id f = elim (Option-cases (find m.hubs k)) [
  | inl e ↦ elim (Bool-cases (k == id)) [
    | inl z ↦ rw (change_hub, e, z) (subst (λ j. find m.hubs j ≡ none) ((eq_iff k id).0 z) e)
    | inr z ↦ rw (change_hub, e, z) refl
  ]
  | inr (hub, e) ↦ rw (change_hub, e) (find-insert m.hubs k id (f hub))
]

pub get_hub-insert :
    (m : StreamManager) (k id : String) (hub : StreamHub)
    → get_hub (record m { hubs = insert m.hubs k hub }) id
      ≡ (if k == id then some hub else get_hub m id)
unfolding get_hub change_hub
get_hub-insert m k id hub = find-insert m.hubs k id hub

pub change_once :
    (m : StreamManager) (k id : String) (f : StreamHub → StreamHub) (hub : StreamHub)
    → get_hub m k ≡ some hub
    → get_hub (change_hub m k f) id ≡ (if k == id then some (f hub) else get_hub m id)
change_once m k id f hub e = rw (get_hub-change_hub m k id f, e) refl

pub change_same :
    (m : StreamManager) (k id : String) (f : StreamHub → StreamHub) (hub : StreamHub)
    → get_hub m k ≡ some hub
    → f hub ≡ hub
    → get_hub (change_hub m k f) id ≡ get_hub m id
change_same m k id f hub e same = change_once m k id f hub e ∙ elim (Bool-cases (k == id)) [
  | inl z ↦ rw (z, same) (sym (subst (λ j. get_hub m j ≡ some hub) ((eq_iff k id).0 z) e))
  | inr z ↦ rw z refl
]

pub change_twice :
    (m : StreamManager) (k id : String) (f g : StreamHub → StreamHub) (hub : StreamHub)
    → get_hub m k ≡ some hub
    → get_hub (change_hub (change_hub m k f) k g) id
      ≡ (if k == id then some (g (f hub)) else get_hub m id)
change_twice m k id f g hub e =
    get_hub-change_hub (change_hub m k f) k id g
    ∙ rw (get_hub-change_hub m k k f, get_hub-change_hub m k id f, eq_refl k, e)
        (elim (Bool-cases (k == id)) [ inl z ↦ rw z refl | inr z ↦ rw z refl ])
