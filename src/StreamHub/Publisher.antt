-- ===== src/StreamHub/Publisher.antt =====
-- The publisher slot of src/core/stream_hub.rs under calls from several publishers, one after the other.
use vcp_media_server.Prelude.{
  String, ◌≡◌, refl, Bool, true, false, none, some, List, [], ◌∷◌, map, All,
}
use text.Mathlib.Text.{◌==◌}
use text.Mathlib.TextPositions.{eq_refl}
use vcp_media_server.StreamHub.{StreamHub, Acquired, ok, err, acquire_publisher, release_publisher}

pub data Call : Type 0 where
  acquire release : String → Call

abbrev pub caller : Call → String
caller (acquire id) = id
caller (release id) = id

abbrev pub granted : Acquired → Bool
granted ok = true
granted (err current) = false

-- One call: whether it is granted, and the hub after it.
unfoldable pub call : StreamHub → Call → Bool × StreamHub
call hub (acquire id) = (granted (acquire_publisher hub id).0, (acquire_publisher hub id).1)
call hub (release id) = release_publisher hub id

unfoldable pub run : StreamHub → List Call → List Bool × StreamHub
run hub [] = ([], hub)
run hub (c ∷ cs) = let after = run (call hub c).1 cs in ((call hub c).0 ∷ after.0, after.1)

-- No call of the list is by the publisher `id`.
abbrev pub Foreign : String → List Call → Type 0
Foreign id = All (λ c. (id == caller c) ≡ false)

call_refused :
    (hub : StreamHub) (id : String) (c : Call)
    → hub.publisher ≡ some id
    → (id == caller c) ≡ false
    → call hub c ≡ (false, hub)
unfolding call acquire_publisher release_publisher
call_refused hub id (acquire other) held foreign = rw (held, foreign) refl
call_refused hub id (release other) held foreign = rw (held, foreign) refl

-- While a publisher holds the stream, every acquire and every release by another publisher is refused, and
-- the hub stays as it is, whatever their number and order.
pub run-Foreign :
    (hub : StreamHub) (id : String) (calls : List Call)
    → hub.publisher ≡ some id
    → Foreign id calls
    → run hub calls ≡ (map (λ c. false) calls, hub)
unfolding run
run-Foreign hub id [] held foreign = refl
run-Foreign hub id (c ∷ cs) held foreign =
    rw (call_refused hub id c held foreign.0, run-Foreign hub id cs held foreign.1) refl

-- A publisher that is granted a free stream can acquire it again, and its release frees it.
run_own :
    (hub : StreamHub) (id : String)
    → hub.publisher ≡ none
    → run hub (acquire id ∷ acquire id ∷ release id ∷ [])
      ≡ (true ∷ true ∷ true ∷ [], record hub { publisher = none })
unfolding run call acquire_publisher release_publisher
run_own hub id free = rw (free, eq_refl id) (rw (eq_refl id) refl)
