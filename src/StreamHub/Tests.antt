-- ===== src/StreamHub/Tests.antt =====
-- Tests and witnesses for the stream hub (src/core/stream_hub.rs).
use vcp_media_server.Prelude.{◌+◌, ◌<◌, ◌^◌, ◌≡◌, refl, false, none, some, [], ◌∷◌, arith, length}
use vcp_media_server.Media.{
  MediaFrame, new_frame, h264, StreamReceiver, StreamSinkMode, StreamProtocol, ReceiverStatus,
}
use vcp_media_server.FrameRing
use vcp_media_server.FrameRing.{append_frame, default_capacity_frames, default_capacity_bytes}
use vcp_media_server.FrameRing.Invariant.{IsValid, with_capacity-IsValid}
use vcp_media_server.StreamHub.{StreamHub, new_hub, with_stream, publish}
use vcp_media_server.StreamHub.Publisher.{acquire, release, run, run-Foreign}

abbrev live : StreamHub
live = new_hub "live"

abbrev held : StreamHub
held = record live { publisher = some "a" }

run-Foreign_example :
    run held (acquire "b" ∷ release "b" ∷ acquire "c" ∷ []) ≡ (false ∷ false ∷ false ∷ [], held)
run-Foreign_example =
    run-Foreign held "a" (acquire "b" ∷ release "b" ∷ acquire "c" ∷ []) refl
      (refl, (refl, (refl, tt)))

abbrev player : StreamReceiver
player = record {
  id = "live_1";
  stream_id = "live";
  mode = StreamSinkMode.pull;
  protocol = StreamProtocol.rtsp;
  client_addr = some "127.0.0.1:554";
  status = ReceiverStatus.idle;
  push_addr = none;
}

abbrev slice_frame : MediaFrame
slice_frame = new_frame "live" 0 40 (0 ∷ 0 ∷ 0 ∷ 1 ∷ 0x41 ∷ []) false h264

abbrev after_slice : StreamHub
after_slice = record live { ring = append_frame live.ring slice_frame; seq_tx = 0 ∷ [] }

slice_published : publish 1 live slice_frame ≡ some (0, after_slice)
unfolding publish new_hub with_stream FrameRing.push FrameRing.evict_if_needed append_frame
    new_frame
slice_published = refl

live-IsValid : IsValid live.ring
unfolding new_hub with_stream
live-IsValid = with_capacity-IsValid default_capacity_frames default_capacity_bytes

live_room : live.ring.write_seq + 1 < 2 ^ 64
unfolding new_hub with_stream
live_room = omega arith

live_bytes : live.ring.bytes_used + length slice_frame.bytes < 2 ^ 64
unfolding new_hub with_stream new_frame
live_bytes = omega arith
