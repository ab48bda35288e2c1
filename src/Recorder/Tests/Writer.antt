-- ===== src/Recorder/Tests/Writer.antt =====
-- compressed_recorder.c: the writer thread at concrete states.
use myworkspace.Prelude.{
  ℕ, ◌≡◌, ◌≢◌, ◌⊎◌, inr, refl, List, [], ◌∷◌, ◌++◌, some, true, false, is_some,
}
use myworkspace.Recorder.Os.{Ctx}
use myworkspace.Recorder.Nal.{
  find_start_code, find_loop, start_code_len_at, payload_has_start_code, trim_end,
}
use myworkspace.Recorder.Params.{
  analyze_payload, analyze_loop, analyze_unit, analyze_nal, analyze_h264, cache_param_set,
  params_ready,
}
use myworkspace.Recorder.Storage.{storage_available, skip_unmounted, note_mount_skip}
use myworkspace.Recorder.Paths.{
  format_segment_paths, mkdir_p, mkdir_from_second, mkdir_loop, drop_last_slash, name_files,
  segment_dir, segment_file, segment_tmp, format_02u,
}
use myworkspace.Recorder.Paths.Frame.{with_files}
use myworkspace.Recorder.Segment.{
  open_segment, write_all, write_payload_annexb, write_sets, write_param_sets, write_segment_packet,
}
use myworkspace.Recorder.Segment.Files.{annexb, write_head-contents}
use myworkspace.Recorder.Process.{
  write_head, video_on_stream, record_packet, video_waiting, begin_segment, codec_supported,
  process_events,
}
use myworkspace.Recorder.Process.Armed.{IsArmed, process_events-AllArmed}
use myworkspace.Recorder.Process.Gate.{video_on_stream_opens_at_keyframe}
use myworkspace.Recorder.Process.Leak.{skip_unmounted_loses_file}
use myworkspace.Recorder.Tests.{disk, disk-FileLaws, sps, keyframe, known, running, ctx, packet}

process_events-AllArmed_example :
    IsArmed ((process_events disk ([], running) (packet keyframe ∷ packet sps ∷ [])).1.streams 1)
process_events-AllArmed_example =
    process_events-AllArmed disk (packet keyframe ∷ packet sps ∷ []) ([], running)
      (λ j. record { either = inr (inr refl) }) 1

opened : is_some (video_on_stream disk ctx (packet keyframe)).s.fp ≡ true
unfolding video_on_stream record_packet video_waiting begin_segment codec_supported write_head
    analyze_payload analyze_loop analyze_unit analyze_nal analyze_h264 cache_param_set params_ready
    find_start_code find_loop start_code_len_at trim_end storage_available open_segment
    format_segment_paths mkdir_p mkdir_from_second mkdir_loop drop_last_slash name_files segment_dir
    segment_file segment_tmp format_02u write_all write_payload_annexb write_sets write_param_sets
    write_segment_packet payload_has_start_code
opened = refl

video_on_stream_opens_at_keyframe_example :
    let (c1, k) = analyze_payload disk ctx keyframe in
    (k ≡ true) × (params_ready c1.s ≡ true) × ((storage_available disk c1 6_000_000_000).0 ≡ true)
video_on_stream_opens_at_keyframe_example =
    video_on_stream_opens_at_keyframe disk ctx (packet keyframe) refl refl opened

abbrev open_ctx : Ctx (List ℕ)
open_ctx = record ctx { s = record known { fp = some 7 } }

write_head-contents_example :
    let p = known.params in
    let after = (write_head disk open_ctx keyframe).1.w in
    ((known.codec ≡ 1) × (after ≡ [] ++ (p.first ++ (p.second ++ (p.third ++ annexb keyframe)))))
    ⊎ ((known.codec ≢ 1) × (after ≡ [] ++ (p.first ++ (p.second ++ annexb keyframe))))
unfolding write_head write_all write_payload_annexb write_sets write_param_sets write_segment_packet
    payload_has_start_code find_start_code find_loop start_code_len_at
write_head-contents_example =
    write_head-contents disk-FileLaws open_ctx 7 keyframe refl (λ e. cc) refl

abbrev held_ctx : Ctx (List ℕ)
held_ctx = record ctx { s = record known { fp = some 3; waiting_keyframe = false } }

skip_unmounted_loses_file_example :
    ((skip_unmounted held_ctx 9).s.fp ≡ some 3)
    × ((skip_unmounted held_ctx 9).s.waiting_keyframe ≡ true)
    × ((open_segment disk (skip_unmounted held_ctx 9) 1000 9).1.s.fp ≢ some 3)
    × (open_segment
          (with_files disk (λ f w. (false, [])) (λ a b w. (false, [])) (λ a w. []))
          (skip_unmounted held_ctx 9)
          1000
          9
        ≡ open_segment disk (skip_unmounted held_ctx 9) 1000 9)
unfolding skip_unmounted note_mount_skip open_segment format_segment_paths mkdir_p mkdir_from_second
    mkdir_loop drop_last_slash name_files segment_dir segment_file segment_tmp format_02u
skip_unmounted_loses_file_example =
    skip_unmounted_loses_file disk held_ctx 3 9 1000 9 (λ f w. (false, [])) (λ a b w. (false, []))
      (λ a w. []) refl (λ path w e. cc) refl
