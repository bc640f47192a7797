-- ===== src/Tests/Converter.antt =====
-- A converter to I420 that converts a frame and gets it back.
use android_external_v4l2_co.Prelude.{
  ◌≡◌, ◌≤◌, refl, true, false, Option, none, some, [], ◌∷◌, ◌++◌, ◌==◌, length,
}
use android_external_v4l2_co.PixelFormat.{i420}
use android_external_v4l2_co.FormatConverter.{
  ok, Converter, Layout, yuv, output_block, no_frame_associated, is_output_format, fetch_blocks,
  initialize, create, yuv_format, is_format, is_convertible, associate, convert, convert_block,
  return_entry, return_block,
}
use android_external_v4l2_co.FormatConverter.Blocks.{count, entries_of, idle}
use android_external_v4l2_co.FormatConverter.Steps.{created, converts, returns, Reachable-available}
use android_external_v4l2_co.FormatConverter.Holds.{
  holder, convert_block-output_block, return_block-convert_block,
}

abbrev fresh_of : Option Converter → Converter
fresh_of none = record { out_format = i420; graphic_blocks = []; available_queue = [] }
fresh_of (some c) = c

abbrev fresh : Converter
fresh = fresh_of (create (λ b. true) i420 2)

abbrev an_nv12_frame : Layout
an_nv12_frame = yuv 2 true

abbrev holding : Converter
holding = (convert_block 5 an_nv12_frame fresh).0

is_created : create (λ b. true) i420 2 ≡ some fresh
unfolding create initialize fetch_blocks is_output_format
is_created = refl

eight_blocks : length fresh.available_queue ≡ 8
unfolding create initialize fetch_blocks is_output_format
eight_blocks = refl

is_frame : (5 == no_frame_associated) ≡ false
is_frame = refl

uses_a_block : convert_block 5 an_nv12_frame fresh ≡ (holding, ok, output_block 0)
unfolding create initialize fetch_blocks is_output_format convert_block convert yuv_format is_format
    is_convertible associate
uses_a_block = refl

is_new : return_entry 5 fresh.graphic_blocks ≡ none
unfolding create initialize fetch_blocks is_output_format return_entry
is_new = refl

Reachable-available_example :
    (count 0 (return_block 5 holding).0.available_queue
      ≡ idle 0 (return_block 5 holding).0.graphic_blocks)
    × (entries_of 0 (return_block 5 holding).0.graphic_blocks ≤ 1)
Reachable-available_example = Reachable-available 0 (return_block 5 holding).0 (
    returns 5 holding
      (converts 5 an_nv12_frame fresh (created (λ b. true) i420 2 fresh is_created) is_frame)
      is_frame)

convert_block-output_block_example :
    (holder 0 fresh.graphic_blocks ≡ some no_frame_associated)
    × (holder 0 holding.graphic_blocks ≡ some 5)
    × (count 0 holding.available_queue ≡ 0)
convert_block-output_block_example =
    convert_block-output_block 5 0 an_nv12_frame fresh holding ok
      (created (λ b. true) i420 2 fresh is_created) uses_a_block

return_block-convert_block_example :
    ((return_block 5 holding).1 ≡ ok)
    × ((return_block 5 holding).0.graphic_blocks ≡ fresh.graphic_blocks)
    × ((return_block 5 holding).0.available_queue ≡ holding.available_queue ++ (0 ∷ []))
    × (fresh.available_queue ≡ 0 ∷ holding.available_queue)
return_block-convert_block_example =
    return_block-convert_block 5 0 an_nv12_frame fresh holding ok
      (created (λ b. true) i420 2 fresh is_created) is_new uses_a_block
