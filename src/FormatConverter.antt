-- ===== src/FormatConverter.antt =====
-- common/FormatConverter.cpp and common/include/v4l2_codec2/common/FormatConverter.h: which block of
-- FormatConverter holds the converted frame. Blocks are numbers, a BlockEntry* is the number of its
-- block, and what libyuv writes into a block is left out. The layout of the input, which its graphic
-- view tells, and the answers of the block pool are arguments.
pub mod Blocks
pub mod Holds
pub mod Steps
use android_external_v4l2_co.Prelude.{
  ℕ, zero, suc, ◌-◌, ◌^◌, max, Bool, true, false, Option, none, some, List, [], ◌∷◌, ◌++◌, map,
  ◌==◌, ltb, if◌then◌else◌,
}
use android_external_v4l2_co.PixelFormat.{VideoPixelFormat, i420, yv12, nv12, nv21, abgr, unknown}

pub data Status : Type 0 where
  ok no_memory corrupted bad_index : Status

-- An entry with a block and its frame index, or one that has only the index of a zero-copied frame.
pub data BlockEntry : Type 0 where
  allocated : (block frame_index : ℕ) → BlockEntry
  zero_copied : (frame_index : ℕ) → BlockEntry

pub record Converter : Type 0 where
  pub out_format : VideoPixelFormat
  pub graphic_blocks : List BlockEntry
  pub available_queue : List ℕ

-- The layout of an input block: its root planes and whether V lies behind U, or the answer of
-- ImplDefinedToRGBXMap::Create where the view gives no layout.
pub data Layout : Type 0 where
  yuv : (root_planes : ℕ) (v_behind_u : Bool) → Layout
  rgb : Layout
  implementation_defined : (mapped : Bool) → Layout
  other : Layout

-- The block that convertBlock gives: the input, or a block of the converter.
pub data Converted : Type 0 where
  input_block : Converted
  output_block : ℕ → Converted

abbrev pub no_frame_associated : ℕ
no_frame_associated = 2 ^ 64 - 1

abbrev pub min_input_buffer_count : ℕ
min_input_buffer_count = 8

-- The blocks that initialize fetches, if the pool gives each of them.
unfoldable pub fetch_blocks : (ℕ → Bool) → ℕ → Option (List ℕ)
fetch_blocks fetched zero = some []
fetch_blocks fetched (suc n) = elim (fetch_blocks fetched n) [
  | none ↦ none
  | some blocks ↦ if fetched n then some (blocks ++ (n ∷ [])) else none
]

abbrev pub new_entry : ℕ → BlockEntry
new_entry block = allocated block no_frame_associated

unfoldable pub initialize : (ℕ → Bool) → VideoPixelFormat → ℕ → Option Converter
unfolding fetch_blocks
initialize fetched format count = elim (fetch_blocks fetched (max count min_input_buffer_count)) [
  | none ↦ none
  | some blocks ↦ some (record {
    out_format = format;
    graphic_blocks = map new_entry blocks;
    available_queue = blocks;
  })
]

unfoldable pub is_output_format : VideoPixelFormat → Bool
is_output_format i420 = true
is_output_format nv12 = true
is_output_format _ = false

unfoldable pub create : (ℕ → Bool) → VideoPixelFormat → ℕ → Option Converter
unfolding initialize is_output_format
create fetched format count =
    if is_output_format format then initialize fetched format count else none

abbrev pub is_ready : Converter → Bool
is_ready c = elim c.available_queue [ [] ↦ false | b ∷ bs ↦ true ]

-- The format of an input with a YUV layout.
unfoldable pub yuv_format : ℕ → Bool → VideoPixelFormat
yuv_format root_planes v_behind_u =
    if root_planes == 3
    then yv12
    else if root_planes == 2
    then (if v_behind_u then nv12 else nv21)
    else unknown

-- `==` on the formats that yuv_format gives.
unfoldable pub is_format : VideoPixelFormat → VideoPixelFormat → Bool
is_format yv12 yv12 = true
is_format nv12 nv12 = true
is_format nv21 nv21 = true
is_format unknown unknown = true
is_format _ _ = false

-- The cases of the two switches over convertMap.
unfoldable pub is_convertible : VideoPixelFormat → VideoPixelFormat → Bool
is_convertible yv12 i420 = true
is_convertible yv12 nv12 = true
is_convertible nv12 i420 = true
is_convertible nv21 i420 = true
is_convertible nv21 nv12 = true
is_convertible abgr i420 = true
is_convertible abgr nv12 = true
is_convertible _ _ = false

-- Writing the frame index to the entry of a block.
unfoldable pub associate : ℕ → ℕ → List BlockEntry → List BlockEntry
associate block frame_index [] = []
associate block frame_index (allocated b f ∷ entries) =
    if b == block
    then allocated b frame_index ∷ entries
    else allocated b f ∷ associate block frame_index entries
associate block frame_index (zero_copied f ∷ entries) =
    zero_copied f ∷ associate block frame_index entries

-- The end of convertBlock for a format, with the block at the front of the queue.
unfoldable pub convert :
    ℕ → VideoPixelFormat → ℕ → List ℕ → Converter → Converter × Status × Converted
unfolding associate is_convertible
convert frame_index format block rest c =
    if is_convertible format c.out_format
    then (
      record c {
        graphic_blocks = associate block frame_index c.graphic_blocks;
        available_queue = rest;
      },
      ok,
      output_block block,
    )
    else (c, corrupted, input_block)

unfoldable pub convert_block : ℕ → Layout → Converter → Converter × Status × Converted
unfolding convert yuv_format is_format
convert_block frame_index layout c = elim c.available_queue [
  | [] ↦ (c, no_memory, input_block)
  | block ∷ rest ↦ elim layout [
    | yuv root_planes v_behind_u ↦
        let format = yuv_format root_planes v_behind_u in
        if is_format format c.out_format
        then (
          record c { graphic_blocks = c.graphic_blocks ++ (zero_copied frame_index ∷ []) },
          ok,
          input_block,
        )
        else convert frame_index format block rest c
    | rgb ↦ convert frame_index abgr block rest c
    | implementation_defined mapped ↦
        if mapped then convert frame_index abgr block rest c else (c, corrupted, input_block)
    | other ↦ (c, corrupted, input_block)
  ]
]

-- The entries behind the return of a frame, and the block that is available again.
unfoldable pub return_entry : ℕ → List BlockEntry → Option (List BlockEntry × List ℕ)
return_entry frame_index [] = none
return_entry frame_index (allocated b f ∷ entries) =
    let rest = return_entry frame_index entries in
    if f == frame_index
    then some (allocated b no_frame_associated ∷ entries, b ∷ [])
    else elim rest [ none ↦ none | some (others, blocks) ↦ some (allocated b f ∷ others, blocks) ]
return_entry frame_index (zero_copied f ∷ entries) =
    let rest = return_entry frame_index entries in
    if f == frame_index
    then some (entries, [])
    else elim rest [ none ↦ none | some (others, blocks) ↦ some (zero_copied f ∷ others, blocks) ]

unfoldable pub return_block : ℕ → Converter → Converter × Status
unfolding return_entry
return_block frame_index c = elim (return_entry frame_index c.graphic_blocks) [
  | none ↦ (c, bad_index)
  | some (entries, blocks) ↦
      (record c { graphic_blocks = entries; available_queue = c.available_queue ++ blocks }, ok)
]
