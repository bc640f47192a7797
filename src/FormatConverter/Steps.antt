-- ===== src/FormatConverter/Steps.antt =====
-- A FormatConverter after any sequence of conversions and returns.
use android_external_v4l2_co.Prelude.{
  ℕ, zero, suc, ◌≤◌, ◌<◌, ◌≡◌, refl, sym, ◌∙◌, ap, subst, ◌⊎◌, Bool, true, false, some, List, [],
  ◌∷◌, ◌++◌, map, arith, tests, ◌==◌, ltb, if◌then◌else◌, max, inl, inr, Bool-cases, Option-cases,
  List-cases,
}
use android_external_v4l2_co.PixelFormat.{VideoPixelFormat, abgr}
use android_external_v4l2_co.FormatConverter.{
  Status, BlockEntry, allocated, zero_copied, Converter, Layout, yuv, rgb, implementation_defined,
  other, Converted, input_block, output_block, no_frame_associated, min_input_buffer_count,
  fetch_blocks, new_entry, initialize, create, yuv_format, is_format, is_convertible, associate,
  convert, convert_block, return_entry, return_block,
}
use android_external_v4l2_co.FormatConverter.Blocks.{
  count, entries_of, idle, count-append, entries_of-associate, idle-associate, return_entry_lem,
}

-- A block is available just when it holds no frame, and it has one entry at most.
pub record IsValid (c : Converter) : Type 0 where
  pub available : (b : ℕ) → count b c.available_queue ≡ idle b c.graphic_blocks
  pub single : (b : ℕ) → entries_of b c.graphic_blocks ≤ 1

count-fetch_blocks :
    (fetched : ℕ → Bool) (n b : ℕ) (blocks : List ℕ)
    → fetch_blocks fetched n ≡ some blocks
    → count b blocks ≡ (if ltb b n then 1 else 0)
unfolding fetch_blocks
count-fetch_blocks fetched zero b blocks e = ground arith
count-fetch_blocks fetched (suc n) b blocks e = elim (Option-cases (fetch_blocks fetched n)) [
  | inl x ↦ absurd (ground arith)
  | inr (more, x) ↦
      ground (arith, count-fetch_blocks fetched n b more x, count-append b more (n ∷ []))
]

idle-new_entry : (b : ℕ) (blocks : List ℕ) → idle b (map new_entry blocks) ≡ count b blocks
idle-new_entry b [] = refl
idle-new_entry b (c ∷ blocks) = ground (arith, idle-new_entry b blocks)

entries_of-new_entry :
    (b : ℕ) (blocks : List ℕ) → entries_of b (map new_entry blocks) ≡ count b blocks
entries_of-new_entry b [] = refl
entries_of-new_entry b (c ∷ blocks) = omega (arith, entries_of-new_entry b blocks)

at_most_one : (b n : ℕ) → (if ltb b n then 1 else 0) ≤ 1
at_most_one b n = ground arith

initialize-IsValid :
    (fetched : ℕ → Bool) (format : VideoPixelFormat) (n : ℕ) (c : Converter)
    → initialize fetched format n ≡ some c
    → IsValid c
unfolding initialize
initialize-IsValid fetched format n c e =
    elim (Option-cases (fetch_blocks fetched (max n min_input_buffer_count))) [
      | inl x ↦ absurd (ground arith)
      | inr (blocks, x) ↦
          let entries : c.graphic_blocks ≡ map new_entry blocks = ground arith in
          let queue : c.available_queue ≡ blocks = ground arith in
          record {
            available =
                λ b. ap (count b) queue ∙ sym (idle-new_entry b blocks) ∙ sym (ap (idle b) entries);
            single = λ b. omega (
              tests,
              ap (entries_of b) entries,
              entries_of-new_entry b blocks,
              at_most_one b (max n min_input_buffer_count),
              count-fetch_blocks fetched (max n min_input_buffer_count) b blocks x,
            );
          }
    ]

create-IsValid :
    (fetched : ℕ → Bool) (format : VideoPixelFormat) (n : ℕ) (c : Converter)
    → create fetched format n ≡ some c
    → IsValid c
unfolding create
create-IsValid fetched format n c e = initialize-IsValid fetched format n c (ground arith)

zero_copied_entries :
    (b frame_index : ℕ) (entries : List BlockEntry)
    → (idle b (entries ++ (zero_copied frame_index ∷ [])) ≡ idle b entries)
      × (entries_of b (entries ++ (zero_copied frame_index ∷ [])) ≡ entries_of b entries)
zero_copied_entries b frame_index [] = (refl, refl)
zero_copied_entries b frame_index (allocated c f ∷ entries) =
    ground (arith, zero_copied_entries b frame_index entries)
zero_copied_entries b frame_index (zero_copied f ∷ entries) =
    zero_copied_entries b frame_index entries

-- What a conversion may do: nothing, a zero-copy, or the use of the first available block.
abbrev pub IsConverted : ℕ → Converter → Converter × Status × Converted → Type 0
IsConverted frame_index c (d, status, converted) =
    ((d ≡ c) × (converted ≡ input_block))
    ⊎ (((d ≡ (record c { graphic_blocks = c.graphic_blocks ++ (zero_copied frame_index ∷ []) }))
          × (converted ≡ input_block))
        ⊎ ((block : ℕ) × (rest : List ℕ) × (c.available_queue ≡ block ∷ rest)
            × (converted ≡ output_block block)
            × (d ≡ (record c {
              graphic_blocks = associate block frame_index c.graphic_blocks;
              available_queue = rest;
            }))))

convert_lem :
    (frame_index : ℕ) (format : VideoPixelFormat) (block : ℕ) (rest : List ℕ) (c : Converter)
    → c.available_queue ≡ block ∷ rest
    → IsConverted frame_index c (convert frame_index format block rest c)
unfolding convert
convert_lem frame_index format block rest c q =
    elim (Bool-cases (is_convertible format c.out_format)) [
      | inl x ↦ inr (inr (block, rest, q, ground arith, ground arith))
      | inr x ↦ inl (ground arith, ground arith)
    ]

module _ (frame_index block : ℕ) (rest : List ℕ) (c : Converter)
    (q : c.available_queue ≡ block ∷ rest) where
  by_convert :
      (layout : Layout) (format : VideoPixelFormat)
      → convert_block frame_index layout c ≡ convert frame_index format block rest c
      → IsConverted frame_index c (convert_block frame_index layout c)
  by_convert layout format e =
      subst (λ r. IsConverted frame_index c r) (sym e)
        (convert_lem frame_index format block rest c q)

  ready_lem : (layout : Layout) → IsConverted frame_index c (convert_block frame_index layout c)
  unfolding convert_block
  ready_lem (yuv root_planes v_behind_u) =
      let format = yuv_format root_planes v_behind_u in
      elim (Bool-cases (is_format format c.out_format)) [
        | inl x ↦ inr (inl (ground arith, ground arith))
        | inr x ↦ by_convert (yuv root_planes v_behind_u) format (ground arith)
      ]
  ready_lem rgb = by_convert rgb abgr (ground arith)
  ready_lem (implementation_defined true) =
      by_convert (implementation_defined true) abgr (ground arith)
  ready_lem (implementation_defined false) = inl (ground arith, ground arith)
  ready_lem other = inl (ground arith, ground arith)

pub convert_block_lem :
    (frame_index : ℕ) (layout : Layout) (c : Converter)
    → IsConverted frame_index c (convert_block frame_index layout c)
unfolding convert_block
convert_block_lem frame_index layout c = elim (List-cases c.available_queue) [
  | inl n ↦ inl (ground arith, ground arith)
  | inr (block, rest, q) ↦ ready_lem frame_index block rest c q layout
]

IsValid-same : {s t : Converter} → s ≡ t → IsValid t → IsValid s
IsValid-same e v = subst (λ c. IsValid c) (sym e) v

module _ (frame_index : ℕ) (c : Converter) where
  taken :
      (b block : ℕ) (rest : List ℕ)
      → (frame_index == no_frame_associated) ≡ false
      → c.available_queue ≡ block ∷ rest
      → count block c.available_queue ≡ idle block c.graphic_blocks
      → count b c.available_queue ≡ idle b c.graphic_blocks
      → entries_of block c.graphic_blocks ≤ 1
      → count b rest ≡ idle b (associate block frame_index c.graphic_blocks)
  taken b block rest h q e f s =
      let first : 0 < idle block c.graphic_blocks = ground (arith, ap (count block) q) in
      ground (arith, ap (count b) q, idle-associate b block frame_index c.graphic_blocks h s first)

  converted-IsValid :
      (r : Converter × Status × Converted)
      → (frame_index == no_frame_associated) ≡ false
      → IsValid c
      → IsConverted frame_index c r
      → IsValid r.0
  converted-IsValid r h v (inl (same, _)) = subst (λ d. IsValid d) (sym same) v
  converted-IsValid r h v (inr (inl (same, _))) =
      subst (λ d. IsValid d) (sym same)
        (record {
          available =
              λ b. v.available b ∙ sym (zero_copied_entries b frame_index c.graphic_blocks).0;
          single = λ b.
              omega (arith, (zero_copied_entries b frame_index c.graphic_blocks).1, v.single b);
        })
  converted-IsValid r h v (inr (inr (block, rest, q, _, same))) =
      subst (λ d. IsValid d) (sym same)
        (record {
          available =
              λ b. taken b block rest h q (v.available block) (v.available b) (v.single block);
          single = λ b.
              omega (arith, entries_of-associate b block frame_index c.graphic_blocks, v.single b);
        })

return_block-IsValid :
    (frame_index : ℕ) (c : Converter)
    → (frame_index == no_frame_associated) ≡ false
    → IsValid c
    → IsValid (return_block frame_index c).0
unfolding return_block
return_block-IsValid frame_index c h v =
    elim (Option-cases (return_entry frame_index c.graphic_blocks)) [
      | inl n ↦ IsValid-same (ground arith) v
      | inr ((entries, blocks), n) ↦
          let d : Converter = record c {
            graphic_blocks = entries;
            available_queue = c.available_queue ++ blocks;
          } in
          IsValid-same {t = d} (ground arith) (record {
            available = λ b. omega (
              arith,
              v.available b,
              count-append b c.available_queue blocks,
              (return_entry_lem b frame_index c.graphic_blocks entries blocks n h).0,
            );
            single = λ b. omega (
              arith,
              (return_entry_lem b frame_index c.graphic_blocks entries blocks n h).1,
              v.single b,
            );
          })
    ]

-- What a client of the converter may do with frame indices that are not kNoFrameAssociated.
pub data Reachable : Converter → Type 0 where
  created :
      (fetched : ℕ → Bool) (format : VideoPixelFormat) (n : ℕ) (c : Converter)
      → create fetched format n ≡ some c
      → Reachable c
  converts :
      (frame_index : ℕ) (layout : Layout) (c : Converter)
      → Reachable c
      → (frame_index == no_frame_associated) ≡ false
      → Reachable (convert_block frame_index layout c).0
  returns :
      (frame_index : ℕ) (c : Converter)
      → Reachable c
      → (frame_index == no_frame_associated) ≡ false
      → Reachable (return_block frame_index c).0

pub Reachable-IsValid : (c : Converter) → Reachable c → IsValid c
Reachable-IsValid c (created fetched format n _ e) = create-IsValid fetched format n c e
Reachable-IsValid _ (converts frame_index layout c r h) =
    converted-IsValid frame_index c (convert_block frame_index layout c) h (Reachable-IsValid c r)
      (convert_block_lem frame_index layout c)
Reachable-IsValid _ (returns frame_index c r h) =
    return_block-IsValid frame_index c h (Reachable-IsValid c r)

-- After a FormatConverter was created, and any conversions and returns of frames whose index is not
-- kNoFrameAssociated, a block is in the queue of available blocks exactly when it has an entry that
-- holds no frame, and then once; and no block has two entries.
pub Reachable-available :
    (b : ℕ) (c : Converter)
    → Reachable c
    → (count b c.available_queue ≡ idle b c.graphic_blocks) × (entries_of b c.graphic_blocks ≤ 1)
Reachable-available b c r = let v = Reachable-IsValid c r in (v.available b, v.single b)
