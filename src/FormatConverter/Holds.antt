-- ===== src/FormatConverter/Holds.antt =====
-- A block that FormatConverter converts into, and its return.
use android_external_v4l2_co.Prelude.{
  ℕ, ◌≤◌, ◌<◌, ◌≡◌, ◌∙◌, ap, subst, Option, none, some, List, [], ◌∷◌, ◌++◌, arith, tests, ◌==◌,
  if◌then◌else◌, inl, inr, Bool-cases, Option-cases,
}
use android_external_v4l2_co.FormatConverter.{
  Status, ok, BlockEntry, allocated, zero_copied, Converter, Layout, output_block,
  no_frame_associated, associate, convert_block, return_entry, return_block,
}
use android_external_v4l2_co.FormatConverter.Blocks.{one, count, entries_of, idle, idle_le}
use android_external_v4l2_co.FormatConverter.Steps.{
  Reachable, Reachable-IsValid, IsConverted, convert_block_lem,
}

-- The frame index in the entry of a block.
abbrev pub holder : ℕ → List BlockEntry → Option ℕ
holder b [] = none
holder b (allocated c f ∷ entries) = if c == b then some f else holder b entries
holder b (zero_copied f ∷ entries) = holder b entries

holder-idle :
    (b : ℕ) (entries : List BlockEntry)
    → entries_of b entries ≤ 1
    → 0 < idle b entries
    → holder b entries ≡ some no_frame_associated
holder-idle b [] s i = absurd (ground arith)
holder-idle b (allocated c f ∷ entries) s i = elim (Bool-cases (c == b)) [
  | inl e ↦ ground (arith, idle_le b entries)
  | inr e ↦ ground (arith, holder-idle b entries (ground arith) (ground arith))
]
holder-idle b (zero_copied f ∷ entries) s i = holder-idle b entries s i

holder-associate :
    (b frame_index : ℕ) (entries : List BlockEntry)
    → 0 < entries_of b entries
    → holder b (associate b frame_index entries) ≡ some frame_index
unfolding associate
holder-associate b frame_index [] s = absurd (ground arith)
holder-associate b frame_index (allocated c f ∷ entries) s = elim (Bool-cases (c == b)) [
  | inl e ↦ ground arith
  | inr e ↦ ground (arith, holder-associate b frame_index entries (ground arith))
]
holder-associate b frame_index (zero_copied f ∷ entries) s =
    holder-associate b frame_index entries s

return_entry-associate :
    (b frame_index : ℕ) (entries : List BlockEntry)
    → holder b entries ≡ some no_frame_associated
    → return_entry frame_index entries ≡ none
    → return_entry frame_index (associate b frame_index entries) ≡ some (entries, b ∷ [])
unfolding associate return_entry
return_entry-associate b frame_index [] h n = absurd (ground arith)
return_entry-associate b frame_index (allocated c f ∷ entries) h n = elim (Bool-cases (c == b)) [
  | inl e ↦ ground arith
  | inr e ↦ elim (Bool-cases (f == frame_index)) [
    | inl x ↦ absurd (ground arith)
    | inr x ↦ elim (Option-cases (return_entry frame_index entries)) [
      | inr (r, y) ↦ absurd (ground arith)
      | inl y ↦ ground (arith, return_entry-associate b frame_index entries (ground arith) y)
    ]
  ]
]
return_entry-associate b frame_index (zero_copied f ∷ entries) h n =
    elim (Bool-cases (f == frame_index)) [
      | inl x ↦ absurd (ground arith)
      | inr x ↦ elim (Option-cases (return_entry frame_index entries)) [
        | inr (r, y) ↦ absurd (ground arith)
        | inl y ↦ ground (arith, return_entry-associate b frame_index entries h y)
      ]
    ]

one_self : (b : ℕ) → one b b ≡ 1
one_self b = ground arith

-- The parts of a conversion that used a block.
module _ (frame_index block : ℕ) (layout : Layout) (c d : Converter) (status : Status)
    (r : Reachable c)
    (e : convert_block frame_index layout c ≡ (d, status, output_block block)) where
  used :
      (rest : List ℕ) × (c.available_queue ≡ block ∷ rest)
      × (d.graphic_blocks ≡ associate block frame_index c.graphic_blocks)
      × (d.available_queue ≡ rest)
  used =
      elim (subst (λ x. IsConverted frame_index c x) e (convert_block_lem frame_index layout c)) [
        | inl (same, x) ↦ absurd (ground arith)
        | inr (inl (same, x)) ↦ absurd (ground arith)
        | inr (inr (b, rest, q, x, same)) ↦
            let which : b ≡ block = ground arith in (rest, ground arith, ground arith, ground arith)
      ]

  was_idle : 0 < idle block c.graphic_blocks
  was_idle =
      let (rest, q, entries, queue) = used in
      omega (tests, (Reachable-IsValid c r).available block, ap (count block) q, one_self block)

-- When convertBlock of a converter in use gives out a block of its own, the block held no frame
-- before, it holds the given frame now, and it is no longer available.
pub convert_block-output_block :
    (frame_index block : ℕ) (layout : Layout) (c d : Converter) (status : Status)
    → Reachable c
    → convert_block frame_index layout c ≡ (d, status, output_block block)
    → (holder block c.graphic_blocks ≡ some no_frame_associated)
      × (holder block d.graphic_blocks ≡ some frame_index)
      × (count block d.available_queue ≡ 0)
convert_block-output_block frame_index block layout c d status r e =
    let (rest, q, entries, queue) = used frame_index block layout c d status r e in
    let v = Reachable-IsValid c r in
    let i = was_idle frame_index block layout c d status r e in
    (
      holder-idle block c.graphic_blocks (v.single block) i,
      ap (holder block) entries
          ∙ holder-associate block frame_index c.graphic_blocks
              (omega (arith, i, idle_le block c.graphic_blocks)),
      omega (
        arith,
        ap (count block) queue,
        ap (count block) q,
        v.available block,
        v.single block,
        idle_le block c.graphic_blocks,
        one_self block,
      ),
    )

-- Returning the frame right behind such a conversion, if the converter did not know its index before,
-- succeeds and gives the entries back as they were; the block goes from the front of the queue of
-- available blocks to its end.
pub return_block-convert_block :
    (frame_index block : ℕ) (layout : Layout) (c d : Converter) (status : Status)
    → Reachable c
    → return_entry frame_index c.graphic_blocks ≡ none
    → convert_block frame_index layout c ≡ (d, status, output_block block)
    → let u = (return_block frame_index d).0 in
      ((return_block frame_index d).1 ≡ ok)
      × (u.graphic_blocks ≡ c.graphic_blocks)
      × (u.available_queue ≡ d.available_queue ++ (block ∷ []))
      × (c.available_queue ≡ block ∷ d.available_queue)
unfolding return_block
return_block-convert_block frame_index block layout c d status r n e =
    let (rest, q, entries, queue) = used frame_index block layout c d status r e in
    let held =
      holder-idle block c.graphic_blocks ((Reachable-IsValid c r).single block)
        (was_idle frame_index block layout c d status r e) in
    let back : return_entry frame_index d.graphic_blocks ≡ some (c.graphic_blocks, block ∷ []) =
      ap (return_entry frame_index) entries
      ∙ return_entry-associate block frame_index c.graphic_blocks held n in
    ground arith
