-- ===== src/FormatConverter/Blocks.antt =====
-- The blocks of FormatConverter: an available block holds no frame, and is available once.
use android_external_v4l2_co.Prelude.{
  ℕ, ◌+◌, ◌≤◌, ◌<◌, ◌≡◌, refl, false, some, List, [], ◌∷◌, ◌++◌, arith, ◌==◌, if◌then◌else◌, inl,
  inr, Bool-cases, Option-cases,
}
use android_external_v4l2_co.FormatConverter.{
  BlockEntry, allocated, zero_copied, no_frame_associated, associate, return_entry,
}

abbrev pub one : ℕ → ℕ → ℕ
one b c = if b == c then 1 else 0

abbrev pub count : ℕ → List ℕ → ℕ
count b [] = 0
count b (c ∷ blocks) = one b c + count b blocks

-- How many entries a block has, and how many of them hold no frame.
abbrev pub entries_of : ℕ → List BlockEntry → ℕ
entries_of b [] = 0
entries_of b (allocated c f ∷ entries) = one b c + entries_of b entries
entries_of b (zero_copied f ∷ entries) = entries_of b entries

abbrev pub idle : ℕ → List BlockEntry → ℕ
idle b [] = 0
idle b (allocated c f ∷ entries) =
    (if f == no_frame_associated then one b c else 0) + idle b entries
idle b (zero_copied f ∷ entries) = idle b entries

pub idle_le : (b : ℕ) (entries : List BlockEntry) → idle b entries ≤ entries_of b entries
idle_le b [] = omega arith
idle_le b (allocated c f ∷ entries) = ground (arith, idle_le b entries)
idle_le b (zero_copied f ∷ entries) = idle_le b entries

pub count-append :
    (b : ℕ) (blocks more : List ℕ) → count b (blocks ++ more) ≡ count b blocks + count b more
count-append b [] more = omega arith
count-append b (c ∷ blocks) more = omega (arith, count-append b blocks more)

pub entries_of-associate :
    (b block frame_index : ℕ) (entries : List BlockEntry)
    → entries_of b (associate block frame_index entries) ≡ entries_of b entries
unfolding associate
entries_of-associate b block frame_index [] = refl
entries_of-associate b block frame_index (allocated c f ∷ entries) =
    ground (arith, entries_of-associate b block frame_index entries)
entries_of-associate b block frame_index (zero_copied f ∷ entries) =
    entries_of-associate b block frame_index entries

pub idle-associate :
    (b block frame_index : ℕ) (entries : List BlockEntry)
    → (frame_index == no_frame_associated) ≡ false
    → entries_of block entries ≤ 1
    → 0 < idle block entries
    → idle b (associate block frame_index entries) + one b block ≡ idle b entries
unfolding associate
idle-associate b block frame_index [] h s i = absurd (ground arith)
idle-associate b block frame_index (allocated c f ∷ entries) h s i =
    elim (Bool-cases (c == block)) [
      | inl e ↦ ground (arith, idle_le block entries)
      | inr e ↦
          ground (arith, idle-associate b block frame_index entries h (ground arith) (ground arith))
    ]
idle-associate b block frame_index (zero_copied f ∷ entries) h s i =
    idle-associate b block frame_index entries h s i

pub return_entry_lem :
    (b frame_index : ℕ) (entries others : List BlockEntry) (blocks : List ℕ)
    → return_entry frame_index entries ≡ some (others, blocks)
    → (frame_index == no_frame_associated) ≡ false
    → (idle b others ≡ idle b entries + count b blocks)
      × (entries_of b others ≡ entries_of b entries)
unfolding return_entry
return_entry_lem b frame_index [] others blocks e h = absurd (ground arith)
return_entry_lem b frame_index (allocated c f ∷ entries) others blocks e h =
    elim (Bool-cases (f == frame_index)) [
      | inl x ↦ ground arith
      | inr x ↦ elim (Option-cases (return_entry frame_index entries)) [
        | inl n ↦ absurd (ground arith)
        | inr ((rest, more), n) ↦
            ground (arith, return_entry_lem b frame_index entries rest more n h)
      ]
    ]
return_entry_lem b frame_index (zero_copied f ∷ entries) others blocks e h =
    elim (Bool-cases (f == frame_index)) [
      | inl x ↦ ground arith
      | inr x ↦ elim (Option-cases (return_entry frame_index entries)) [
        | inl n ↦ absurd (ground arith)
        | inr ((rest, more), n) ↦
            ground (arith, return_entry_lem b frame_index entries rest more n h)
      ]
    ]
