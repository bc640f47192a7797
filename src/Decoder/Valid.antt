-- ===== src/Decoder/Valid.antt =====
-- What holds of a V4L2Decoder between two calls, and that the output side keeps it.
use android_external_v4l2_co.Prelude.{
  ℕ, ◌+◌, ◌≤◌, ◌≡◌, refl, true, Option, none, some, List, [], ◌∷◌, arith, ◌==◌, inl, inr, subst,
  sym, Bool-cases, Option-cases,
}
use android_external_v4l2_co.VideoFramePool.{VideoFramePool, FrameWithBlockId, get_video_frame}
use android_external_v4l2_co.VideoFramePool.Outstanding
use android_external_v4l2_co.VideoFramePool.Outstanding.{step-IsValid, requests}
use android_external_v4l2_co.Queue.{Queue, BufferRef, get_free_buffer_at, is_current, do_queue}
use android_external_v4l2_co.Queue.Owners.{
  HasOneOwner, get_free_buffer_at-HasOneOwner, held_not_queued,
}
use android_external_v4l2_co.Queue.OwnersDriver.{do_queue-HasOneOwner}
use android_external_v4l2_co.Queue.Sets.{count, one_at}
use android_external_v4l2_co.Queue.Counts.{get_free_buffer_at_lem, do_queue-count}
use android_external_v4l2_co.Decoder.{Decoder, Device, set_state, on_error, output, put_output}
use android_external_v4l2_co.Decoder.Callbacks.{
  one_if, pending, in_pending, uses, drain_ok, next_state_error,
}
use android_external_v4l2_co.Decoder.Output.{
  find_key, erase_key, free_buffers_count, request_frame, try_fetch_video_frame, index_of_block,
  queue_frame, place_frame, on_video_frame_ready,
}

-- There is one frame for every queued buffer, and no other.
abbrev pub Match : {D : Type 0} → List (ℕ × ℕ) → Queue D → Type 0
Match frames q = (i : ℕ) → pending i frames ≡ count i q.queued_buffers

-- One answer is on its way for a request to the pool, if there is a pool.
abbrev pub IsPool : Option VideoFramePool → Type 0
IsPool none = Unit {0}
IsPool (some p) = Outstanding.IsValid p

pub record IsValid {D : Type 0} (g : ℕ → ℕ) (s : Decoder D) : Type 0 where
  pub input_owner : HasOneOwner s.input_queue []
  pub output_owner : HasOneOwner s.output_queue []
  pub frames : Match s.frame_at_device s.output_queue
  pub drain : drain_ok s.state s.drain_cb ≡ true
  pub pool : IsPool s.video_frame_pool
  -- No callback is called or kept more often than it was given.
  pub used : (c : ℕ) → uses c s ≤ g c

pub find_key-none : (k : ℕ) (m : List (ℕ × ℕ)) → find_key k m ≡ none → pending k m ≡ 0
unfolding find_key
find_key-none k [] e = refl
find_key-none k ((i, v) ∷ m) e = ground (arith, find_key-none k m)

pub pending-erase_key :
    (k v : ℕ) (m : List (ℕ × ℕ)) (i : ℕ)
    → find_key k m ≡ some v
    → pending i (erase_key k m) + one_at k i ≡ pending i m
unfolding find_key erase_key
pending-erase_key k v [] i e = absurd (ground arith)
pending-erase_key k v ((j, w) ∷ m) i e = ground (arith, pending-erase_key k v m i)

pub in_pending-erase_key :
    (k v : ℕ) (m : List (ℕ × ℕ)) (c : ℕ)
    → find_key k m ≡ some v
    → in_pending c (erase_key k m) + one_if (c == v) ≡ in_pending c m
unfolding find_key erase_key
in_pending-erase_key k v [] c e = absurd (ground arith)
in_pending-erase_key k v ((j, w) ∷ m) c e = ground (arith, in_pending-erase_key k v m c)

module _ {D : Type 0} {g : ℕ → ℕ} where
  pub IsValid-same : {s t : Decoder D} → s ≡ t → IsValid g t → IsValid g s
  IsValid-same e v = subst (λ u. IsValid g u) (sym e) v

  pub on_error-IsValid : (s : Decoder D) → IsValid g s → IsValid g (on_error s)
  unfolding on_error set_state
  on_error-IsValid s v = record {
    input_owner = v.input_owner;
    output_owner = v.output_owner;
    frames = v.frames;
    drain = ground (arith, next_state_error s.state);
    pool = v.pool;
    used = v.used;
  }

  pub try_fetch_video_frame-IsValid :
      (s : Decoder D) → IsValid g s → IsValid g (try_fetch_video_frame s)
  unfolding try_fetch_video_frame request_frame
  try_fetch_video_frame-IsValid s v = elim (Option-cases s.video_frame_pool) [
    | inl n ↦ IsValid-same {t = on_error s} (ground arith) (on_error-IsValid s v)
    | inr (pool, p) ↦ elim (Bool-cases (free_buffers_count s.output_queue == 0)) [
      | inl z ↦ IsValid-same {t = s} (ground arith) v
      | inr z ↦
          IsValid-same {t = record s { video_frame_pool = some (get_video_frame pool).0 }}
            (ground arith)
            (record {
              input_owner = v.input_owner;
              output_owner = v.output_owner;
              frames = v.frames;
              drain = v.drain;
              pool = step-IsValid pool _ (requests pool) (subst (λ o. IsPool o) p v.pool);
              used = v.used;
            })
    ]
  ]

module _ {D : Type 0} {g : ℕ → ℕ} (device : Device D) where
  -- What holds when a buffer was taken from the output queue for a frame.
  queue_frame-IsValid :
      (frame : ℕ) (r : BufferRef) (q : Queue D) (s : Decoder D)
      → IsValid g s
      → HasOneOwner q (r ∷ [])
      → is_current r q ≡ true
      → q.queued_buffers ≡ s.output_queue.queued_buffers
      → IsValid g (queue_frame device frame r q s)
  unfolding queue_frame
  queue_frame-IsValid frame r q s v o c e =
      let put = do_queue device.output_driver r q in
      let owner = do_queue-HasOneOwner device.output_driver q [] [] r o in
      let counts = do_queue-count device.output_driver q r o c in
      let absent = held_not_queued q [] [] r o c in
      let t = put_output put.0 s in
      elim (Bool-cases put.1) [
        | inl queued ↦ elim (Option-cases (find_key r.index s.frame_at_device)) [
          | inl n ↦
              let u = record t { frame_at_device = (r.index, frame) ∷ s.frame_at_device } in
              IsValid-same {t = try_fetch_video_frame u} (ground arith) (
                try_fetch_video_frame-IsValid u (record {
                  input_owner = v.input_owner;
                  output_owner = owner;
                  frames = λ i. ground (arith, counts i, v.frames i);
                  drain = v.drain;
                  pool = v.pool;
                  used = v.used;
                }))
          | inr (old, n) ↦ absurd (
              ground (
                arith,
                absent,
                v.frames r.index,
                pending-erase_key r.index old s.frame_at_device r.index n,
              ))
        ]
        | inr lost ↦ IsValid-same {t = on_error t} (ground arith) (
            on_error-IsValid t (record {
              input_owner = v.input_owner;
              output_owner = owner;
              frames = λ i. ground (arith, counts i, v.frames i);
              drain = v.drain;
              pool = v.pool;
              used = v.used;
            }))
      ]

  place_frame-IsValid :
      (frame index : ℕ) (s : Decoder D) → IsValid g s → IsValid g (place_frame device frame index s)
  unfolding place_frame
  place_frame-IsValid frame index s v = elim (Option-cases (get_free_buffer_at index (output s))) [
    | inl n ↦ IsValid-same {t = on_error s} (ground arith) (on_error-IsValid s v)
    | inr ((r, q), n) ↦
        let (at, same, current) = get_free_buffer_at_lem index (output s) q r n in
        IsValid-same {t = queue_frame device frame r q s} (ground arith) (
          queue_frame-IsValid frame r q s v
            (get_free_buffer_at-HasOneOwner index (output s) q [] r v.output_owner n) current same)
  ]

  pub on_video_frame_ready-IsValid :
      (f : Option FrameWithBlockId) (s : Decoder D)
      → IsValid g s
      → IsValid g (on_video_frame_ready device f s)
  unfolding on_video_frame_ready
  on_video_frame_ready-IsValid none s v = on_error-IsValid s v
  on_video_frame_ready-IsValid (some f) s v = elim (Option-cases (index_of_block f.block_id s)) [
    | inl n ↦ IsValid-same {t = on_error s} (ground arith) (on_error-IsValid s v)
    | inr ((index, ids), n) ↦
        let t = record s { block_id_to_v4l2_id = ids } in
        IsValid-same {t = place_frame device f.frame index t} (ground arith) (
          place_frame-IsValid f.frame index t (record {
            input_owner = v.input_owner;
            output_owner = v.output_owner;
            frames = v.frames;
            drain = v.drain;
            pool = v.pool;
            used = v.used;
          }))
  ]
