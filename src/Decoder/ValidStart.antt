-- ===== src/Decoder/ValidStart.antt =====
-- What a V4L2Decoder is like when start succeeded.
use android_external_v4l2_co.Prelude.{
  ℕ, ap, ◌≡◌, ◌≢◌, refl, true, some, List, [], arith, ltb, ◌==◌, if◌then◌else◌, inl, inr,
  Bool-cases, subst, sym, ◌∙◌,
}
use android_external_v4l2_co.Queue.{Queue, streamon, allocate_buffers}
use android_external_v4l2_co.Queue.Sets.{count}
use android_external_v4l2_co.Queue.Owners.{HasOneOwner}
use android_external_v4l2_co.Queue.OwnersDriver.{streamon-HasOneOwner}
use android_external_v4l2_co.Queue.Allocation.{allocate_buffers-HasOneOwner}
use android_external_v4l2_co.Queue.Answers.{allocate_buffers_lem}
use android_external_v4l2_co.Queue.Counts.{allocate_buffers-queued, streamon-queued}
use android_external_v4l2_co.Decoder.{idle, Decoder, Device, next_state, set_state, put_device}
use android_external_v4l2_co.Poller.{start_poller_lem}
use android_external_v4l2_co.Decoder.Flush.{start_polling}
use android_external_v4l2_co.Decoder.Start.{
  num_input_buffers, Opening, new_queue, new_decoder, setup_input_buffers, setup_input_format,
  open_queues, do_start, start,
}
use android_external_v4l2_co.Decoder.Valid.{IsValid, IsValid-same}

-- The input queue streams, and each of its buffers is free.
pub record IsReady {D : Type 0} (q : Queue D) : Type 0 where
  pub is_streaming : q.is_streaming ≡ true
  pub has_buffers : q.allocated ≢ 0
  pub free : List ℕ
  pub is_free : q.free_buffers ≡ some free
  pub each : (i : ℕ) → count i free ≡ (if ltb i q.allocated then 1 else 0)
  pub nothing_queued : q.queued_buffers ≡ []
  pub one_owner : HasOneOwner q []

module _ {D : Type 0} (device : Device D) (opening : Opening D) where
  -- All that start leaves as it was, but for the device and the input queue.
  abbrev changed : Decoder D → Queue D → Decoder D
  changed s q = record s { input_queue = q }

  new_queue-HasOneOwner : (d : D) → HasOneOwner (new_queue d) []
  new_queue-HasOneOwner d i = ground arith

  streamon_succeeds :
      (q : Queue D)
      → (streamon device.driver q).1 ≡ true
      → let t = (streamon device.driver q).0 in
        (t.is_streaming ≡ true) × (t.allocated ≡ q.allocated) × (t.free_buffers ≡ q.free_buffers)
  unfolding streamon
  streamon_succeeds q e = ground arith

  setup_input_buffers_lem :
      (s t : Decoder D) (d : D)
      → s.input_queue ≡ new_queue d
      → setup_input_buffers device opening s ≡ (t, true)
      → (q : Queue D) × (t ≡ changed s q) × IsReady q
  unfolding setup_input_buffers
  setup_input_buffers_lem s t d n e =
      let made = allocate_buffers device.driver num_input_buffers s.input_queue in
      let started = streamon device.driver made.0 in
      let empty : s.input_queue.queued_buffers ≡ [] = ground arith in
      let owner : HasOneOwner s.input_queue [] =
        subst (λ q. HasOneOwner q []) (sym n) (new_queue-HasOneOwner d) in
      elim (Bool-cases (made.1 == 0)) [
        | inl z ↦ absurd (ground arith)
        | inr z ↦
            let (asked, size, free, is_free, each) =
              allocate_buffers_lem device.driver num_input_buffers made.1 s.input_queue refl
                (ground arith) in
            let (streams, same_size, same_free) = streamon_succeeds made.0 (ground arith) in
            let nothing = allocate_buffers-queued device.driver num_input_buffers s.input_queue in
            (
              started.0,
              ground arith,
              record {
                is_streaming = streams;
                has_buffers = ground arith;
                free = free;
                is_free = same_free ∙ is_free;
                each = λ i. ground (arith, each i);
                nothing_queued = streamon-queued device.driver made.0 ∙ nothing ∙ empty;
                one_owner = streamon-HasOneOwner device.driver made.0 [] (
                    allocate_buffers-HasOneOwner device.driver num_input_buffers s.input_queue [] tt
                      empty owner);
              },
            )
      ]

  setup_input_format_lem :
      (f n : ℕ) (s t : Decoder D) (d : D)
      → s.input_queue ≡ new_queue d
      → setup_input_format device opening f n s ≡ (t, true)
      → (q : Queue D) × (t ≡ changed s q) × IsReady q
  unfolding setup_input_format
  setup_input_format_lem f n s t d q e =
      let d = (opening.set_input_format s.input_queue.device f n).0 in
      let (r, same, ready) =
        setup_input_buffers_lem (put_device d s) t d (ground arith) (ground arith) in
      (r, same, ready)

  open_queues_lem :
      (f : ℕ) (s : Decoder D) → (d : D) × ((open_queues device opening f s).0 ≡ put_device d s)
  unfolding open_queues
  open_queues_lem f s = ((open_queues device opening f s).0.input_queue.device, ground arith)

  polling_lem :
      (s t : Decoder D)
      → start_polling device s ≡ (t, true)
      → (d : D) × (t ≡ record (put_device d s) { is_polling = true })
  unfolding start_polling
  polling_lem s t e =
      let runs =
        start_poller_lem device.poller s.input_queue.device s.is_polling (ap (λ r. r.1) e) in
      (t.input_queue.device, ground (arith, runs))

  device-IsReady : (q : Queue D) (d : D) → IsReady q → IsReady (record q { device = d })
  device-IsReady q d r = record {
    is_streaming = r.is_streaming;
    has_buffers = r.has_buffers;
    free = r.free;
    is_free = r.is_free;
    each = r.each;
    nothing_queued = r.nothing_queued;
    one_owner = r.one_owner;
  }

  -- The three parts of a start that succeeded.
  do_start_parts :
      (f n : ℕ) (s t : Decoder D)
      → do_start device opening f n s ≡ (t, true)
      → let opened = open_queues device opening f s in
        let set = setup_input_format device opening f n opened.0 in
        (set ≡ (set.0, true))
        × (start_polling device set.0 ≡ ((start_polling device set.0).0, true))
        × (t ≡ set_state idle (start_polling device set.0).0)
  unfolding do_start
  do_start_parts f n s t e = ground arith

  set_idle_same : (s : Decoder D) → s.state ≡ idle → set_state idle s ≡ s
  unfolding set_state next_state
  set_idle_same s e = ground arith

  do_start_lem :
      (f n : ℕ) (s t : Decoder D) (d : D)
      → s.state ≡ idle
      → s.input_queue ≡ new_queue d
      → do_start device opening f n s ≡ (t, true)
      → (q : Queue D) × (t ≡ record s { input_queue = q; is_polling = true }) × IsReady q
  do_start_lem f n s t d i q e =
      let opened = open_queues device opening f s in
      let set = setup_input_format device opening f n opened.0 in
      let (set_well, polls_well, at) = do_start_parts f n s t e in
      let (d', same) = open_queues_lem f s in
      let new : opened.0.input_queue ≡ new_queue d' =
        ap (λ (u : Decoder D). u.input_queue) same
        ∙ ap (λ (u : Queue D). record u { device = d' }) q in
      let (r, same_set, ready) = setup_input_format_lem f n opened.0 set.0 d' new set_well in
      let (d'', same_polls) = polling_lem set.0 (start_polling device set.0).0 polls_well in
      let result = record r { device = d'' } in
      let all : (start_polling device set.0).0
          ≡ record s { input_queue = result; is_polling = true } =
        same_polls
        ∙ ap (λ (u : Decoder D). record (put_device d'' u) { is_polling = true }) same_set
        ∙ ap (λ (u : Decoder D). record u { input_queue = result; is_polling = true }) same in
      let is_idle : (start_polling device set.0).0.state ≡ idle =
        ap (λ (u : Decoder D). u.state) all ∙ i in
      (
        result,
        at ∙ set_idle_same (start_polling device set.0).0 is_idle ∙ all,
        device-IsReady r d'' ready,
      )

  start_unfolds :
      (f n m : ℕ) (d : D) (t : Decoder D)
      → start device opening f n m (new_decoder d) ≡ (t, true)
      → do_start device opening f n (record (new_decoder d) { min_num_output_buffers = m })
        ≡ (t, true)
  unfolding start
  start_unfolds f n m d t e = e

  -- When start succeeds on a new decoder, the decoder is valid with no callback given so far: each
  -- buffer of its queues has one owner, and no frame is at the device. It is idle, the device is
  -- polled, and the input queue streams with at least one buffer, all of them free.
  pub start_lem :
      (f n m : ℕ) (d : D) (t : Decoder D)
      → start device opening f n m (new_decoder d) ≡ (t, true)
      → IsValid (λ c. 0) t × (t.state ≡ idle) × (t.is_polling ≡ true) × IsReady t.input_queue
  start_lem f n m d t e =
      let s = record (new_decoder d) { min_num_output_buffers = m } in
      let (q, same, ready) = do_start_lem f n s t d refl refl (start_unfolds f n m d t e) in
      (
        IsValid-same same (record {
          input_owner = ready.one_owner;
          output_owner = new_queue-HasOneOwner d;
          frames = λ i. refl;
          drain = refl;
          pool = tt;
          used = λ c. omega arith;
        }),
        ap (λ (u : Decoder D). u.state) same,
        ap (λ (u : Decoder D). u.is_polling) same,
        subst (λ (u : Decoder D). IsReady u.input_queue) (sym same) ready,
      )
