-- ===== src/DecodeComponent/Works.antt =====
-- Where the works of V4L2DecodeComponent are: counted by their frame index in the lists of the
-- component, and what each function on those lists does to the count.
use android_external_v4l2_co.Prelude.{
  ℕ, ◌+◌, ◌≡◌, refl, Bool, true, false, ◌&&◌, ◌||◌, none, some, List, [], ◌∷◌, ◌++◌, arith, ◌==◌,
  if◌then◌else◌, map, inl, inr, Option-cases, Bool-cases,
}
use android_external_v4l2_co.DecodeComponent.{
  Status, corrupted, Work, Task, release, front_buffer, is_null, is_work_done, find_work,
  erase_work, insert_work, change_work,
}
use android_external_v4l2_co.DecodeComponent.Report.{
  finish, take_eos_work, abandon, works_of, finish_eos,
}
use android_external_v4l2_co.DecodeComponent.Tasks.{mark_last}

abbrev pub one : ℕ → Work → ℕ
one i w = if w.frame_index == i then 1 else 0

abbrev pub count : ℕ → List Work → ℕ
count i [] = 0
count i (w ∷ works) = one i w + count i works

abbrev pub count_at : ℕ → List (ℕ × Work) → ℕ
count_at i [] = 0
count_at i ((id, w) ∷ works) = one i w + count_at i works

abbrev pub count_tasks : ℕ → List Task → ℕ
count_tasks i [] = 0
count_tasks i (Task.queue_task w ∷ tasks) = one i w + count_tasks i tasks
count_tasks i (Task.flush_task ∷ tasks) = count_tasks i tasks
count_tasks i (Task.drain_task ∷ tasks) = count_tasks i tasks
count_tasks i (Task.pump_pending_works ∷ tasks) = count_tasks i tasks

abbrev is_corrupted : Status → Bool
is_corrupted corrupted = true
is_corrupted _ = false

-- A work is given back without its input buffer, or as it came, with C2_CORRUPTED.
abbrev pub is_given_back : Work → Bool
is_given_back w = is_corrupted w.result || is_null (front_buffer w)

abbrev pub all_given_back : List Work → Bool
all_given_back [] = true
all_given_back (w ∷ works) = is_given_back w && all_given_back works

-- A work without an input buffer.
abbrev pub all_empty : List Work → Bool
all_empty [] = true
all_empty (w ∷ works) = is_null (front_buffer w) && all_empty works

pub all_empty-append :
    (works more : List Work)
    → all_empty works ≡ true
    → all_empty more ≡ true
    → all_empty (works ++ more) ≡ true
all_empty-append [] more a b = b
all_empty-append (w ∷ works) more a b = ground (arith, all_empty-append works more (ground arith) b)

pub count-append :
    (i : ℕ) (works more : List Work) → count i (works ++ more) ≡ count i works + count i more
count-append i [] more = omega arith
count-append i (w ∷ works) more = omega (arith, count-append i works more)

pub count_tasks-append :
    (i : ℕ) (tasks more : List Task)
    → count_tasks i (tasks ++ more) ≡ count_tasks i tasks + count_tasks i more
count_tasks-append i [] more = omega arith
count_tasks-append i (Task.queue_task w ∷ tasks) more =
    omega (arith, count_tasks-append i tasks more)
count_tasks-append i (Task.flush_task ∷ tasks) more = count_tasks-append i tasks more
count_tasks-append i (Task.drain_task ∷ tasks) more = count_tasks-append i tasks more
count_tasks-append i (Task.pump_pending_works ∷ tasks) more = count_tasks-append i tasks more

pub count_tasks-map :
    (i : ℕ) (works : List Work) → count_tasks i (map Task.queue_task works) ≡ count i works
count_tasks-map i [] = refl
count_tasks-map i (w ∷ works) = omega (arith, count_tasks-map i works)

pub all_given_back-append :
    (works more : List Work)
    → all_given_back works ≡ true
    → all_given_back more ≡ true
    → all_given_back (works ++ more) ≡ true
all_given_back-append [] more a b = b
all_given_back-append (w ∷ works) more a b =
    ground (arith, all_given_back-append works more (ground arith) b)

count-works_of : (i : ℕ) (works : List (ℕ × Work)) → count i (works_of works) ≡ count_at i works
count-works_of i [] = refl
count-works_of i ((id, w) ∷ works) = omega (arith, count-works_of i works)

frame_index-release : (w : Work) → (release w).frame_index ≡ w.frame_index
unfolding release
frame_index-release w = ground arith

pub release-given_back : (w : Work) → is_null (front_buffer (release w)) ≡ true
unfolding release
release-given_back w = ground arith

pub one-release : (i : ℕ) (w : Work) → one i (release w) ≡ one i w
one-release i w = rw (frame_index-release w)

pub one-finish : (i : ℕ) (w : Work) → one i (finish w) ≡ one i w
one-finish i w = refl

pub one-finish_eos : (i : ℕ) (w : Work) → one i (finish_eos w) ≡ one i w
unfolding finish_eos
one-finish_eos i w = one-release i w

one-abandon : (i : ℕ) (w : Work) → one i (abandon w) ≡ one i w
unfolding abandon
one-abandon i w = one-release i w

count-abandon : (i : ℕ) (works : List Work) → count i (map abandon works) ≡ count i works
count-abandon i [] = refl
count-abandon i (w ∷ works) = omega (arith, one-abandon i w, count-abandon i works)

pub count-abandoned :
    (i : ℕ) (works : List Work) (sent : List (ℕ × Work))
    → count i (map abandon (works ++ works_of sent)) ≡ count i works + count_at i sent
count-abandoned i works sent = omega (
  arith,
  count-abandon i (works ++ works_of sent),
  count-append i works (works_of sent),
  count-works_of i sent,
)

pub abandoned-given_back : (works : List Work) → all_given_back (map abandon works) ≡ true
unfolding abandon
abandoned-given_back [] = refl
abandoned-given_back (w ∷ works) = ground (arith, release-given_back w, abandoned-given_back works)

pub finish-given_back : (w : Work) → is_work_done w ≡ true → is_given_back (finish w) ≡ true
unfolding is_work_done
finish-given_back w h = ground arith

pub finish_eos-given_back : (w : Work) → is_given_back (finish_eos w) ≡ true
unfolding finish_eos
finish_eos-given_back w = release-given_back w

pub count_at-erase_work :
    (i id : ℕ) (w : Work) (works : List (ℕ × Work))
    → find_work id works ≡ some w
    → count_at i (erase_work id works) + one i w ≡ count_at i works
unfolding find_work erase_work
count_at-erase_work i id w [] h = absurd (ground arith)
count_at-erase_work i id w ((k, v) ∷ works) h = elim (Bool-cases (id == k)) [
  | inl e ↦ let same : v ≡ w = ground arith in ground (arith, same)
  | inr e ↦ ground (arith, count_at-erase_work i id w works (ground arith))
]

pub count_at-insert_work :
    (i id : ℕ) (w : Work) (works : List (ℕ × Work))
    → find_work id works ≡ none
    → count_at i (insert_work id w works) ≡ one i w + count_at i works
unfolding find_work insert_work
count_at-insert_work i id w [] h = refl
count_at-insert_work i id w ((k, v) ∷ works) h = elim (Bool-cases (id == k)) [
  | inl e ↦ absurd (ground arith)
  | inr e ↦ ground (arith, count_at-insert_work i id w works (ground arith))
]

pub count_at-change_work :
    (i id : ℕ) (f : Work → Work) (works : List (ℕ × Work))
    → ((w : Work) → one i (f w) ≡ one i w)
    → count_at i (change_work f id works) ≡ count_at i works
unfolding change_work
count_at-change_work i id f [] h = refl
count_at-change_work i id f ((k, v) ∷ works) h = elim (Bool-cases (id == k)) [
  | inl e ↦ ground (arith, h v)
  | inr e ↦ ground (arith, count_at-change_work i id f works h)
]

pub count_at-take_eos_work :
    (i : ℕ) (works rest : List (ℕ × Work)) (w : Work)
    → take_eos_work works ≡ some (w, rest)
    → one i w + count_at i rest ≡ count_at i works
unfolding take_eos_work
count_at-take_eos_work i [] rest w h = absurd (ground arith)
count_at-take_eos_work i ((k, v) ∷ works) rest w h = elim (Bool-cases v.end_of_stream) [
  | inl e ↦ ground arith
  | inr e ↦ elim (Option-cases (take_eos_work works)) [
    | inl n ↦ absurd (ground arith)
    | inr ((u, others), n) ↦ ground (arith, count_at-take_eos_work i works others u n)
  ]
]

pub count-mark_last : (i : ℕ) (works : List Work) → count i (mark_last works) ≡ count i works
unfolding mark_last
count-mark_last i [] = refl
count-mark_last i (w ∷ []) = refl
count-mark_last i (w ∷ v ∷ works) = omega (arith, count-mark_last i (v ∷ works))
