-- ===== src/Bench/Cpus.antt =====
-- bench/src/analysis.rs: `cpu_count`, the number of CPUs that a taskset list names.
pub mod Count
pub mod Cuts
pub mod Elements
pub mod Heap
pub mod Merge
pub mod Segments
pub mod Strides
pub mod Total
use uring_mqtt.Common.{
  ℕ, zero, suc, ◌+◌, ◌-◌, ◌*◌, ◌/◌, ◌^◌, min, Bool, false, not, ◌&&◌, ◌||◌, Option, none, some,
  List, [], ◌∷◌, any, ltb, leb, ◌==◌, if◌then◌else◌,
}
use uring_mqtt.Bench.Pacer.{◌>>=◌}
use uring_mqtt.Bench.Slots.{div_ceil}

-- `char::is_whitespace`
abbrev pub is_whitespace : ℕ → Bool
is_whitespace c =
    (leb 9 c && leb c 13)
    || (c == 32)
    || (c == 133)
    || (c == 160)
    || (c == 5760)
    || (leb 8192 c && leb c 8202)
    || (c == 8232)
    || (c == 8233)
    || (c == 8239)
    || (c == 8287)
    || (c == 12288)

unfoldable pub trim_start : List ℕ → List ℕ
trim_start [] = []
trim_start (c ∷ text) = let rest = trim_start text in if is_whitespace c then rest else c ∷ text

unfoldable pub trim_end : List ℕ → List ℕ
trim_end [] = []
trim_end (c ∷ text) = keep (trim_end text)
  where
    keep : List ℕ → List ℕ
    keep [] = if is_whitespace c then [] else c ∷ []
    keep (d ∷ rest) = c ∷ d ∷ rest

abbrev pub trim : List ℕ → List ℕ
trim text = trim_end (trim_start text)

abbrev pub prefix : ℕ → Option (List ℕ × List ℕ) → Option (List ℕ × List ℕ)
prefix c none = none
prefix c (some (before, after)) = some (c ∷ before, after)

-- `str::split_once`
unfoldable pub split_once : ℕ → List ℕ → Option (List ℕ × List ℕ)
split_once sep [] = none
split_once sep (c ∷ text) =
    let rest = split_once sep text in if c == sep then some ([], text) else prefix c rest

abbrev pub join_part : ℕ → List (List ℕ) → List (List ℕ)
join_part c [] = (c ∷ []) ∷ []
join_part c (part ∷ parts) = (c ∷ part) ∷ parts

-- `str::split`, on a comma.
unfoldable pub split : List ℕ → List (List ℕ)
split [] = [] ∷ []
split (c ∷ text) = let rest = split text in if c == 44 then [] ∷ rest else join_part c rest

unfoldable pub parse_digits : ℕ → List ℕ → Option ℕ
parse_digits n [] = some n
parse_digits n (c ∷ text) =
    let m = n * 10 + (c - 48) in
    let rest = parse_digits m text in if leb 48 c && leb c 57 && ltb m (2 ^ 32) then rest else none

-- `str::parse`, to a u32.
unfoldable pub parse : List ℕ → Option ℕ
parse [] = none
parse (c ∷ []) = if c == 43 then none else parse_digits 0 (c ∷ [])
parse (c ∷ d ∷ text) = if c == 43 then parse_digits 0 (d ∷ text) else parse_digits 0 (c ∷ d ∷ text)

-- The first CPU and the last of `a-b`, or of `n`.
abbrev pub parse_range : List ℕ → Option (List ℕ × List ℕ) → Option (ℕ × ℕ)
parse_range span none = do n ← parse span; some (n, n)
parse_range span (some (first, last)) = do
  a ← parse (trim first)
  b ← parse (trim last)
  if ltb b a then none else some (a, b)

-- The span of an element and its stride.
abbrev pub parse_stride : List ℕ → Option (List ℕ × List ℕ) → Option (List ℕ × ℕ)
parse_stride part none = some (part, 1)
parse_stride part (some (span, stride)) = do
  s ← parse (trim stride)
  if (s == 0) || not (any (λ c. c == 45) span) then none else some (span, s)

abbrev pub parse_part : List ℕ → Option (ℕ × ℕ × ℕ)
parse_part [] = none
parse_part (c ∷ text) = do
  (span, stride) ← parse_stride (c ∷ text) (split_once 58 (c ∷ text))
  (a, b) ← parse_range span (split_once 45 span)
  some (a, b, stride)

unfoldable pub parse_parts : List (List ℕ) → Option (List (ℕ × ℕ × ℕ))
parse_parts [] = some []
parse_parts (part ∷ parts) = do
  first ← parse_part (trim part)
  rest ← parse_parts parts
  some (first ∷ rest)

pub cuts_of : List (ℕ × ℕ × ℕ) → List ℕ
cuts_of [] = []
cuts_of ((a, b, s) ∷ elements) = a ∷ suc b ∷ cuts_of elements

pub insert_cut : ℕ → List ℕ → List ℕ
insert_cut x [] = x ∷ []
insert_cut x (y ∷ cuts) = let rest = insert_cut x cuts in if leb x y then x ∷ y ∷ cuts else y ∷ rest

-- `sort_unstable`
pub sort_cuts : List ℕ → List ℕ
sort_cuts [] = []
sort_cuts (x ∷ cuts) = insert_cut x (sort_cuts cuts)

-- `dedup`, after an element that was kept.
pub dedup_after : ℕ → List ℕ → List ℕ
dedup_after x [] = []
dedup_after x (y ∷ cuts) = let rest = dedup_after y cuts in if y == x then rest else y ∷ rest

abbrev pub dedup : List ℕ → List ℕ
dedup [] = []
dedup (x ∷ cuts) = x ∷ dedup_after x cuts

-- The elements that a segment lies in, each with its first CPU and its stride.
pub active : ℕ → ℕ → List (ℕ × ℕ × ℕ) → List (ℕ × ℕ)
active lo hi [] = []
active lo hi ((a, b, s) ∷ elements) =
    let rest = active lo hi elements in if leb a lo && leb hi (suc b) then (a, s) ∷ rest else rest

-- The first CPU of a stride that is not before `lo`.
abbrev pub first_from : ℕ → ℕ × ℕ → ℕ
first_from lo (a, s) = a + div_ceil (lo - a) s * s

abbrev pub goes_first : ℕ × ℕ → ℕ × ℕ → Bool
goes_first (cpu, s) (cpu', s') = ltb cpu cpu' || ((cpu == cpu') && leb s s')

-- `BinaryHeap::push`. The heap is the list of its elements, the least first.
pub push : ℕ × ℕ → List (ℕ × ℕ) → List (ℕ × ℕ)
push x [] = x ∷ []
push x (y ∷ heap) = let rest = push x heap in if goes_first x y then x ∷ y ∷ heap else y ∷ rest

pub heap_of : ℕ → List (ℕ × ℕ) → List (ℕ × ℕ)
heap_of lo [] = []
heap_of lo ((a, s) ∷ strides) = push (first_from lo (a, s), s) (heap_of lo strides)

abbrev pub is_last : Option ℕ → ℕ → Bool
is_last none cpu = false
is_last (some l) cpu = l == cpu

-- The loop of the merge, for at most as many turns.
pub walk : ℕ → ℕ → List (ℕ × ℕ) → ℕ → Option ℕ → Option ℕ
walk turns hi [] count last = some count
walk zero hi ((cpu, s) ∷ heap) count last = none
walk (suc turns) hi ((cpu, s) ∷ heap) count last =
    let over = leb hi cpu in
    walk turns hi (if over then heap else push (cpu + s, s) heap)
      (if over || is_last last cpu then count else suc count) (if over then last else some cpu)

-- The turns that are enough: each raises the least CPU of the heap, or takes it out.
pub turns_for : ℕ → List (ℕ × ℕ) → ℕ
turns_for hi [] = 0
turns_for hi ((cpu, s) ∷ heap) = suc (hi - cpu) + turns_for hi heap

abbrev pub merged : ℕ → List (ℕ × ℕ) → Option ℕ
merged hi heap = walk (turns_for hi heap) hi heap 0 none

abbrev pub count_strides : ℕ → ℕ → ℕ × ℕ → List (ℕ × ℕ) → Option ℕ
count_strides lo hi (a, s) [] =
    let first = first_from lo (a, s) in
    some (if ltb first hi then suc ((hi - 1 - first) / s) else 0)
count_strides lo hi x (y ∷ strides) = merged hi (heap_of lo (x ∷ y ∷ strides))

-- A plain range, which has every CPU of the segment.
abbrev pub is_plain : ℕ × ℕ → Bool
is_plain (a, s) = s == 1

abbrev pub count_segment : ℕ → ℕ → List (ℕ × ℕ) → Option ℕ
count_segment lo hi [] = some 0
count_segment lo hi (x ∷ strides) =
    if any is_plain (x ∷ strides) then some (hi - lo) else count_strides lo hi x strides

-- The sum over the segments, from a cut and those after it.
pub count_from : List (ℕ × ℕ × ℕ) → ℕ → List ℕ → Option ℕ
count_from elements lo [] = some 0
count_from elements lo (hi ∷ cuts) = do
  n ← count_segment lo hi (active lo hi elements)
  rest ← count_from elements hi cuts
  some (n + rest)

abbrev pub count_cuts : List (ℕ × ℕ × ℕ) → List ℕ → Option ℕ
count_cuts elements [] = some 0
count_cuts elements (lo ∷ cuts) = count_from elements lo cuts

-- `none` is also a merge that runs out of turns.
unfoldable pub cpu_count : List ℕ → Option ℕ
cpu_count set = do
  elements ← parse_parts (split set)
  total ← count_cuts elements (dedup (sort_cuts (cuts_of elements)))
  some (min total (2 ^ 32 - 1))
