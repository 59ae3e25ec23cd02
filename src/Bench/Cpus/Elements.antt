-- ===== src/Bench/Cpus/Elements.antt =====
-- The elements that `cpu_count` reads are well formed.
use uring_mqtt.Common.{
  ℕ, ◌≤◌, Bool, true, false, not, ◌||◌, Option, none, some, List, [], ◌∷◌, All, any, ◌≡◌, refl, ◌∙◌,
  ap, arith, ltb, ◌==◌, if◌then◌else◌,
}
use uring_mqtt.Bench.Pacer.{◌>>=◌}
use uring_mqtt.Bench.Cpus.{
  trim, split_once, parse, parse_range, parse_stride, parse_part, parse_parts,
}
use uring_mqtt.Bench.Cpus.Segments.{IsElement}

bind-some {ℓ κ} :
    {A : Type ℓ} {B : Type κ} (o : Option A) (f : A → Option B) (b : B)
    → (o >>= f) ≡ some b
    → (a : A) × (o ≡ some a) × (f a ≡ some b)
bind-some none f b e = absurd cc
bind-some (some a) f b e = (a, refl, e)

unless-some {ℓ} :
    {A : Type ℓ} (test : Bool) (x y : A)
    → (if test then none else some x) ≡ some y
    → (test ≡ false) × (x ≡ y)
unless-some true x y e = absurd cc
unless-some false x y e = (refl, cc)

parse_range-le :
    (span : List ℕ) (ends : Option (List ℕ × List ℕ)) (a b : ℕ)
    → parse_range span ends ≡ some (a, b)
    → a ≤ b
parse_range-le span none a b e =
    let (n, _, same) = bind-some (parse span) _ (a, b) e in
    let left : n ≡ a = cc in let right : n ≡ b = cc in omega arith
parse_range-le span (some (first, last)) a b e =
    let (x, _, e') = bind-some (parse (trim first)) _ (a, b) e in
    let (y, _, e'') = bind-some (parse (trim last)) _ (a, b) e' in
    let (ordered, same) = unless-some (ltb y x) (x, y) (a, b) e'' in
    let left : x ≡ a = cc in let right : y ≡ b = cc in ground arith

or-false : (x y : Bool) → (x || y) ≡ false → x ≡ false
or-false true y e = e
or-false false y e = refl

parse_stride-pos :
    (part : List ℕ) (halves : Option (List ℕ × List ℕ)) (span : List ℕ) (s : ℕ)
    → parse_stride part halves ≡ some (span, s)
    → 1 ≤ s
parse_stride-pos part none span s e = let one : 1 ≡ s = cc in omega arith
parse_stride-pos part (some (before, after)) span s e =
    let (x, _, e') = bind-some (parse (trim after)) _ (span, s) e in
    let (some_stride, same) =
      unless-some ((x == 0) || not (any (λ c. c == 45) before)) (before, x) (span, s) e' in
    let pos : (x == 0) ≡ false = or-false (x == 0) _ some_stride in
    let right : x ≡ s = cc in ground arith

parse_part-IsElement : (part : List ℕ) (e : ℕ × ℕ × ℕ) → parse_part part ≡ some e → IsElement e
parse_part-IsElement [] e h = absurd cc
parse_part-IsElement (c ∷ text) (a, b, s) h =
    let ((span, stride), halves, h') =
      bind-some (parse_stride (c ∷ text) (split_once 58 (c ∷ text))) _ (a, b, s) h in
    let ((first, last), range, h'') =
      bind-some (parse_range span (split_once 45 span)) _ (a, b, s) h' in
    let le = parse_range-le span _ first last range in
    let pos = parse_stride-pos _ _ span stride halves in
    let left : first ≡ a = cc in
    let right : last ≡ b = cc in let width : stride ≡ s = cc in (omega arith, omega arith)

pub parse_parts-IsElement :
    (parts : List (List ℕ)) (elements : List (ℕ × ℕ × ℕ))
    → parse_parts parts ≡ some elements
    → All IsElement elements
unfolding parse_parts
parse_parts-IsElement [] [] h = tt
parse_parts-IsElement [] (e ∷ elements) h = absurd cc
parse_parts-IsElement (part ∷ parts) [] h =
    let (_, _, h') = bind-some (parse_part (trim part)) _ [] h in
    let (_, _, h'') = bind-some (parse_parts parts) _ [] h' in absurd cc
parse_parts-IsElement (part ∷ parts) (e ∷ elements) h =
    let (x, first, h') = bind-some (parse_part (trim part)) _ (e ∷ elements) h in
    let (rest, others, h'') = bind-some (parse_parts parts) _ (e ∷ elements) h' in
    let left : x ≡ e = cc in
    let right : rest ≡ elements = cc in
    (
      parse_part-IsElement (trim part) e (first ∙ ap some left),
      parse_parts-IsElement parts elements (others ∙ ap some right),
    )
